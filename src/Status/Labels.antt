-- ===== src/Status/Labels.antt =====
-- Which node reads which label, for vibe_guide/state.py.
use vibe_guide_automation.Common.{
  String, Bool, true, false, not, ◌&&◌, ◌||◌, Option, none, some, List, [], ◌∷◌, ◌≡◌, ◌≢◌, ◌↔◌, ◌⊎◌,
  inl, inr, refl, sym, ap, ◌∙◌, ◌==◌, contains, contains-cons, all_of, is_some, if◌then◌else◌,
  arith, eq_iff, Bool-cases, absurd_eq,
}
use vibe_guide_automation.Json.{Value, Members, text, object, get_member}
use vibe_guide_automation.Status.{
  Label, decision_statuses, active_statuses, recovery_statuses, preparing_statuses, word_in,
  is_word, is_dict, holds, worktree_reason_code, word_label, is_parked, derived_user_status,
  is_repairing, is_session, map_user_status, status_word, worker_session_statuses,
}

and-left : (a b : Bool) → (a && b) ≡ true → a ≡ true
and-left a b h = ground arith

and-right : (a b : Bool) → (a && b) ≡ true → b ≡ true
and-right a b h = ground arith

not-true : (a b : Bool) → (not a && b) ≡ true → a ≡ false
not-true a b h = ground arith

and-flip : (a b c : Bool) → b ≡ true → (not a && (not b && not c)) ≡ false
and-flip a b c h = ground arith

and-last : (a b c : Bool) → c ≡ true → (not a && (not b && not c)) ≡ false
and-last a b c h = ground arith

and-first : (a b : Bool) → a ≡ false → (a && b) ≡ false
and-first a b h = ground arith

-- The chains of tests, over any outcomes of them.
abbrev word_chain : Bool → Bool → Bool → Bool → Bool → Label
word_chain a b c d e =
    if a
    then Label.investigate
    else if b
    then Label.your_decision
    else if c
    then Label.preparing
    else if d
    then Label.started
    else if e
    then Label.repairing
    else Label.repairing

abbrev derived_chain : Bool → Bool → Bool → Bool → Bool → Label → Label
derived_chain parked code engineering binding retry l =
    if parked && code
    then Label.build_worktree
    else if engineering && parked
    then Label.investigate
    else if binding
    then Label.repairing
    else if retry
    then Label.repairing
    else l

abbrev stalled_chain : Bool → Bool → Bool → Label → Label
stalled_chain session investigate escalate l =
    if is_repairing l || session
    then if investigate then Label.investigate else if escalate then Label.human else l
    else l

IsWordLabel : Label → Type 0
IsWordLabel l = (l ≢ Label.build_worktree) × (l ≢ Label.human)

word_chain-IsWordLabel : (a b c d e : Bool) → IsWordLabel (word_chain a b c d e)
unfolding IsWordLabel
word_chain-IsWordLabel a b c d e = ground arith

word_label-IsWordLabel : (s : String) → IsWordLabel (word_label s)
unfolding word_label
word_label-IsWordLabel s =
    word_chain-IsWordLabel (s == "awaiting_supervisor") (contains decision_statuses s)
      (contains preparing_statuses s) (contains active_statuses s) (contains recovery_statuses s)

session-active :
    (o : Option Value) → word_in worker_session_statuses o ≡ true → word_in active_statuses o ≡ true
session-active none h = h
session-active (some (text s)) h = ground arith
session-active (some v) h = absurd_eq h

-- A status of a bound session is one of a node that has moved on.
session-not-IsParked : (r : Members) → is_session r ≡ true → is_parked r ≡ false
session-not-IsParked r h =
    let a = session-active (get_member r "status") (and-left _ _ h) in
    rw (and-flip (holds r "active_task") _ (word_in decision_statuses (get_member r "status")) a)
      refl

-- A test that fails on every word of a list fails on each.
contains-none :
    (p : String → Bool) (words : List String) (s : String)
    → all_of (λ w. not (p w)) words ≡ true
    → contains words s ≡ true
    → p s ≡ false
contains-none p [] s n h = absurd_eq h
contains-none p (w ∷ words) s n h = elim (contains-cons w s words h) [
  | inl e ↦ ap p e ∙ not-true (p w) _ n
  | inr m ↦ contains-none p words s (and-right (not (p w)) _ n) m
]

derived_chain-build :
    (parked code engineering binding retry session investigate escalate : Bool) (l : Label)
    → IsWordLabel l
    → (session ≡ true → parked ≡ false)
    → (stalled_chain session investigate escalate
          (derived_chain parked code engineering binding retry l)
        ≡ Label.build_worktree)
      ↔ ((parked ≡ true) × (code ≡ true))
unfolding IsWordLabel
derived_chain-build parked code engineering binding retry session investigate escalate l (x, y) z =
    ground arith

derived_chain-decision :
    (parked code engineering binding retry session investigate escalate : Bool) (l : Label)
    → (l ≡ Label.your_decision → (parked ≡ false) × (session ≡ false))
    → (stalled_chain session investigate escalate
          (derived_chain parked code engineering binding retry l)
        ≡ Label.your_decision)
      ↔ ((l ≡ Label.your_decision) × (binding ≡ false) × (retry ≡ false))
derived_chain-decision parked code engineering binding retry session investigate escalate l z =
    ground arith

word_chain-decision :
    (a b c d e : Bool)
    → (b ≡ true → a ≡ false)
    → (word_chain a b c d e ≡ Label.your_decision) ↔ (b ≡ true)
word_chain-decision a b c d e h = ground arith

word_label-decision :
    (s : String) → (word_label s ≡ Label.your_decision) ↔ (contains decision_statuses s ≡ true)
unfolding word_label
word_label-decision s =
    word_chain-decision (s == "awaiting_supervisor") (contains decision_statuses s)
      (contains preparing_statuses s) (contains active_statuses s) (contains recovery_statuses s)
      (contains-none (λ w. w == "awaiting_supervisor") decision_statuses s refl)

word_in-status_word :
    (words : List String) (o : Option Value)
    → contains words "" ≡ false
    → word_in words o ≡ contains words (status_word o)
word_in-status_word words none e = sym e
word_in-status_word words (some (text s)) e = refl
word_in-status_word words (some v) e = sym e

-- A node that waits for a decision is neither parked nor at work.
decision-not-IsParked :
    (r : Members) → word_in decision_statuses (get_member r "status") ≡ true → is_parked r ≡ false
decision-not-IsParked r h =
    rw (and-last (holds r "active_task") (word_in active_statuses (get_member r "status")) _ h) refl

decision-not-IsSession :
    (r : Members) → word_in decision_statuses (get_member r "status") ≡ true → is_session r ≡ false
decision-not-IsSession r h =
    let e = word_in-status_word decision_statuses (get_member r "status") refl in
    let f = word_in-status_word worker_session_statuses (get_member r "status") refl in
    let n =
      contains-none (contains worker_session_statuses) decision_statuses
        (status_word (get_member r "status")) refl (sym e ∙ h) in
    and-first _ (is_dict (get_member r "active_task")) (f ∙ n)

derived_chain-human :
    (parked code engineering binding retry session investigate escalate : Bool) (l : Label)
    → IsWordLabel l
    → (stalled_chain session investigate escalate
          (derived_chain parked code engineering binding retry l)
        ≡ Label.human)
      ↔ ((investigate ≡ false)
          × (escalate ≡ true)
          × ((derived_chain parked code engineering binding retry l ≡ Label.repairing)
              ⊎ (session ≡ true)))
unfolding IsWordLabel
derived_chain-human parked code engineering binding retry session investigate escalate l (x, y) =
    ground arith

-- A node reads that a worktree is to be built exactly when it is parked (no task is bound, and its
-- status is neither an active nor a decision one) and its marker has a known reason code.
pub map_user_status-build_worktree_iff :
    (r : Members)
    → (map_user_status (object r) ≡ Label.build_worktree)
      ↔ ((is_parked r ≡ true) × (is_some (worktree_reason_code r) ≡ true))
unfolding map_user_status derived_user_status
map_user_status-build_worktree_iff r =
    derived_chain-build (is_parked r) (is_some (worktree_reason_code r))
      (is_word "engineering_blocked" (get_member r "reason_class"))
      (word_in recovery_statuses (get_member r "binding_phase"))
      (is_dict (get_member r "retryable_action") && not (holds r "active_task")) (is_session r)
      (is_word "supervisor_investigate" (get_member r "stall_tier"))
      (is_word "escalate_to_pm" (get_member r "stall_tier"))
      (word_label (status_word (get_member r "status")))
      (word_label-IsWordLabel (status_word (get_member r "status"))) (session-not-IsParked r)

word_iff :
    (a b : String) (o : Option Value) → (a == b) ≡ false → is_word a o ≡ true → is_word b o ≡ false
word_iff a b none n h = refl
word_iff a b (some (text s)) n h = elim (Bool-cases (s == b)) [
  | inl e ↦ absurd_eq (sym n ∙ (eq_iff a b).1 (sym ((eq_iff s a).0 h) ∙ (eq_iff s b).0 e))
  | inr e ↦ e
]
word_iff a b (some v) n h = refl

-- A node reads that a human has to act exactly when its stall tier is `escalate_to_pm` and it would
-- else read as repairing itself, or has a bound worker session.
pub map_user_status-human_iff :
    (r : Members)
    → (map_user_status (object r) ≡ Label.human) ↔ (
        (is_word "escalate_to_pm" (get_member r "stall_tier") ≡ true)
        × ((derived_user_status (object r) ≡ Label.repairing) ⊎ (is_session r ≡ true)))
unfolding map_user_status derived_user_status
map_user_status-human_iff r =
    let x =
      derived_chain-human (is_parked r) (is_some (worktree_reason_code r))
        (is_word "engineering_blocked" (get_member r "reason_class"))
        (word_in recovery_statuses (get_member r "binding_phase"))
        (is_dict (get_member r "retryable_action") && not (holds r "active_task")) (is_session r)
        (is_word "supervisor_investigate" (get_member r "stall_tier"))
        (is_word "escalate_to_pm" (get_member r "stall_tier"))
        (word_label (status_word (get_member r "status")))
        (word_label-IsWordLabel (status_word (get_member r "status"))) in
    (
      λ h. let (a, b, c) = x.0 h in (b, c),
      λ (e, d). x.1 (
        word_iff "escalate_to_pm" "supervisor_investigate" (get_member r "stall_tier") refl e,
        e,
        d,
      ),
    )

-- A node reads that the user has to decide exactly when its status is a decision status, no binding is
-- being repaired and no action waits to be tried again without a bound task.
pub map_user_status-your_decision_iff :
    (r : Members)
    → (map_user_status (object r) ≡ Label.your_decision) ↔ (
        (word_in decision_statuses (get_member r "status") ≡ true)
        × (word_in recovery_statuses (get_member r "binding_phase") ≡ false)
        × ((is_dict (get_member r "retryable_action") && not (holds r "active_task")) ≡ false))
unfolding map_user_status derived_user_status
map_user_status-your_decision_iff r =
    let e = word_in-status_word decision_statuses (get_member r "status") refl in
    let w = word_label-decision (status_word (get_member r "status")) in
    let x =
      derived_chain-decision (is_parked r) (is_some (worktree_reason_code r))
        (is_word "engineering_blocked" (get_member r "reason_class"))
        (word_in recovery_statuses (get_member r "binding_phase"))
        (is_dict (get_member r "retryable_action") && not (holds r "active_task")) (is_session r)
        (is_word "supervisor_investigate" (get_member r "stall_tier"))
        (is_word "escalate_to_pm" (get_member r "stall_tier"))
        (word_label (status_word (get_member r "status")))
        (λ h. (decision-not-IsParked r (e ∙ w.0 h), decision-not-IsSession r (e ∙ w.0 h))) in
    (λ h. let (a, b, c) = x.0 h in (e ∙ w.0 a, b, c), λ (a, b, c). x.1 (w.1 (sym e ∙ a), b, c))
