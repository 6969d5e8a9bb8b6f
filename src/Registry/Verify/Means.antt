-- ===== src/Registry/Verify/Means.antt =====
-- What it means that `validate_binding` of vibe_guide/task_registry.py lists nothing for a part of a
-- binding.
use vibe_guide_automation.Common.{
  both_iff, String, Bool, true, false, not, ◌&&◌, ◌||◌, Option, none, some, List, [], ◌∷◌, ◌++◌,
  ◌==◌, is_empty, is_some, if◌then◌else◌, ◌≡◌, ◌↔◌, ◌⊎◌, refl, sym, ap, ◌∙◌, subst, absurd_eq,
  eq_iff, some-inj, arith, none-some,
}
use vibe_guide_automation.Registry.{same_text}
use vibe_guide_automation.Registry.Lineage.{same_text_iff}
use vibe_guide_automation.Registry.Verify.Facts.{
  IsIntended, HasLease, IsSourced, IsStated, is_blank_iff, is_intended_iff, is_sourced_iff,
  unequal_lease_iff,
}
use vibe_guide_automation.Registry.Verify.{
  SupervisorLease, BindingIntent, CursorObservation, BindingObservation, is_blank, Lists, ◌⊕◌,
  missing_if, conflict_if, unstated, compared, fields, unlike, is_unclean, head, unequal_lease,
  is_intended, lease_lists, is_sourced, cursor_conflicts, cursor_lists, without_repeats,
}

-- Stated, and the same on both sides.
pub record IsGiven (observed expected : Option String) : Type 0 where
  pub stated : IsStated observed
  pub same : observed ≡ expected

abbrev pub is_clear : Lists → Bool
is_clear (m, c) = is_empty m && is_empty c

is_empty-append : (xs ys : List String) → is_empty (xs ++ ys) ≡ (is_empty xs && is_empty ys)
is_empty-append [] ys = refl
is_empty-append (x ∷ xs) ys = refl

shuffle : (a b c d : Bool) → ((a && b) && (c && d)) ≡ ((a && c) && (b && d))
shuffle a b c d = ground arith

pub is_clear-join : (a b : Lists) → is_clear (a ⊕ b) ≡ (is_clear a && is_clear b)
is_clear-join (m, c) (n, e) =
    rw (is_empty-append m n, is_empty-append c e)
      (shuffle (is_empty m) (is_empty n) (is_empty c) (is_empty e))

pub is_empty-without_repeats : (xs : List String) → is_empty (without_repeats [] xs) ≡ is_empty xs
unfolding without_repeats
is_empty-without_repeats [] = refl
is_empty-without_repeats (x ∷ xs) = refl

is_clear-missing : (b : Bool) (name : String) → is_clear (missing_if b name) ≡ not b
is_clear-missing true name = refl
is_clear-missing false name = refl

is_clear-conflict : (b : Bool) (name : String) → is_clear (conflict_if b name) ≡ not b
is_clear-conflict true name = refl
is_clear-conflict false name = refl

not-false : (b : Bool) → not b ≡ false → b ≡ true
not-false true h = refl
not-false false h = absurd_eq (sym h)

-- Lists that are empty just when something holds.
pub record Means {ℓ} (a : Lists) (P : Type ℓ) : Type ℓ where
  pub iff : (is_clear a ≡ true) ↔ P

pub join {ℓ κ} :
    {P : Type ℓ} {Q : Type κ} {a b : Lists} → Means a P → Means b Q → Means (a ⊕ b) (P × Q)
join {a = a} {b = b} p q =
    let e = is_clear-join a b in
    let i = both_iff (is_clear a) (is_clear b) p.iff q.iff in
    record { iff = (λ h. i.0 (sym e ∙ h), λ h. e ∙ i.1 h) }

exactly {ℓ κ} : {P : Type ℓ} {Q : Type κ} {a : Lists} → Means a P → (P ↔ Q) → Means a Q
exactly m e = record { iff = (λ h. e.0 (m.iff.0 h), λ q. m.iff.1 (e.1 q)) }

not_iff : (b : Bool) → (not b ≡ true) ↔ (b ≡ false)
not_iff true = (λ h. absurd_eq h, λ h. absurd_eq (sym h))
not_iff false = (λ h. refl, λ h. refl)

missing : (b : Bool) (name : String) → Means (missing_if b name) (b ≡ false)
missing true name = record { iff = (λ h. absurd_eq h, λ h. absurd_eq (sym h)) }
missing false name = record { iff = (λ h. refl, λ h. refl) }

conflict : (b : Bool) (name : String) → Means (conflict_if b name) (b ≡ false)
conflict true name = record { iff = (λ h. absurd_eq h, λ h. absurd_eq (sym h)) }
conflict false name = record { iff = (λ h. refl, λ h. refl) }

along {ℓ κ μ} : {A : Type ℓ} {B : Type κ} {C : Type μ} → (A ↔ B) → (B ↔ C) → A ↔ C
along p q = (λ a. q.0 (p.0 a), λ c. p.1 (q.1 c))

pub is_not_iff : (b : Bool) → (not b ≡ false) ↔ (b ≡ true)
is_not_iff true = (λ h. refl, λ h. refl)
is_not_iff false = (λ h. absurd_eq (sym h), λ h. absurd_eq h)

pub unequal_iff : (a b : Option String) → (not (same_text a b) ≡ false) ↔ (a ≡ b)
unequal_iff a b = let i = same_text_iff a b in (λ h. i.0 (not-false _ h), λ h. ap not (i.1 h))

-- A field that is missing or else conflicts.
either {ℓ} :
    {P : Type ℓ} (b c : Bool) (name : String)
    → ((c ≡ false) ↔ P)
    → Means (if b then missing_if true name else conflict_if c name) ((b ≡ false) × P)
either true c name i = record { iff = (λ h. absurd_eq h, λ h. absurd_eq (sym h.0)) }
either false c name i =
    let j = conflict c name in
    record { iff = (λ h. (refl, i.0 (j.iff.0 h)), λ h. j.iff.1 (i.1 h.1)) }

given_iff : (a b : Option String) → ((is_blank a ≡ false) × (a ≡ b)) ↔ IsGiven a b
given_iff a b = (
  λ h. record { stated = (is_blank_iff a).0 h.0; same = h.1 },
  λ g. ((is_blank_iff a).1 g.stated, g.same),
)

compares : (name : String) (a b : Option String) → Means (compared name a b) (IsGiven a b)
compares name a b = exactly (either (is_blank a) _ name (unequal_iff a b)) (given_iff a b)

unlike_iff :
    (observed : String) (expected : Option String)
    → is_blank expected ≡ false
    → (unlike observed expected ≡ false) ↔ (some observed ≡ expected)
unlike_iff observed none h = absurd_eq (sym h)
unlike_iff observed (some expected) h = unequal_iff (some observed) (some expected)

is_unclean_iff :
    (b : Bool) (expected : Option Bool)
    → is_some expected ≡ true
    → (is_unclean b expected ≡ false) ↔ ((b ≡ true) × (expected ≡ some true))
is_unclean_iff false e h = (λ h. absurd_eq (sym h), λ h. absurd_eq h.0)
is_unclean_iff true none h = absurd_eq h
is_unclean_iff true (some true) h = (λ h. (refl, refl), λ h. refl)
is_unclean_iff true (some false) h = (λ h. absurd_eq (sym h), λ h. absurd_eq (some-inj h.1))

some_iff : (o : Option Bool) → (not (is_some o) ≡ false) ↔ (is_some o ≡ true)
some_iff none = (λ h. absurd_eq (sym h), λ h. absurd_eq h)
some_iff (some b) = (λ h. refl, λ h. refl)

pub record Stated (i : BindingIntent) : Type 0 where
  pub node : is_blank i.node_id ≡ false
  pub lease : is_blank i.lease_id ≡ false
  pub head : is_blank i.head_sha ≡ false
  pub clean : is_some i.clean ≡ true
  pub cursor : is_blank i.cursor ≡ false

pub states : (i : BindingIntent) → Means (unstated i) (Stated i)
states i =
    exactly
      (join (missing (is_blank i.node_id) "node_id") (
        join (missing (is_blank i.lease_id) "lease_id") (
          join (missing (is_blank i.head_sha) "head_sha") (
            join (exactly (missing (not (is_some i.clean)) "clean") (some_iff i.clean))
              (missing (is_blank i.cursor) "cursor")))))
      (
        λ (a, (b, (c, (d, e)))). record { node = a; lease = b; head = c; clean = d; cursor = e },
        λ s. (s.node, (s.lease, (s.head, (s.clean, s.cursor)))),
      )

pub record Compared (i : BindingIntent) (o : BindingObservation) : Type 0 where
  pub project : IsGiven (some o.project_id) (some i.project_id)
  pub task : IsGiven (some o.task_id) (some i.task_id)
  pub node : IsGiven o.node_id i.node_id
  pub host : IsGiven (some o.host_id) (some i.host_id)
  pub worktree : IsGiven (some o.worktree) (some i.worktree)
  pub managed_root : IsGiven (some o.managed_root) (some i.managed_root)
  pub branch : IsGiven (some o.branch) (some i.branch)
  pub base : IsGiven (some o.base_sha) (some i.base_sha)

pub compares_all : (i : BindingIntent) (o : BindingObservation) → Means (fields i o) (Compared i o)
compares_all i o =
    exactly
      (join (compares "project_id" (some o.project_id) (some i.project_id)) (
        join (compares "task_id" (some o.task_id) (some i.task_id)) (
          join (compares "node_id" o.node_id i.node_id) (
            join (compares "host_id" (some o.host_id) (some i.host_id)) (
              join (compares "worktree" (some o.worktree) (some i.worktree)) (
                join (compares "managed_root" (some o.managed_root) (some i.managed_root)) (
                  join (compares "branch" (some o.branch) (some i.branch))
                    (compares "base_sha" (some o.base_sha) (some i.base_sha)))))))))
      (
        λ (a, (b, (c, (d, (e, (f, (g, k))))))). record {
          project = a;
          task = b;
          node = c;
          host = d;
          worktree = e;
          managed_root = f;
          branch = g;
          base = k;
        },
        λ s. (
          s.project,
          (s.task, (s.node, (s.host, (s.worktree, (s.managed_root, (s.branch, s.base)))))),
        ),
      )

pub heads :
    (i : BindingIntent) (o : BindingObservation)
    → Stated i
    → Means
        (head i o)
        (IsGiven (some o.head_sha) i.head_sha × ((o.clean ≡ true) × (i.clean ≡ some true)))
heads i o s =
    join
      (exactly
        (either (o.head_sha == "") (unlike o.head_sha i.head_sha) "head_sha"
          (unlike_iff o.head_sha i.head_sha s.head))
        (given_iff (some o.head_sha) i.head_sha))
      (exactly (conflict (is_unclean o.clean i.clean) "clean")
        (is_unclean_iff o.clean i.clean s.clean))

pub leases :
    (identity : String → String → String → String) (i : BindingIntent) (o : Option SupervisorLease)
    → Stated i
    → Means
        (lease_lists identity i o)
        ((l : SupervisorLease) × (o ≡ some l) × HasLease identity i l)
leases identity i none s = record { iff = (λ h. absurd_eq h, λ (l, e, h). none-some e) }
leases identity i (some l) s =
    exactly
      (join
        (exactly (conflict (not (is_intended identity i l)) "lease")
          (along (is_not_iff (is_intended identity i l)) (is_intended_iff identity i l)))
        (join
          (exactly (conflict (unlike l.lease_id i.lease_id) "lease")
            (unlike_iff l.lease_id i.lease_id s.lease))
          (exactly (conflict (unequal_lease i.lease l) "lease") (unequal_lease_iff i.lease l))))
      (
        λ (a, (b, c)). (l, refl, record { intended = a; named = sym b; equal = c }),
        λ (k, e, h).
            subst
              (λ z.
                IsIntended identity i z
                × ((some z.lease_id ≡ i.lease_id)
                    × ((i.lease ≡ none)
                        ⊎ ((test : SupervisorLease → Bool) × (i.lease ≡ some test)
                            × (test z ≡ true)))))
              (sym (some-inj e)) (h.intended, (sym h.named, h.equal)),
      )

neither_iff {ℓ κ} :
    {P : Type ℓ} {Q : Type κ} (a b : Bool)
    → ((a ≡ false) ↔ P)
    → ((b ≡ false) ↔ Q)
    → ((a || b) ≡ false) ↔ (P × Q)
neither_iff true b p q = (λ h. absurd_eq (sym h), λ h. p.1 h.0)
neither_iff false b p q = (λ h. (p.0 refl, q.0 h), λ h. q.1 h.1)

abbrev pub Waited : BindingObservation → Option CursorObservation → Type 0
Waited o w = (c : CursorObservation) × (w ≡ some c) × IsSourced o c

cursor_conflicts_iff :
    (i : BindingIntent) (o : BindingObservation) (w : Option CursorObservation)
    → (cursor_conflicts i o w ≡ false) ↔ (Waited o w × (o.cursor ≡ i.cursor))
cursor_conflicts_iff i o none = (λ h. absurd_eq (sym h), λ h. none-some h.0.1)
cursor_conflicts_iff i o (some c) =
    let j =
      neither_iff (not (is_sourced o c)) _
        (along (is_not_iff (is_sourced o c)) (is_sourced_iff o c))
        (unequal_iff o.cursor i.cursor) in
    (
      λ h. let (a, b) = j.0 h in ((c, refl, a), b),
      λ (w, b). j.1 (subst (IsSourced o) (sym (some-inj w.1)) w.2, b),
    )

source_iff : (a b : String) → (not (a == b) ≡ false) ↔ (a ≡ b)
source_iff a b = (λ h. (eq_iff a b).0 (not-false _ h), λ h. ap not ((eq_iff a b).1 h))

pub cursors :
    (i : BindingIntent) (o : BindingObservation)
    → Means (cursor_lists i o) (
        (is_blank o.cursor ≡ false)
        × ((o.source ≡ "codex_app__wait_threads")
            × (Waited o o.cursor_observation × (o.cursor ≡ i.cursor))))
cursors i o = either (is_blank o.cursor) _ "cursor" (
    neither_iff (not (o.source == "codex_app__wait_threads"))
      (cursor_conflicts i o o.cursor_observation) (source_iff o.source "codex_app__wait_threads")
      (cursor_conflicts_iff i o o.cursor_observation))
