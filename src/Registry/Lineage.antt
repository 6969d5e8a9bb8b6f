-- ===== src/Registry/Lineage.antt =====
-- The rows of one issue, role and run in a registry file of vibe_guide/task_registry.py, oldest first.
pub mod Checks
pub mod Kept
pub mod Live
use vibe_guide_automation.Common.{
  ℕ, ◌≤◌, ◌<◌, String, Bool, true, false, not, ◌&&◌, ◌||◌, Option, none, some, List, [], ◌∷◌, ◌++◌,
  ◌≡◌, ◌↔◌, inl, inr, refl, sym, ap, ◌∙◌, subst, leb, ltb, all_of, any_of, All, keep, ◌==◌, arith,
  eq_iff, Bool-cases, some-inj, absurd_eq, and-both,
}
use vibe_guide_automation.Registry.{
  Binding, same_text, same_identity, is_stopped, is_pinned, is_handoff, first_match, later, latest,
  is_successor, may_replace, fits, replace_or_append,
}

-- `b` was made to take over from `a`.
pub record Succeeds (a b : Binding) : Type 0 where
  pub stopped : is_stopped a ≡ true
  pub names : b.successor_of ≡ a.task_id
  pub newer : a.generation < b.generation
  pub same_worktree : a.worktree ≡ b.worktree
  pub same_branch : a.branch ≡ b.branch

abbrev pub Follows : Binding → List Binding → Type 0
Follows a [] = Unit
Follows a (b ∷ bs) = Succeeds a b

abbrev pub IsFresh : Option String → List Binding → Type 0
IsFresh task bs = All (λ b. same_text b.task_id task ≡ false) bs

-- Every row but the last is stopped and is what the next one succeeds; no task id occurs twice.
abbrev pub Lineage : List Binding → Type 0
Lineage [] = Unit
Lineage (b ∷ bs) = Follows b bs × IsFresh b.task_id bs × Lineage bs

pub same_text_iff : (a b : Option String) → (same_text a b ≡ true) ↔ (a ≡ b)
same_text_iff none none = (λ h. refl, λ h. refl)
same_text_iff none (some b) = (λ h. absurd_eq h, λ h. cc)
same_text_iff (some a) none = (λ h. absurd_eq h, λ h. cc)
same_text_iff (some a) (some b) =
    (λ h. ap some ((eq_iff a b).0 h), λ h. (eq_iff a b).1 (some-inj h))

pub record Alike (a b : Binding) : Type 0 where
  pub issue : a.issue_id ≡ b.issue_id
  pub role : a.role ≡ b.role
  pub task : a.task_id ≡ b.task_id
  pub worktree : a.worktree ≡ b.worktree
  pub branch : a.branch ≡ b.branch

pub same_identity-Alike : (a b : Binding) → same_identity a b ≡ true → Alike a b
same_identity-Alike a b h =
    let (h, branch) = and-both _ _ h in
    let (h, worktree) = and-both _ _ h in
    let (h, host) = and-both _ _ h in
    let (h, task) = and-both _ _ h in
    let (h, role) = and-both _ _ h in
    let (h, issue) = and-both _ _ h in
    record {
      issue = (eq_iff a.issue_id b.issue_id).0 issue;
      role = (eq_iff a.role b.role).0 role;
      task = (same_text_iff a.task_id b.task_id).0 task;
      worktree = (eq_iff a.worktree b.worktree).0 worktree;
      branch = (eq_iff a.branch b.branch).0 branch;
    }

pub any_of-All {ℓ} :
    {A : Type ℓ} (p : A → Bool) (xs : List A) → any_of p xs ≡ false → All (λ x. p x ≡ false) xs
any_of-All p [] h = tt
any_of-All p (x ∷ xs) h = elim (Bool-cases (p x)) [
  | inl e ↦ absurd (ground arith)
  | inr e ↦ (e, any_of-All p xs (ground arith))
]

pub All-map {ℓ κ μ} :
    {A : Type ℓ} {P : A → Type κ} {Q : A → Type μ} (xs : List A)
    → ((x : A) → P x → Q x)
    → All P xs
    → All Q xs
All-map [] f h = tt
All-map (x ∷ xs) f h = (f x h.0, All-map xs f h.1)

pub last : Binding → List Binding → Binding
last b [] = b
last b (c ∷ bs) = last c bs

later_newer : (a b : Binding) → a.generation < b.generation → later a b ≡ b
later_newer a b h = ground arith

pub latest-Lineage : (b : Binding) (bs : List Binding) → Lineage (b ∷ bs) → latest b bs ≡ last b bs
unfolding latest last
latest-Lineage b [] h = refl
latest-Lineage b (c ∷ bs) h =
    ap (λ z. latest z bs) (later_newer b c h.0.newer) ∙ latest-Lineage c bs h.2

Follows-append :
    (b c p : Binding) (bs : List Binding) → Follows b (c ∷ bs) → Follows b ((c ∷ bs) ++ p ∷ [])
Follows-append b c p bs h = h

IsFresh-append :
    (task : Option String) (p : Binding) (bs : List Binding)
    → same_text p.task_id task ≡ false
    → IsFresh task bs
    → IsFresh task (bs ++ p ∷ [])
IsFresh-append task p [] e h = (e, tt)
IsFresh-append task p (b ∷ bs) e h = (h.0, IsFresh-append task p bs e h.1)

same_text-sym : (a b : Option String) → same_text a b ≡ false → same_text b a ≡ false
same_text-sym a b h = elim (Bool-cases (same_text b a)) [
  | inl e ↦ absurd_eq (sym h ∙ (same_text_iff a b).1 (sym ((same_text_iff b a).0 e)))
  | inr e ↦ e
]

pub Lineage-append :
    (b p : Binding) (bs : List Binding)
    → Lineage (b ∷ bs)
    → Succeeds (last b bs) p
    → IsFresh p.task_id (b ∷ bs)
    → Lineage ((b ∷ bs) ++ p ∷ [])
unfolding last
Lineage-append b p [] h s f = (s, (same_text-sym b.task_id p.task_id f.0, tt), (tt, tt, tt))
Lineage-append b p (c ∷ bs) h s f = (
  h.0,
  IsFresh-append b.task_id p (c ∷ bs) (same_text-sym b.task_id p.task_id f.0) h.1,
  Lineage-append c p bs h.2 s f.1,
)
