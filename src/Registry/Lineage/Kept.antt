-- ===== src/Registry/Lineage/Kept.antt =====
-- A save that passes its checks keeps the rows of one issue, role and run a lineage.
use vibe_guide_automation.Common.{
  ℕ, ◌≤◌, ◌<◌, String, Bool, true, false, not, Option, none, some, List, [], ◌∷◌, ◌++◌, ◌≡◌, inl,
  inr, refl, sym, ap, ◌∙◌, subst, all_of, arith, eq_iff, Bool-cases, Option-cases, absurd_eq,
  and-both, none-some,
}
use vibe_guide_automation.Registry.{
  Binding, same_text, same_identity, is_stopped, is_pinned, is_handoff, first_match, latest,
  is_successor, fits_none, fits, replace_or_append,
}
use vibe_guide_automation.Registry.Lineage.{
  Follows, IsFresh, Lineage, same_text_iff, Alike, any_of-All, last, latest-Lineage, Lineage-append,
}
use vibe_guide_automation.Registry.Lineage.Checks.{
  Replaces, may_replace-Replaces, first_match-same, first_match-here, first_match-there,
  replace-here, replace-there, ltb-path,
}

-- The row that is replaced passes its successor on.
Follows-replaced :
    (p b : Binding) (bs : List Binding)
    → Replaces p b bs
    → Follows b bs
    → IsFresh b.task_id bs
    → Follows p bs
Follows-replaced p b [] r f d = tt
Follows-replaced p b (c ∷ bs) r f d =
    let frozen = r.others.0.frozen f.names in
    let newer = subst (λ z. z < c.generation) (sym frozen) f.newer in
    record {
      stopped =
          r.others.0.retired (subst (λ z. same_text c.task_id z ≡ false) r.alike.task d.0) newer;
      names = f.names ∙ r.alike.task;
      newer = newer;
      same_worktree = sym r.alike.worktree ∙ f.same_worktree;
      same_branch = sym r.alike.branch ∙ f.same_branch;
    }

earlier_newer : (a b c : ℕ) → a < b → b ≤ c → a < c
earlier_newer a b c h i = omega arith

-- The row before it still names it.
Follows-replace :
    (p m b : Binding) (bs : List Binding)
    → first_match p bs ≡ some m
    → Replaces p m bs
    → Follows b bs
    → Follows b (replace_or_append p bs)
unfolding first_match replace_or_append
Follows-replace p m b [] h r f = none-some h
Follows-replace p m b (c ∷ bs) h r f = elim (Bool-cases (same_identity c p)) [
  | inl e ↦
      let q = first_match-here p m c bs e h in
      subst (Follows b) (sym (replace-here p c bs e)) (record {
        stopped = f.stopped;
        names = sym r.ancestry ∙ ap (λ (z : Binding). z.successor_of) (sym q) ∙ f.names;
        newer =
            earlier_newer b.generation m.generation p.generation
              (subst (λ (z : Binding). b.generation < z.generation) q f.newer) r.newer;
        same_worktree = f.same_worktree ∙ ap (λ (z : Binding). z.worktree) q ∙ r.alike.worktree;
        same_branch = f.same_branch ∙ ap (λ (z : Binding). z.branch) q ∙ r.alike.branch;
      })
  | inr e ↦ subst (Follows b) (sym (replace-there p c bs e)) f
]

IsFresh-replace :
    (p m : Binding) (task : Option String) (bs : List Binding)
    → first_match p bs ≡ some m
    → Alike m p
    → IsFresh task bs
    → IsFresh task (replace_or_append p bs)
unfolding first_match replace_or_append
IsFresh-replace p m task [] h a f = none-some h
IsFresh-replace p m task (c ∷ bs) h a f = elim (Bool-cases (same_identity c p)) [
  | inl e ↦
      let q = first_match-here p m c bs e h in
      subst (IsFresh task) (sym (replace-here p c bs e)) (
        subst (λ z. same_text z task ≡ false) (ap (λ (z : Binding). z.task_id) q ∙ a.task) f.0,
        f.1,
      )
  | inr e ↦
      subst (IsFresh task) (sym (replace-there p c bs e))
        (f.0, IsFresh-replace p m task bs (first_match-there p m c bs e h) a f.1)
]

Replaces-tail : (p m b : Binding) (bs : List Binding) → Replaces p m (b ∷ bs) → Replaces p m bs
Replaces-tail p m b bs r = record {
  alike = r.alike;
  ancestry = r.ancestry;
  newer = r.newer;
  others = r.others.1;
}

Lineage-replace :
    (p m : Binding) (bs : List Binding)
    → first_match p bs ≡ some m
    → Replaces p m bs
    → Lineage bs
    → Lineage (replace_or_append p bs)
unfolding first_match replace_or_append
Lineage-replace p m [] h r l = none-some h
Lineage-replace p m (b ∷ bs) h r l = elim (Bool-cases (same_identity b p)) [
  | inl e ↦
      let here =
        subst (λ z. Replaces p z bs) (sym (first_match-here p m b bs e h))
          (Replaces-tail p m b bs r) in
      subst Lineage (sym (replace-here p b bs e))
        (Follows-replaced p b bs here l.0 l.1, subst (λ z. IsFresh z bs) here.alike.task l.1, l.2)
  | inr e ↦
      let there = first_match-there p m b bs e h in
      let rest = Replaces-tail p m b bs r in
      subst Lineage (sym (replace-there p b bs e)) (
        Follows-replace p m b bs there rest l.0,
        IsFresh-replace p m b.task_id bs there r.alike l.1,
        Lineage-replace p m bs there rest l.2,
      )
]

replace-new :
    (p : Binding) (bs : List Binding)
    → first_match p bs ≡ none
    → replace_or_append p bs ≡ bs ++ p ∷ []
unfolding first_match replace_or_append
replace-new p [] = λ h. refl
replace-new p (b ∷ bs) = elim (Bool-cases (same_identity b p)) [
  | inl e ↦ rw (e, first_match) (λ h. none-some (sym h))
  | inr e ↦ rw (e, first_match, replace_or_append) (λ h. ap (λ z. b ∷ z) (replace-new p bs h))
]

last_stopped :
    (b : Binding) (bs : List Binding)
    → all_of is_stopped (b ∷ bs) ≡ true
    → is_stopped (last b bs) ≡ true
unfolding last
last_stopped b [] h = (and-both _ _ h).0
last_stopped b (c ∷ bs) h = last_stopped c bs (and-both _ _ h).1

is_pinned-places :
    (a p : Binding) → is_pinned a p ≡ true → (a.worktree ≡ p.worktree) × (a.branch ≡ p.branch)
is_pinned-places a p = elim (Bool-cases (is_handoff a p)) [
  | inl e ↦ rw e (λ h.
      let (w, b) = and-both _ _ h in
      ((eq_iff a.worktree p.worktree).0 w, (eq_iff a.branch p.branch).0 b))
  | inr e ↦ rw e (λ h.
      let (h, digest) = and-both _ _ h in
      let (h, allowlist) = and-both _ _ h in
      let (h, topology) = and-both _ _ h in
      let (h, b) = and-both _ _ h in
      let (h, w) = and-both _ _ h in
      ((eq_iff a.worktree p.worktree).0 w, (eq_iff a.branch p.branch).0 b))
]

not-true : (b : Bool) → not b ≡ true → b ≡ false
not-true true h = absurd_eq h
not-true false h = refl

is_successor-Lineage :
    (p b : Binding) (bs : List Binding)
    → Lineage (b ∷ bs)
    → is_successor (b ∷ bs) p (latest b bs) ≡ true
    → Lineage ((b ∷ bs) ++ p ∷ [])
unfolding is_successor
is_successor-Lineage p b bs l h =
    let (h, grown) = and-both _ _ h in
    let (h, pinned) = and-both _ _ h in
    let (h, stopped) = and-both _ _ h in
    let (h, newer) = and-both _ _ h in
    let (h, fresh) = and-both _ _ h in
    let (names, other) = and-both _ _ h in
    let (w, g) = is_pinned-places (latest b bs) p pinned in
    let q = latest-Lineage b bs l in
    Lineage-append b p bs l
      (record {
        stopped = last_stopped b bs stopped;
        names = (same_text_iff p.successor_of _).0 names ∙ ap (λ (z : Binding). z.task_id) q;
        newer =
            subst (λ (z : Binding). z.generation < p.generation) q (ltb-path _ p.generation newer);
        same_worktree = ap (λ (z : Binding). z.worktree) (sym q) ∙ w;
        same_branch = ap (λ (z : Binding). z.branch) (sym q) ∙ g;
      })
      (any_of-All _ (b ∷ bs) (not-true _ fresh))

fits_none-Lineage :
    (p : Binding) (bs : List Binding) → Lineage bs → fits_none bs p ≡ true → Lineage (bs ++ p ∷ [])
fits_none-Lineage p [] l h = (tt, tt, tt)
fits_none-Lineage p (b ∷ bs) l h = is_successor-Lineage p b bs l h

-- A row that passes the checks is added to a lineage, or changes a row of it, and a lineage is left.
pub fits-Lineage :
    (p : Binding) (bs : List Binding)
    → Lineage bs
    → fits bs p (first_match p bs) ≡ true
    → Lineage (replace_or_append p bs)
fits-Lineage p bs l h = elim (Option-cases (first_match p bs)) [
  | inl e ↦
      subst Lineage (sym (replace-new p bs e))
        (fits_none-Lineage p bs l (ap (fits bs p) (sym e) ∙ h))
  | inr (m, e) ↦
      Lineage-replace p m bs e
        (may_replace-Replaces bs p m (first_match-same p m bs e) (ap (fits bs p) (sym e) ∙ h)) l
]
