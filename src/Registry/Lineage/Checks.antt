-- ===== src/Registry/Lineage/Checks.antt =====
-- What the checks of a row that `save_task_binding` replaces say of the other rows of its role.
use vibe_guide_automation.Common.{
  ℕ, ◌≤◌, ◌<◌, Bool, true, false, not, ◌&&◌, ◌||◌, some, List, [], ◌∷◌, ◌≡◌, ◌⊎◌, inl, inr, refl,
  sym, ◌∙◌, subst, leb, ltb, nat_eq, any_of, All, arith, Bool-cases, some-inj, absurd_eq, and-both,
}
use vibe_guide_automation.Registry.{
  Binding, same_text, same_identity, is_stopped, first_match, may_replace, replace_or_append,
}
use vibe_guide_automation.Registry.Lineage.{
  same_text_iff, Alike, same_identity-Alike, any_of-All, All-map,
}

-- What the checks of a replaced row say of another row.
pub record Yields (p m x : Binding) : Type 0 where
  pub frozen : x.successor_of ≡ m.task_id → p.generation ≡ m.generation
  pub retired :
      same_text x.task_id p.task_id ≡ false → p.generation < x.generation → is_stopped p ≡ true

pub record Replaces (p m : Binding) (xs : List Binding) : Type 0 where
  pub alike : Alike m p
  pub ancestry : m.successor_of ≡ p.successor_of
  pub newer : m.generation ≤ p.generation
  pub others : All (Yields p m) xs

-- A check that either no row has `f` or `b` holds.
unless :
    {A : Type 0} (f : A → Bool) (b : Bool) (xs : List A)
    → (any_of f xs ≡ false) ⊎ (b ≡ true)
    → All (λ x. f x ≡ true → b ≡ true) xs
unless f b xs (inl h) = All-map xs (λ x e i. absurd_eq (sym e ∙ i)) (any_of-All f xs h)
unless f b [] (inr h) = tt
unless f b (x ∷ xs) (inr h) = (λ i. h, unless f b xs (inr h))

not-or : (a b : Bool) → (not a || b) ≡ true → (a ≡ false) ⊎ (b ≡ true)
not-or true b h = inr h
not-or false b h = inl refl

or-not : (a b : Bool) → (b || not a) ≡ true → (a ≡ false) ⊎ (b ≡ true)
or-not a true h = inr refl
or-not true false h = absurd_eq h
or-not false false h = inl refl

nat_eq-path : (a b : ℕ) → nat_eq a b ≡ true → a ≡ b
nat_eq-path a b h = ground arith

leb-path : (a b : ℕ) → leb a b ≡ true → a ≤ b
leb-path a b h = ground arith

ltb-of : (a b : ℕ) → a < b → ltb a b ≡ true
ltb-of a b h = ground arith

pub ltb-path : (a b : ℕ) → ltb a b ≡ true → a < b
ltb-path a b h = ground arith

All-zip {ℓ κ μ ν} :
    {A : Type ℓ} {P : A → Type κ} {Q : A → Type μ} {R : A → Type ν} (xs : List A)
    → ((x : A) → P x → Q x → R x)
    → All P xs
    → All Q xs
    → All R xs
All-zip [] f h i = tt
All-zip (x ∷ xs) f h i = (f x h.0 i.0, All-zip xs f h.1 i.1)

blocked : (a b c : Bool) → a ≡ false → b ≡ true → (not a && (b || c)) ≡ true
blocked a b c h i = ground arith

pub may_replace-Replaces :
    (same : List Binding) (p m : Binding)
    → same_identity m p ≡ true
    → may_replace same p m ≡ true
    → Replaces p m same
unfolding may_replace
may_replace-Replaces same p m e h =
    let (h, live) = and-both _ _ h in
    let (h, frozen) = and-both _ _ h in
    let (h, newer) = and-both _ _ h in
    let (ancestry, handoff) = and-both _ _ h in
    record {
      alike = same_identity-Alike m p e;
      ancestry = (same_text_iff m.successor_of p.successor_of).0 ancestry;
      newer = leb-path m.generation p.generation newer;
      others =
          All-zip same
            (λ x f r. record {
              frozen = λ q.
                  nat_eq-path p.generation m.generation
                    (f ((same_text_iff x.successor_of m.task_id).1 q));
              retired = λ d n. r (blocked _ _ _ d (ltb-of p.generation x.generation n));
            })
            (unless _ _ same (not-or _ _ frozen)) (unless _ _ same (or-not _ _ live));
    }

pub first_match-same :
    (p m : Binding) (bs : List Binding) → first_match p bs ≡ some m → same_identity m p ≡ true
unfolding first_match
first_match-same p m [] = λ h. cc
first_match-same p m (b ∷ bs) = elim (Bool-cases (same_identity b p)) [
  | inl e ↦ rw (e, first_match) (λ h. subst (λ z. same_identity z p ≡ true) (some-inj h) e)
  | inr e ↦ rw (e, first_match) (first_match-same p m bs)
]

pub first_match-here :
    (p m b : Binding) (bs : List Binding)
    → same_identity b p ≡ true
    → first_match p (b ∷ bs) ≡ some m
    → b ≡ m
unfolding first_match
first_match-here p m b bs e = rw (e, first_match) (λ h. some-inj h)

pub first_match-there :
    (p m b : Binding) (bs : List Binding)
    → same_identity b p ≡ false
    → first_match p (b ∷ bs) ≡ some m
    → first_match p bs ≡ some m
unfolding first_match
first_match-there p m b bs e = rw (e, first_match) (λ h. h)

pub replace-here :
    (p b : Binding) (bs : List Binding)
    → same_identity b p ≡ true
    → replace_or_append p (b ∷ bs) ≡ p ∷ bs
unfolding replace_or_append
replace-here p b bs e = rw e refl

pub replace-there :
    (p b : Binding) (bs : List Binding)
    → same_identity b p ≡ false
    → replace_or_append p (b ∷ bs) ≡ b ∷ replace_or_append p bs
unfolding replace_or_append
replace-there p b bs e = rw e refl
