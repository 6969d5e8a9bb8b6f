-- ===== src/Registry/Load/Ancestry.antt =====
-- The ancestry that `load_task_binding` of vibe_guide/task_registry.py walks over, and what it means
-- that it returns to itself.
use vibe_guide_automation.Common.{
  ℕ, zero, suc, String, Bool, true, false, ◌||◌, Option, none, some, List, [], ◌∷◌, ◌==◌, contains,
  ◌≡◌, ◌≢◌, ◌⊎◌, inl, inr, refl, sym, ap, ◌∙◌, subst, Bool-cases, Option-cases, absurd_eq,
  none-some, some-inj, eq_iff, arith,
}
use mathlib.Core.List.{Memᴰ}
use vibe_guide_automation.Common.Dict.{Dict, get}
use vibe_guide_automation.Registry.{Binding, same_text}
use vibe_guide_automation.Registry.Lineage.{same_text_iff}
use vibe_guide_automation.Registry.Load.{turn, walk, any_recursive}

module _ (d : Dict Binding) where
  -- From the row `b`, with the task ids `passed` named on the way to it, the ancestry comes to a task
  -- that was named before, or to a row that names itself.
  pub data Returns : List String → Binding → Type 0 where
    again :
        {passed : List String} {b : Binding} (id : String)
        → b.successor_of ≡ some id
        → id ≢ ""
        → (contains passed id ≡ true) ⊎ (b.task_id ≡ some id)
        → Returns passed b
    onward :
        {passed : List String} {b : Binding} (id : String) (next : Binding)
        → b.successor_of ≡ some id
        → id ≢ ""
        → get d id ≡ some next
        → Returns (id ∷ passed) next
        → Returns passed b

  -- What an answer of the walk says.
  abbrev Says : List String → Binding → Option Bool → Type 0
  Says passed b none = Unit
  Says passed b (some true) = Returns passed b
  Says passed b (some false) = Returns passed b → ⊥

  not_empty : (id : String) → (id == "") ≡ false → id ≢ ""
  not_empty id n e = absurd_eq (sym n ∙ (eq_iff id "").1 e)

  back :
      (passed : List String) (id : String) (task : Option String)
      → (contains passed id || same_text (some id) task) ≡ true
      → (contains passed id ≡ true) ⊎ (task ≡ some id)
  back passed id task h = elim (Bool-cases (contains passed id)) [
    | inl e ↦ inl e
    | inr e ↦
        let y : same_text (some id) task ≡ true = ground arith in
        inr (sym ((same_text_iff (some id) task).0 y))
  ]

  no_back :
      (passed : List String) (id : String) (task : Option String)
      → (contains passed id || same_text (some id) task) ≡ false
      → (contains passed id ≡ true) ⊎ (task ≡ some id)
      → ⊥
  no_back passed id task h (inl e) = ground arith
  no_back passed id task h (inr e) =
      let y : same_text (some id) task ≡ true = (same_text_iff (some id) task).1 (sym e) in
      ground arith

  none-Says : (passed : List String) (b : Binding) → b.successor_of ≡ none → Returns passed b → ⊥
  none-Says passed b e (again id h n m) = none-some (sym e ∙ h)
  none-Says passed b e (onward id next h n g r) = none-some (sym e ∙ h)

  empty-Says :
      (passed : List String) (b : Binding) (id : String)
      → b.successor_of ≡ some id
      → id ≡ ""
      → Returns passed b
      → ⊥
  empty-Says passed b id e z (again x h n m) = n (some-inj (sym h ∙ e) ∙ z)
  empty-Says passed b id e z (onward x next h n g r) = n (some-inj (sym h ∙ e) ∙ z)

  end-Says :
      (passed : List String) (b : Binding) (id : String)
      → b.successor_of ≡ some id
      → (contains passed id || same_text (some id) b.task_id) ≡ false
      → get d id ≡ none
      → Returns passed b
      → ⊥
  end-Says passed b id e k g (again x h n m) =
      no_back passed id b.task_id k
        (subst (λ z. (contains passed z ≡ true) ⊎ (b.task_id ≡ some z)) (some-inj (sym h ∙ e)) m)
  end-Says passed b id e k g (onward x next h n f r) =
      none-some (sym g ∙ ap (get d) (some-inj (sym e ∙ h)) ∙ f)

  onward-Says :
      (passed : List String) (b : Binding) (id : String) (next : Binding) (o : Option Bool)
      → b.successor_of ≡ some id
      → id ≢ ""
      → (contains passed id || same_text (some id) b.task_id) ≡ false
      → get d id ≡ some next
      → Says (id ∷ passed) next o
      → Says passed b o
  onward-Says passed b id next none e n k g s = tt
  onward-Says passed b id next (some true) e n k g s = onward id next e n g s
  onward-Says passed b id next (some false) e n k g s = stays
    where
      stays : Returns passed b → ⊥
      stays (again x h n' m) =
          no_back passed id b.task_id k (
            subst (λ z. (contains passed z ≡ true) ⊎ (b.task_id ≡ some z)) (some-inj (sym h ∙ e)) m)
      stays (onward x y h n' f r) =
          let q : x ≡ id = some-inj (sym h ∙ e) in
          let i : y ≡ next = some-inj (sym f ∙ ap (get d) q ∙ g) in
          s (subst (λ z. Returns (z ∷ passed) next) q (subst (Returns (x ∷ passed)) i r))

  turn-Says :
      (call : List String → Binding → Option Bool)
      → ((passed : List String) (b : Binding) → Says passed b (call passed b))
      → (passed : List String) (b : Binding) (o : Option String) → b.successor_of ≡ o
      → Says passed b (turn call d passed b o)
  turn-Says call f passed b none e = none-Says passed b e
  turn-Says call f passed b (some id) e = elim (Bool-cases (id == "")) [
    | inl z ↦ rw (z, Says) (empty-Says passed b id e ((eq_iff id "").0 z))
    | inr z ↦ elim (Bool-cases (contains passed id || same_text (some id) b.task_id)) [
      | inl k ↦ rw (z, k, Says) (again id e (not_empty id z) (back passed id b.task_id k))
      | inr k ↦ elim (Option-cases (get d id)) [
        | inl g ↦ rw (z, k, g, Says) (end-Says passed b id e k g)
        | inr (next, g) ↦
            rw (z, k, g, Says)
              (onward-Says passed b id next (call (id ∷ passed) next) e (not_empty id z) k g
                (f (id ∷ passed) next))
      ]
    ]
  ]

  walk-Says : (n : ℕ) (passed : List String) (b : Binding) → Says passed b (walk d n passed b)
  unfolding walk
  walk-Says zero passed b = tt
  walk-Says (suc n) passed b = turn-Says (walk d n) (walk-Says n) passed b b.successor_of refl

  -- The ancestry of some row among these returns to itself.
  abbrev pub AnyReturns : List Binding → Type 0
  AnyReturns bs = (b : Binding) × Memᴰ b bs × Returns [] b

  abbrev pub SaysAny : List Binding → Option Bool → Type 0
  SaysAny bs none = Unit
  SaysAny bs (some true) = AnyReturns bs
  SaysAny bs (some false) = AnyReturns bs → ⊥

  row-SaysAny :
      (b : Binding) (bs : List Binding) (o r : Option Bool)
      → Says [] b o
      → SaysAny bs r
      → SaysAny (b ∷ bs) (elim o [ none ↦ none | some true ↦ some true | some false ↦ r ])
  row-SaysAny b bs none r s t = tt
  row-SaysAny b bs (some true) r s t = (b, Memᴰ.head refl, s)
  row-SaysAny b bs (some false) none s t = tt
  row-SaysAny b bs (some false) (some true) s (c, m, x) = (c, Memᴰ.tail m, x)
  row-SaysAny b bs (some false) (some false) s t =
      λ (c, m, x). elim m [ Memᴰ.head e ↦ s (subst (Returns []) e x) | Memᴰ.tail m ↦ t (c, m, x) ]

  pub any_recursive-Says : (n : ℕ) (bs : List Binding) → SaysAny bs (any_recursive d n bs)
  unfolding any_recursive
  any_recursive-Says n [] = λ (b, m, r). elim m [ ]
  any_recursive-Says n (b ∷ bs) =
      row-SaysAny b bs (walk d n [] b) (any_recursive d n bs) (walk-Says n [] b)
        (any_recursive-Says n bs)
