-- ===== src/Registry/Load/Ends.antt =====
-- The walk over the ancestry in `load_task_binding` of vibe_guide/task_registry.py comes to an end.
use vibe_guide_automation.Common.{
  ℕ, zero, suc, ◌≤◌, ◌<◌, String, Bool, true, false, ◌||◌, Option, none, some, List, [], ◌∷◌, keep,
  ◌==◌, contains, length, is_some, ◌≡◌, ◌≢◌, inl, inr, refl, sym, ap, subst, arith, eq_iff,
  Bool-cases, absurd_eq, ◌∈◌, none-some,
}
use vibe_guide_automation.Common.Dict.{Dict, get, keys}
use vibe_guide_automation.Registry.{Binding, Files, same_text, has_role, latest}
use vibe_guide_automation.Registry.Load.{
  by_id, turn, walk, any_recursive, unfinished, outcome, load_from, candidates, load_among,
  load_task_binding,
}

pub unseen : List String → List String → ℕ
unseen seen [] = 0
unseen seen (k ∷ ks) = elim (contains seen k) [
  | true ↦ unseen seen ks
  | false ↦ suc (unseen seen ks)
]

unseen-more : (id : String) (seen ks : List String) → unseen (id ∷ seen) ks ≤ unseen seen ks
unfolding unseen
unseen-more id seen [] = omega arith
unseen-more id seen (k ∷ ks) = ground (arith, unseen-more id seen ks)

unseen-fewer :
    (id : String) (seen ks : List String)
    → contains seen id ≡ false
    → id ∈ ks
    → unseen (id ∷ seen) ks < unseen seen ks
unfolding unseen
unseen-fewer id seen [] n m = absurd_eq m
unseen-fewer id seen (k ∷ ks) n m =
    ground (arith, eq_iff id k, eq_iff k id, unseen-more id seen ks, unseen-fewer id seen ks n)

unseen-keys : (ks : List String) → unseen [] ks ≡ length ks
unfolding unseen
unseen-keys [] = refl
unseen-keys (k ∷ ks) = ap suc (unseen-keys ks)

get-keys : (d : Dict Binding) (id : String) (b : Binding) → get d id ≡ some b → id ∈ keys d
get-keys [] id b h = none-some h
get-keys ((x, v) ∷ d) id b h = ground (arith, eq_iff x id, get-keys d id b)

look_ends :
    (e c : Bool) (g : Option Binding) (k : Binding → Option Bool)
    → ((next : Binding) → c ≡ false → g ≡ some next → is_some (k next) ≡ true)
    → is_some (elim e [
      | true ↦ some false
      | false ↦ elim c [
        | true ↦ some true
        | false ↦ elim g [ none ↦ some false | some next ↦ k next ]
      ]
    ])
      ≡ true
look_ends true c g k f = refl
look_ends false true g k f = refl
look_ends false false none k f = refl
look_ends false false (some next) k f = f next refl refl

seen_before : (a b : Bool) → (a || b) ≡ false → a ≡ false
seen_before true b h = absurd_eq (sym h)
seen_before false b h = refl

room : {a b : ℕ} (n : ℕ) → a < b → b < suc n → a < n
room n h i = omega arith

all_ended :
    (o rest : Option Bool)
    → is_some o ≡ true
    → is_some rest ≡ true
    → is_some (elim o [ none ↦ none | some true ↦ some true | some false ↦ rest ]) ≡ true
all_ended none rest h i = absurd_eq h
all_ended (some true) rest h i = refl
all_ended (some false) rest h i = i

outcome-ends : (b : Binding) (o : Option Bool) → is_some o ≡ true → outcome b o ≢ unfinished
outcome-ends b none h = absurd_eq h
outcome-ends b (some true) h = λ e. cc
outcome-ends b (some false) h = λ e. cc

module _ (d : Dict Binding) where
  turn-ends :
      (n : ℕ) (seen : List String) (cursor : Binding) (o : Option String)
      → ((id : String) (next : Binding)
          → contains seen id ≡ false
          → get d id ≡ some next
          → is_some (walk d n (id ∷ seen) next) ≡ true)
      → is_some (turn (walk d n) d seen cursor o) ≡ true
  turn-ends n seen cursor none f = refl
  turn-ends n seen cursor (some id) f =
      look_ends (id == "") (contains seen id || same_text (some id) cursor.task_id) (get d id)
        (λ next. walk d n (id ∷ seen) next) λ next e g. f id next (seen_before _ _ e) g

  pub walk-ends :
      (n : ℕ) (seen : List String) (cursor : Binding)
      → unseen seen (keys d) < n
      → is_some (walk d n seen cursor) ≡ true
  unfolding walk
  walk-ends zero seen cursor h = absurd (omega arith)
  walk-ends (suc n) seen cursor h = turn-ends n seen cursor cursor.successor_of λ id next e g.
      walk-ends n (id ∷ seen) next
        (room n (unseen-fewer id seen (keys d) e (get-keys d id next g)) h)

  pub any_recursive-ends :
      (n : ℕ) (bs : List Binding) → length (keys d) < n → is_some (any_recursive d n bs) ≡ true
  unfolding any_recursive
  any_recursive-ends n [] h = refl
  any_recursive-ends n (b ∷ bs) h =
      all_ended (walk d n [] b) (any_recursive d n bs)
        (walk-ends n [] b (subst (λ z. z < n) (sym (unseen-keys (keys d))) h))
        (any_recursive-ends n bs h)

load_from-ends : (rows : List Binding) → load_from rows ≢ unfinished
unfolding load_from
load_from-ends [] = λ e. cc
load_from-ends (b ∷ bs) =
    let d = by_id [] (b ∷ bs) in
    outcome-ends (latest b bs) _
      (any_recursive-ends d (suc (length (keys d))) (b ∷ bs) (omega arith))

load_among-ends :
    (issue role : String) (o : Option (List Binding)) → load_among issue role o ≢ unfinished
load_among-ends issue role none = λ e. cc
load_among-ends issue role (some rows) = load_from-ends (keep (has_role issue role) rows)

-- On any registry files, a load comes to a row or an error: the walk over the ancestry of every row,
-- whatever its successors name, ends within one step more than there are task ids.
pub load_task_binding-ends :
    (d : Files) (issue role : String) (run : Option String)
    → load_task_binding d issue role run ≢ unfinished
unfolding load_task_binding
load_task_binding-ends d issue role run =
    elim (Bool-cases (contains ("developer" ∷ "reviewer" ∷ []) role)) [
      | inl e ↦ rw (e, load_task_binding) (load_among-ends issue role (candidates d run))
      | inr e ↦ rw (e, load_task_binding) (λ h. cc)
    ]
