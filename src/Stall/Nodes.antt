-- ===== src/Stall/Nodes.antt =====
-- Each node of a run on its own, for `assess_stalls` of vibe_guide/stall.py.
use mathlib.Core.Option
use vibe_guide_automation.Common.{
  ℕ, String, true, false, not, Option, none, some, List, [], ◌∷◌, ◌≡◌, refl, sym, ◌∙◌, ◌==◌, arith,
  eq_iff, eq_refl, or_else, Bool-cases, Option-cases, contains, inl, inr, is_some, subst, some-inj,
}
use vibe_guide_automation.Common.Dict.{Dict, get, put, get-put}
use vibe_guide_automation.Json.{Value, Members, object}
use vibe_guide_automation.Stall.{
  Entry, Result, open_nodes, assess_node, assess_all, result_of, assess_stalls,
  count_self_heal_attempts, is_text, field,
}

-- The node of that id that is assessed, if any.
abbrev pub find_open : List (String × Value) → String → Option Members
find_open nodes id = get (open_nodes nodes) id

abbrev pub ids : List (String × Members) → List String
ids [] = []
ids ((id, m) ∷ nodes) = id ∷ ids nodes

-- The ids of a mapping are distinct.
abbrev pub AreDistinct : List String → Type 0
AreDistinct [] = Unit
AreDistinct (x ∷ xs) = (contains xs x ≡ false) × AreDistinct xs

pub get-first :
    (x id : String) (n : Members) (nodes : List (String × Members))
    → (x == id) ≡ true
    → get ((x, n) ∷ nodes) id ≡ some n
get-first x id n nodes y = ground arith

pub get-later :
    (x id : String) (n : Members) (nodes : List (String × Members))
    → (x == id) ≡ false
    → get ((x, n) ∷ nodes) id ≡ get nodes id
get-later x id n nodes y = ground arith

module _ (digest : Value → String) (tasks : Option Members) (attempts : Dict ℕ)
    (previous : Option (Dict Entry)) (liveness : Dict String) where
  abbrev pub both_of : String → Members → Entry × Result
  both_of id m =
      let e = assess_node digest tasks attempts previous liveness id m in
      (e, result_of (not (is_some previous)) e (or_else (get attempts id) 0))

  assess_all-kept :
      (nodes : List (String × Members)) (es : Dict Entry) (rs : Dict Result) (id : String)
      → contains (ids nodes) id ≡ false
      → (get (assess_all digest tasks attempts previous liveness nodes es rs).0 id ≡ get es id)
        × (get (assess_all digest tasks attempts previous liveness nodes es rs).1 id ≡ get rs id)
  assess_all-kept [] es rs id n = (refl, refl)
  assess_all-kept ((x, m) ∷ nodes) es rs id n =
      let (e, r) = both_of x m in
      let (h, k) = assess_all-kept nodes (put es x e) (put rs x r) id (ground arith) in
      let y : (x == id) ≡ false = ground arith in
      (h ∙ rw (get-put x e es id, y) refl, k ∙ rw (get-put x r rs id, y) refl)

  -- What the loop over (x, n) and the rest leaves at an id.
  abbrev IsAssessed :
      String
      → Members
      → List (String × Members)
      → Dict Entry
      → Dict Result
      → String
      → Members
      → Type 0
  IsAssessed x n nodes es rs id m =
      let p = assess_all digest tasks attempts previous liveness ((x, n) ∷ nodes) es rs in
      (get p.0 id ≡ some (both_of id m).0) × (get p.1 id ≡ some (both_of id m).1)

  assess_all-first :
      (x : String) (n : Members) (nodes : List (String × Members)) (es : Dict Entry)
      (rs : Dict Result)
      → contains (ids nodes) x ≡ false
      → IsAssessed x n nodes es rs x n
  assess_all-first x n nodes es rs d =
      let (e, r) = both_of x n in
      let (h, k) = assess_all-kept nodes (put es x e) (put rs x r) x d in
      (h ∙ rw (get-put x e es x, eq_refl x) refl, k ∙ rw (get-put x r rs x, eq_refl x) refl)

  assess_all-get :
      (nodes : List (String × Members)) (es : Dict Entry) (rs : Dict Result) (id : String)
      (m : Members)
      → AreDistinct (ids nodes)
      → get nodes id ≡ some m
      → (get (assess_all digest tasks attempts previous liveness nodes es rs).0 id
          ≡ some (both_of id m).0)
        × (get (assess_all digest tasks attempts previous liveness nodes es rs).1 id
            ≡ some (both_of id m).1)
  assess_all-get [] es rs id m d g = absurd (ground arith)
  assess_all-get ((x, n) ∷ nodes) es rs id m (d, ds) g = elim (Bool-cases (x == id)) [
    | inl y ↦
        subst (IsAssessed x n nodes es rs id) (some-inj (sym (get-first x id n nodes y) ∙ g)) (
          subst (λ z. IsAssessed x n nodes es rs z n) ((eq_iff x id).0 y)
            (assess_all-first x n nodes es rs d))
    | inr y ↦ assess_all-get nodes _ _ id m ds (sym (get-later x id n nodes y) ∙ g)
  ]

abbrev pub keys_of : List (String × Value) → List String
keys_of [] = []
keys_of ((id, v) ∷ nodes) = id ∷ keys_of nodes

pub ids-open_nodes :
    (nodes : List (String × Value)) (id : String)
    → contains (keys_of nodes) id ≡ false
    → contains (ids (open_nodes nodes)) id ≡ false
ids-open_nodes [] id n = refl
ids-open_nodes ((x, object m) ∷ nodes) id n = ground (arith, ids-open_nodes nodes id)
ids-open_nodes ((x, v) ∷ nodes) id n = ground (arith, ids-open_nodes nodes id)

open_nodes-AreDistinct :
    (nodes : List (String × Value))
    → AreDistinct (keys_of nodes)
    → AreDistinct (ids (open_nodes nodes))
open_nodes-AreDistinct [] d = tt
open_nodes-AreDistinct ((x, object m) ∷ nodes) (d, ds) =
    elim (Bool-cases (is_text (field m "status") "accepted")) [
      | inl y ↦ rw y (open_nodes-AreDistinct nodes ds)
      | inr y ↦ rw y (ids-open_nodes nodes x d, open_nodes-AreDistinct nodes ds)
    ]
open_nodes-AreDistinct ((x, v) ∷ nodes) (d, ds) = open_nodes-AreDistinct nodes ds

get-none :
    (nodes : List (String × Members)) (id : String)
    → get nodes id ≡ none
    → contains (ids nodes) id ≡ false
get-none [] id g = refl
get-none ((x, n) ∷ nodes) id g = ground (arith, get-none nodes id)

-- Both dictionaries at an id, from the open node of that id.
pub assess_stalls-open :
    (digest : Value → String) (nodes : List (String × Value)) (tasks : Option Members)
    (events : List Value) (previous : Option (Dict Entry)) (liveness : Dict String) (id : String)
    → AreDistinct (keys_of nodes)
    → let a = assess_stalls digest nodes tasks events previous liveness in
      let one = both_of digest tasks (count_self_heal_attempts events) previous liveness id in
      (get a.entries id ≡ Option.map (λ m. (one m).0) (get (open_nodes nodes) id))
      × (get a.results id ≡ Option.map (λ m. (one m).1) (get (open_nodes nodes) id))
unfolding assess_stalls
assess_stalls-open digest nodes tasks events previous liveness id d =
    elim (Option-cases (get (open_nodes nodes) id)) [
      | inl e ↦ rw e (
          assess_all-kept digest tasks (count_self_heal_attempts events) previous liveness
            (open_nodes nodes) [] [] id (get-none (open_nodes nodes) id e))
      | inr (m, e) ↦ rw e (
          assess_all-get digest tasks (count_self_heal_attempts events) previous liveness
            (open_nodes nodes) [] [] id m (open_nodes-AreDistinct nodes d) e)
    ]
