-- ===== src/Stall/Count.antt =====
-- The counts of `count_self_heal_attempts` in vibe_guide/stall.py.
use vibe_guide_automation.Common.{
  ℕ, suc, ◌+◌, String, Bool, false, Option, none, some, List, [], ◌∷◌, ◌≡◌, refl, ap, ◌∙◌, ◌==◌,
  arith, eq_iff, or_else, if◌then◌else◌, Bool-cases, inl, inr,
}
use vibe_guide_automation.Common.Dict.{Dict, get, get-put}
use vibe_guide_automation.Json.{Value}
use vibe_guide_automation.Stall.{healed, count_one, count_from, count_self_heal_attempts}

-- The events that name a node.
abbrev pub is_named : String → Option String → Bool
is_named id none = false
is_named id (some x) = x == id

abbrev pub times_healed : String → List Value → ℕ
times_healed id [] = 0
times_healed id (e ∷ events) =
    let rest = times_healed id events in if is_named id (healed e) then suc rest else rest

count_one-get :
    (o : Option String) (counts : Dict ℕ) (id : String)
    → or_else (get (count_one o counts) id) 0
      ≡ (if is_named id o then or_else (get counts id) 0 + 1 else or_else (get counts id) 0)
count_one-get none counts id = refl
count_one-get (some x) counts id = elim (Bool-cases (x == id)) [
  | inl e ↦
      rw (get-put x (or_else (get counts x) 0 + 1) counts id, e)
        (ap (λ z. or_else (get counts z) 0 + 1) ((eq_iff x id).0 e))
  | inr e ↦ rw (get-put x (or_else (get counts x) 0 + 1) counts id, e) refl
]

count_from-get :
    (counts : Dict ℕ) (events : List Value) (id : String)
    → or_else (get (count_from counts events) id) 0
      ≡ or_else (get counts id) 0 + times_healed id events
count_from-get counts [] id = omega arith
count_from-get counts (e ∷ events) id =
    let h = count_from-get (count_one (healed e) counts) events id in
    let g = count_one-get (healed e) counts id in ground arith

-- The count of a node is the number of its self-heal events.
pub count_self_heal_attempts-get :
    (events : List Value) (id : String)
    → or_else (get (count_self_heal_attempts events) id) 0 ≡ times_healed id events
unfolding count_self_heal_attempts
count_self_heal_attempts-get events id = count_from-get [] events id ∙ omega arith
