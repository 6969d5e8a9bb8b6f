-- ===== src/Dag/Graph.antt =====
-- The cycle search of `_structural_errors` in vibe_guide/dag.py. The dict `graph` maps a node's id
-- to its dependencies; the sets `visiting` and `visited` are lists.
pub mod Settle
pub mod Cycles
use vibe_guide_automation.Common.{
  ℕ, zero, suc, String, Bool, true, false, List, [], ◌∷◌, if◌then◌else◌, ◌==◌, contains, ◌∈◌,
  or_else, length,
}
use vibe_guide_automation.Common.Dict.{Dict, get, keys}

abbrev pub Graph : Type 0
Graph = Dict (List String)

-- graph.get(node_id, [])
abbrev pub deps : Graph → String → List String
deps g v = or_else (get g v) []

pub record Marks : Type 0 where
  pub visiting : List String
  pub visited : List String

-- visiting.remove(v)
abbrev pub remove : String → List String → List String
remove v [] = []
remove v (x ∷ xs) = if x == v then xs else x ∷ remove v xs

-- The `for dependency in graph.get(node_id, [])` loop; `call` is the recursive `visit`.
pub visit_all : (String → Marks → Bool × Marks) → Graph → List String → Marks → Bool × Marks
visit_all call g [] m = (false, m)
visit_all call g (d ∷ ds) m = elim (contains (keys g) d) [
  | false ↦ visit_all call g ds m
  | true ↦ let r = call d m in elim r.0 [ true ↦ r | false ↦ visit_all call g ds r.1 ]
]

-- After the loop: a cycle returns at once, else the node moves from `visiting` to `visited`.
pub leave : String → Bool × Marks → Bool × Marks
leave v (true, m) = (true, m)
leave v (false, m) = (false, record { visiting = remove v m.visiting; visited = v ∷ m.visited })

-- `visit`. Fuel bounds the depth of the calls; running out of it would read as a cycle.
pub visit : Graph → ℕ → String → Marks → Bool × Marks
unfolding visit_all leave
visit g zero v m = (true, m)
visit g (suc n) v m = elim (contains m.visiting v) [
  | true ↦ (true, m)
  | false ↦ elim (contains m.visited v) [
    | true ↦ (false, m)
    | false ↦ leave v (visit_all (visit g n) g (deps g v) (record m { visiting = v ∷ m.visiting }))
  ]
]

-- `any(visit(node_id) for node_id in graph if node_id not in visited)`
pub search_from : Graph → ℕ → List String → Marks → Bool
search_from g fuel [] m = false
search_from g fuel (k ∷ ks) m = elim (contains m.visited k) [
  | true ↦ search_from g fuel ks m
  | false ↦ let r = visit g fuel k m in elim r.0 [ true ↦ true | false ↦ search_from g fuel ks r.1 ]
]

abbrev pub start : Marks
start = record { visiting = []; visited = [] }

unfoldable pub has_cycle : Graph → Bool
unfolding search_from visit
has_cycle g = search_from g (suc (length (keys g))) (keys g) start
