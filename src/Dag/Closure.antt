-- ===== src/Dag/Closure.antt =====
-- `dependency_closure` of vibe_guide/dag.py: the nodes that blocked nodes hold back.
pub mod Rounds
pub mod Exact
use vibe_guide_automation.Common.{
  ℕ, zero, suc, String, Bool, true, false, List, [], ◌∷◌, contains, any_of, keep, length,
}
use vibe_guide_automation.Common.Dict.{keys}
use vibe_guide_automation.Dag.Node.{Node, by_id}

-- The `for` loop of one round: the new `changed` and `closure`.
pub grow : List Node → Bool × List String → Bool × List String
grow [] s = s
grow (n ∷ ns) s = elim (contains s.1 n.id) [
  | true ↦ grow ns s
  | false ↦ elim (any_of (contains s.1) n.depends_on) [
    | true ↦ grow ns (true, n.id ∷ s.1)
    | false ↦ grow ns s
  ]
]

-- `while changed`. Every round but the last adds a node, so one round more than there are nodes
-- is enough fuel.
pub rounds : ℕ → List Node → List String → List String
unfolding grow
rounds zero ns c = c
rounds (suc fuel) ns c =
    let s = grow ns (false, c) in elim s.0 [ true ↦ rounds fuel ns s.1 | false ↦ s.1 ]

unfoldable pub dependency_closure : List Node → List String → List String
unfolding rounds
dependency_closure nodes blocked =
    rounds (suc (length nodes)) nodes (keep (contains (keys (by_id nodes))) blocked)
