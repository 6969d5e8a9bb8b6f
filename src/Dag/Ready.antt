-- ===== src/Dag/Ready.antt =====
-- `ready_nodes` of vibe_guide/dag.py.
use vibe_guide_automation.Common.{
  String, Bool, true, false, ◌&&◌, ◌||◌, Option, none, some, List, [], ◌∷◌, is_empty, if◌then◌else◌,
  is_some,
}
use vibe_guide_automation.Common.Dict.{Dict, get}
use vibe_guide_automation.Dag.Contract.{contract_error}
use vibe_guide_automation.Dag.Node.{
  NodeStatus, planned, ready, accepted, Node, by_id, structural_errors,
}
pub mod Select
pub mod Progress

abbrev pub is_accepted : NodeStatus → Bool
is_accepted accepted = true
is_accepted _ = false

-- node.status in ("planned", "ready")
abbrev pub is_waiting : NodeStatus → Bool
is_waiting planned = true
is_waiting ready = true
is_waiting _ = false

-- all(by_id[dependency].status == "accepted" for dependency in depends_on); `none` is the KeyError
-- of a dependency that is no key.
pub all_accepted : Dict Node → List String → Option Bool
all_accepted d [] = some true
all_accepted d (k ∷ ks) = elim (get d k) [
  | none ↦ none
  | some n ↦ elim (is_accepted n.status) [ true ↦ all_accepted d ks | false ↦ some false ]
]

-- The two tests with `continue`.
abbrev pub is_skipped : Node → Bool
is_skipped n = elim (is_waiting n.status) [
  | false ↦ true
  | true ↦ is_some (contract_error n.contract)
]

-- ready.append(node), after the test of the dependencies
abbrev pub append_if : Node → Option Bool → Option (List Node) → Option (List Node)
append_if n none rest = none
append_if n (some b) none = none
append_if n (some true) (some ns) = some (n ∷ ns)
append_if n (some false) (some ns) = some ns

-- The loop over the nodes.
pub collect_ready : Dict Node → List Node → Option (List Node)
unfolding all_accepted
collect_ready d [] = some []
collect_ready d (n ∷ ns) = elim (is_skipped n) [
  | true ↦ collect_ready d ns
  | false ↦ append_if n (all_accepted d n.depends_on) (collect_ready d ns)
]

unfoldable pub ready_nodes : List Node → Option (List Node)
unfolding collect_ready
ready_nodes nodes =
    if is_empty (structural_errors nodes) then collect_ready (by_id nodes) nodes else some []
