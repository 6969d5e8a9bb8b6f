-- ===== src/Dag/Node.antt =====
-- vibe_guide/models.py `DAGNode`, and the structural checks of vibe_guide/dag.py.
pub mod Index
pub mod Structure
use vibe_guide_automation.Common.{
  ℕ, String, Bool, true, false, not, Option, none, some, List, [], ◌∷◌, ◌++◌, map, length, nat_eq,
  contains, is_empty, if◌then◌else◌,
}
use vibe_guide_automation.Common.Dict.{Dict, put}
use vibe_guide_automation.Json.{Value}
use vibe_guide_automation.Dag.Graph.{Graph, has_cycle}
use vibe_guide_automation.Dag.Contract.{ContractError, contract_error}

-- models._NODE_STATUSES
pub data NodeStatus : Type 0 where
  planned ready running delivered review accepted rework blocked_design blocked_deploy
        blocked_unknown brief_pending :
      NodeStatus

-- The fields of a node that scheduling reads.
pub record Node : Type 0 where
  pub id : String
  pub depends_on : List String
  pub status : NodeStatus
  pub contract : Value

abbrev pub identifiers : List Node → List String
identifiers [] = []
identifiers (n ∷ ns) = n.id ∷ identifiers ns

-- set(xs), as the list of the last occurrences
abbrev pub distinct : List String → List String
distinct [] = []
distinct (x ∷ xs) = if contains xs x then distinct xs else x ∷ distinct xs

pub data DagError : Type 0 where
  duplicate_ids : DagError
  unknown_dependencies : String → List String → DagError
  cycle : DagError
  contract : String → ContractError → DagError

-- [dependency for dependency in node.depends_on if dependency not in node_ids]
pub missing_dependencies : List String → List String → List String
missing_dependencies ids [] = []
missing_dependencies ids (d ∷ ds) =
    if contains ids d then missing_dependencies ids ds else d ∷ missing_dependencies ids ds

abbrev unknown_error : String → List String → List DagError
unknown_error id [] = []
unknown_error id (d ∷ ds) = unknown_dependencies id (d ∷ ds) ∷ []

pub unknown_errors : List String → List Node → List DagError
unknown_errors ids [] = []
unknown_errors ids (n ∷ ns) =
    unknown_error n.id (missing_dependencies ids n.depends_on) ++ unknown_errors ids ns

-- for node in nodes: d[node.id] = f(node)
abbrev pub index {ℓ} : {V : Type ℓ} → (Node → V) → Dict V → List Node → Dict V
index f d [] = d
index f d (n ∷ ns) = index f (put d n.id (f n)) ns

-- the dict `graph`
abbrev pub graph_of : List Node → Graph
graph_of = index (λ n. n.depends_on) []

-- {node.id: node for node in nodes}
abbrev pub by_id : List Node → Dict Node
by_id = index (λ n. n) []

unfoldable pub structural_errors : List Node → List DagError
unfolding unknown_errors missing_dependencies
structural_errors nodes =
    (if nat_eq (length (identifiers nodes)) (length (distinct (identifiers nodes)))
      then []
      else duplicate_ids ∷ [])
    ++ (unknown_errors (identifiers nodes) nodes
        ++ (if has_cycle (graph_of nodes) then cycle ∷ [] else []))

pub contract_errors : List Node → List DagError
contract_errors [] = []
contract_errors (n ∷ ns) = elim (contract_error n.contract) [
  | none ↦ contract_errors ns
  | some e ↦ contract n.id e ∷ contract_errors ns
]

-- `validate_dag`: `valid` is `not errors`.
unfoldable pub validate_dag : List Node → Bool × List DagError
unfolding structural_errors contract_errors
validate_dag nodes =
    let errors = structural_errors nodes ++ contract_errors nodes in (is_empty errors, errors)
