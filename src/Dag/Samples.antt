-- ===== src/Dag/Samples.antt =====
-- A small plan with four nodes, and the theorems about vibe_guide/dag.py at it.
use mathlib.Core.List.{Memᴰ}
use vibe_guide_automation.Common.{
  String, true, none, some, List, [], ◌∷◌, ◌≡◌, ◌≢◌, refl, ◌∈◌, ◌↔◌, keep, inl, inr, ◌⊎◌, All-mem,
}
use vibe_guide_automation.Json.{Value, text, object, no_member, member}
use vibe_guide_automation.Dag.Contract.{contract_error}
use vibe_guide_automation.Dag.Graph.{Graph, has_cycle}
use vibe_guide_automation.Dag.Graph.Cycles.{Cycle, has_cycle_iff}
use vibe_guide_automation.Dag.Node.{
  NodeStatus, planned, accepted, Node, identifiers, structural_errors,
}
use vibe_guide_automation.Dag.Node.Structure.{IsWellFormed, structural_errors_iff}
use vibe_guide_automation.Dag.Ready.{is_waiting, ready_nodes}
use vibe_guide_automation.Dag.Ready.Select.{IsReady, ready_nodes_iff}
use vibe_guide_automation.Dag.Ready.Progress.{IsStartable, ready_nodes-progress}
use vibe_guide_automation.Dag.Closure.{dependency_closure}
use vibe_guide_automation.Dag.Closure.Exact.{Descends, dependency_closure_iff}
use vibe_guide_automation.Dag.Scoped.{node_scoped_ready}
use vibe_guide_automation.Dag.Scoped.Isolation.{is_free, node_scoped_ready-eq}

abbrev contract : Value
contract = object (
    member "input" (text "a") (
      member "output" (text "b")
        (member "errors" (text "c") (member "acceptance_examples" (text "d") no_member))))

abbrev node : String → List String → NodeStatus → Node
node id depends_on status = record {
  id = id;
  depends_on = depends_on;
  status = status;
  contract = contract;
}

-- a is accepted; b and c wait for it; d waits for both.
abbrev plan : List Node
plan =
    node "a" [] accepted
    ∷ node "b" ("a" ∷ []) planned
    ∷ node "c" ("a" ∷ []) planned
    ∷ node "d" ("b" ∷ "c" ∷ []) planned
    ∷ []

abbrev knot : Graph
knot = ("a", "b" ∷ []) ∷ ("b", "c" ∷ "a" ∷ []) ∷ ("c", []) ∷ []

contract-in_order : contract_error contract ≡ none
unfolding contract_error
contract-in_order = refl

plan-no_errors : structural_errors plan ≡ []
unfolding structural_errors has_cycle
plan-no_errors = refl

plan-IsWellFormed : IsWellFormed plan
plan-IsWellFormed = (structural_errors_iff plan).0 plan-no_errors

plan-ready :
    ready_nodes plan ≡ some (node "b" ("a" ∷ []) planned ∷ node "c" ("a" ∷ []) planned ∷ [])
unfolding ready_nodes structural_errors has_cycle contract_error
plan-ready = refl

plan-closure : dependency_closure plan ("b" ∷ "x" ∷ []) ≡ "d" ∷ "b" ∷ []
unfolding dependency_closure
plan-closure = refl

plan-scoped : node_scoped_ready (λ _. []) plan ("b" ∷ []) ≡ "c" ∷ []
unfolding node_scoped_ready structural_errors has_cycle contract_error dependency_closure
plan-scoped = refl

duplicate_reported : structural_errors (node "a" [] planned ∷ node "a" [] planned ∷ []) ≢ []
unfolding structural_errors has_cycle
duplicate_reported h = cc

has_cycle_iff_example : (has_cycle knot ≡ true) ↔ Cycle knot
has_cycle_iff_example = has_cycle_iff knot

structural_errors_iff_example : (structural_errors plan ≡ []) ↔ IsWellFormed plan
structural_errors_iff_example = structural_errors_iff plan

ready_nodes_iff_example :
    (r : List Node) × (ready_nodes plan ≡ some r) × ((n : Node) → Memᴰ n r ↔ IsReady plan n)
ready_nodes_iff_example = ready_nodes_iff plan plan-IsWellFormed

plan-IsStartable : IsStartable plan
unfolding contract_error
plan-IsStartable = record {
  well_formed = plan-IsWellFormed;
  phase =
      All-mem (λ n. (is_waiting n.status ≡ true) ⊎ (n.status ≡ accepted)) plan
        (inr refl, (inl refl, (inl refl, (inl refl, tt))));
  in_order =
      All-mem (λ n. contract_error n.contract ≡ none) plan (refl, (refl, (refl, (refl, tt))));
}

ready_nodes-progress_example : ready_nodes plan ≢ some []
ready_nodes-progress_example =
    ready_nodes-progress plan plan-IsStartable (node "d" ("b" ∷ "c" ∷ []) planned)
      (Memᴰ.tail (Memᴰ.tail (Memᴰ.tail (Memᴰ.head refl)))) (λ e. cc)

dependency_closure_iff_example :
    ("d" ∈ dependency_closure plan ("b" ∷ [])) ↔ Descends plan ("b" ∷ []) "d"
dependency_closure_iff_example = dependency_closure_iff plan ("b" ∷ []) "d"

node_scoped_ready-eq_example :
    node_scoped_ready (λ _. []) plan ("b" ∷ [])
    ≡ identifiers (
        keep
          (is_free (dependency_closure plan ("b" ∷ [])) [])
          (node "b" ("a" ∷ []) planned ∷ node "c" ("a" ∷ []) planned ∷ []))
node_scoped_ready-eq_example =
    node_scoped_ready-eq (λ _. []) plan ("b" ∷ []) plan-IsWellFormed plan-ready
