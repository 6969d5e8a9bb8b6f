-- ===== src/Dag/Scoped.antt =====
-- `node_scoped_ready` of vibe_guide/dag.py. `group_errors` stands for the keys of
-- `_parallel_group_errors(nodes)`, whose path heuristics are not modelled: whatever it blocks, the
-- rest of the function is as here.
pub mod Isolation
use vibe_guide_automation.Common.{
  String, Bool, true, false, not, ◌||◌, none, some, List, [], ◌∷◌, contains, all_of, is_empty,
  if◌then◌else◌,
}
use vibe_guide_automation.Common.Dict.{Dict, get}
use vibe_guide_automation.Dag.Node.{Node, by_id, structural_errors}
use vibe_guide_automation.Dag.Ready.{is_accepted, is_skipped}
use vibe_guide_automation.Dag.Closure.{dependency_closure}

-- all(dependency in by_id and by_id[dependency].status == "accepted" ...)
abbrev pub known_and_accepted : Dict Node → String → Bool
known_and_accepted d k = elim (get d k) [ none ↦ false | some n ↦ is_accepted n.status ]

pub collect_scoped : Dict Node → List String → List String → List Node → List String
collect_scoped d closure group_blocked [] = []
collect_scoped d closure group_blocked (n ∷ ns) =
    let rest = collect_scoped d closure group_blocked ns in
    if contains closure n.id || contains group_blocked n.id || is_skipped n
    then rest
    else if all_of (known_and_accepted d) n.depends_on
    then n.id ∷ rest
    else rest

module _ (group_errors : List Node → List String) where
  unfoldable pub node_scoped_ready : List Node → List String → List String
  unfolding collect_scoped
  node_scoped_ready nodes blocked =
      if is_empty (structural_errors nodes)
      then collect_scoped (by_id nodes) (dependency_closure nodes blocked) (group_errors nodes)
          nodes
      else []
