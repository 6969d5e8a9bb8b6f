-- ===== src/Dag/Scoped/Isolation.antt =====
-- `node_scoped_ready` of vibe_guide/dag.py holds back what is blocked and nothing else.
use vibe_guide_automation.Common.{
  String, Bool, not, ◌||◌, some, List, [], ◌∷◌, ◌≡◌, refl, ◌∙◌, ap, arith, contains, keep, some-inj,
  sym,
}
use vibe_guide_automation.Common.Dict.{Dict}
use vibe_guide_automation.Dag.Node.{Node, identifiers, by_id}
use vibe_guide_automation.Dag.Node.Structure.{IsWellFormed, structural_errors_iff}
use vibe_guide_automation.Dag.Ready.{ready_nodes}
use vibe_guide_automation.Dag.Ready.Select.{selects, ready_nodes-eq-keep, all_accepted-eq-all_of}
use vibe_guide_automation.Dag.Closure.{dependency_closure}
use vibe_guide_automation.Dag.Scoped.{collect_scoped, node_scoped_ready}

-- Neither a descendant of a blocked node nor in a group with errors.
abbrev pub is_free : List String → List String → Node → Bool
is_free closure group_blocked n = not (contains closure n.id || contains group_blocked n.id)

collect_scoped-eq :
    (d : Dict Node) (closure group_blocked : List String) (ns : List Node)
    → collect_scoped d closure group_blocked ns
      ≡ identifiers (keep (is_free closure group_blocked) (keep (selects d) ns))
unfolding collect_scoped
collect_scoped-eq d c g [] = refl
collect_scoped-eq d c g (n ∷ ns) =
    let same = all_accepted-eq-all_of d n.depends_on in
    ground (arith, collect_scoped-eq d c g ns, same)

-- On a well-formed plan the scoped result is the ids of the ready nodes, in their order, without
-- the descendants of blocked nodes and without the nodes of a group with errors.
pub node_scoped_ready-eq :
    (group_errors : List Node → List String) (ns : List Node) (blocked : List String)
    → IsWellFormed ns
    → {r : List Node} → ready_nodes ns ≡ some r
    → node_scoped_ready group_errors ns blocked
      ≡ identifiers (keep (is_free (dependency_closure ns blocked) (group_errors ns)) r)
unfolding node_scoped_ready
node_scoped_ready-eq group_errors ns blocked w {r} e =
    let same : keep (selects (by_id ns)) ns ≡ r = some-inj (sym (ready_nodes-eq-keep ns w) ∙ e) in
    rw ((structural_errors_iff ns).1 w) (
      collect_scoped-eq (by_id ns) (dependency_closure ns blocked) (group_errors ns) ns
      ∙ ap
          (λ (z : List Node).
            identifiers (keep (is_free (dependency_closure ns blocked) (group_errors ns)) z))
          same)
