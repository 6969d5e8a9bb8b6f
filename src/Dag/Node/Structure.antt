-- ===== src/Dag/Node/Structure.antt =====
-- What `_structural_errors` of vibe_guide/dag.py accepts.
use vibe_guide_automation.Common.{
  String, List, [], ◌∷◌, ◌≡◌, refl, arith, ◌∈◌, eq_refl, Bool-cases, contains-cons, append-eq-nil,
  inl, inr, absurd_eq, ◌↔◌,
}
use mathlib.Core.List.{Memᴰ}
use vibe_guide_automation.Dag.Graph.{has_cycle}
use vibe_guide_automation.Dag.Graph.Cycles.{Cycle, has_cycle_iff}
use vibe_guide_automation.Dag.Node.{
  Node, identifiers, graph_of, missing_dependencies, unknown_errors, structural_errors,
}
use vibe_guide_automation.Dag.Node.Index.{AllDistinct, AllDistinct-iff}

-- Every dependency of every node is the id of some node.
abbrev pub AllKnown : List Node → Type 0
AllKnown ns = (n : Node) → Memᴰ n ns → (d : String) → d ∈ n.depends_on → d ∈ identifiers ns

pub record IsWellFormed (ns : List Node) : Type 0 where
  pub distinct_ids : AllDistinct (identifiers ns)
  pub known : AllKnown ns
  pub acyclic : ¬ Cycle (graph_of ns)

missing_dependencies-nil :
    (ids ds : List String) → missing_dependencies ids ds ≡ [] → (d : String) → d ∈ ds → d ∈ ids
unfolding missing_dependencies
missing_dependencies-nil ids [] h d i = absurd_eq i
missing_dependencies-nil ids (x ∷ ds) h d i = elim (contains-cons x d ds i) [
  | inl e ↦ ground arith
  | inr j ↦ missing_dependencies-nil ids ds (ground arith) d j
]

missing_dependencies-of_known :
    (ids ds : List String) → ((d : String) → d ∈ ds → d ∈ ids) → missing_dependencies ids ds ≡ []
unfolding missing_dependencies
missing_dependencies-of_known ids [] h = refl
missing_dependencies-of_known ids (x ∷ ds) h =
    let here : x ∈ ids = h x (ground (arith, eq_refl x)) in
    rw here (missing_dependencies-of_known ids ds (λ d i. h d (ground arith)))

unknown_errors-nil :
    (ids : List String) (ns : List Node)
    → unknown_errors ids ns ≡ []
    → (n : Node) → Memᴰ n ns
    → (d : String) → d ∈ n.depends_on
    → d ∈ ids
unfolding unknown_errors
unknown_errors-nil ids [] h n m = elim m [ ]
unknown_errors-nil ids (x ∷ ns) h n (Memᴰ.head p) =
    rw p (missing_dependencies-nil ids x.depends_on (ground arith))
unknown_errors-nil ids (x ∷ ns) h n (Memᴰ.tail m) = unknown_errors-nil ids ns (ground arith) n m

unknown_errors-of_known :
    (ids : List String) (ns : List Node)
    → ((n : Node) → Memᴰ n ns → (d : String) → d ∈ n.depends_on → d ∈ ids)
    → unknown_errors ids ns ≡ []
unfolding unknown_errors
unknown_errors-of_known ids [] h = refl
unknown_errors-of_known ids (x ∷ ns) h =
    rw (missing_dependencies-of_known ids x.depends_on (h x (Memᴰ.head refl)))
      (unknown_errors-of_known ids ns (λ n m. h n (Memᴰ.tail m)))

-- No error is reported exactly when the ids are distinct, every dependency names a node, and no
-- node depends on itself through a chain of dependencies.
pub structural_errors_iff : (ns : List Node) → (structural_errors ns ≡ []) ↔ IsWellFormed ns
unfolding structural_errors
structural_errors_iff ns = (
  λ h.
      let (a, h') = append-eq-nil _ _ h in
      let (b, c) = append-eq-nil _ _ h' in
      record {
        distinct_ids = (AllDistinct-iff (identifiers ns)).0 (ground arith);
        known = unknown_errors-nil (identifiers ns) ns b;
        acyclic = λ k. let found = (has_cycle_iff (graph_of ns)).1 k in ground arith;
      },
  λ w.
      let one = (AllDistinct-iff (identifiers ns)).1 w.distinct_ids in
      let two = unknown_errors-of_known (identifiers ns) ns w.known in
      elim (Bool-cases (has_cycle (graph_of ns))) [
        | inl bad ↦ absurd (w.acyclic ((has_cycle_iff (graph_of ns)).0 bad))
        | inr three ↦ rw (one, two, three)
      ],
)
