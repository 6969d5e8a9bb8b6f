-- ===== src/Dag/Ready/Progress.antt =====
-- A well-formed plan never gets stuck: `ready_nodes` of vibe_guide/dag.py finds work.
use vibe_guide_automation.Common.{
  String, Bool, true, false, Option, none, some, List, [], ◌∷◌, ◌≡◌, ◌≢◌, refl, ◌∙◌, sym, ap, arith,
  ◌∈◌, eq_refl, ◌⊎◌, inl, inr, subst, some-inj, Bool-cases, Option-cases, or_else, absurd_eq,
}
use mathlib.Core.List.{Memᴰ}
use vibe_guide_automation.Common.Dict.{Dict, get, keys}
use vibe_guide_automation.Dag.Contract.{contract_error}
use vibe_guide_automation.Dag.Graph.{deps}
use vibe_guide_automation.Dag.Graph.Settle.{Grounded, grounded}
use vibe_guide_automation.Dag.Graph.Cycles.{acyclic-Grounded}
use vibe_guide_automation.Dag.Node.{NodeStatus, accepted, Node, identifiers, by_id, graph_of}
use vibe_guide_automation.Dag.Node.Index.{mem→known, get-index_mem, contains-keys-index}
use vibe_guide_automation.Dag.Node.Structure.{IsWellFormed}
use vibe_guide_automation.Dag.Ready.{is_accepted, is_waiting, all_accepted, ready_nodes}
use vibe_guide_automation.Dag.Ready.Select.{
  IsReady, ready_nodes_iff, known_dependency, all_accepted-total, IsReady-of_accepted,
}

-- A dependency that is not accepted.
record Late (d : Dict Node) (ks : List String) : Type 0 where
  key : String
  node : Node
  among : key ∈ ks
  found : get d key ≡ some node
  unaccepted : is_accepted node.status ≡ false

Late-cons : {d : Dict Node} (x : String) (ks : List String) → Late d ks → Late d (x ∷ ks)
Late-cons x ks l = record {
  key = l.key;
  node = l.node;
  among = ground (arith, l.among);
  found = l.found;
  unaccepted = l.unaccepted;
}

all_accepted-false : (d : Dict Node) (ks : List String) → all_accepted d ks ≡ some false → Late d ks
unfolding all_accepted
all_accepted-false d [] h = absurd_eq (ground arith)
all_accepted-false d (x ∷ ks) h = elim (Option-cases (get d x)) [
  | inl e ↦ absurd_eq (ground arith)
  | inr (n, e) ↦ elim (Bool-cases (is_accepted n.status)) [
    | inl done ↦ Late-cons x ks (all_accepted-false d ks (ground arith))
    | inr late ↦ record {
      key = x;
      node = n;
      among = ground (arith, eq_refl x);
      found = e;
      unaccepted = late;
    }
  ]
]

not_in_nil : {n : Node} → ¬ Memᴰ n []
not_in_nil m = elim m [ ]

-- Every node is waiting or accepted, and every contract is in order.
pub record IsStartable (ns : List Node) : Type 0 where
  pub well_formed : IsWellFormed ns
  pub phase : (n : Node) → Memᴰ n ns → (is_waiting n.status ≡ true) ⊎ (n.status ≡ accepted)
  pub in_order : (n : Node) → Memᴰ n ns → contract_error n.contract ≡ none

not-accepted : (x : NodeStatus) → x ≢ accepted → is_accepted x ≡ false
not-accepted x h = ground arith

module _ (ns : List Node) (w : IsWellFormed ns) where
  -- The test of the dependencies has an answer.
  tested : {n : Node} → Memᴰ n ns → (b : Bool) × (all_accepted (by_id ns) n.depends_on ≡ some b)
  tested {n} i =
      all_accepted-total (by_id ns) n.depends_on
        (λ k j. let (m, g, _, _) = known_dependency ns w k i j in (m, g))

  -- What a late dependency of a listed node is.
  Late-node :
      {n : Node}
      → Memᴰ n ns
      → (l : Late (by_id ns) n.depends_on) → Memᴰ l.node ns × (l.node.id ≡ l.key)
  Late-node i l =
      let (m, g, j, e) = known_dependency ns w l.key i l.among in
      let same : m ≡ l.node = some-inj (sym g ∙ l.found) in
      (subst (λ z. Memᴰ z ns) same j, sym (ap (λ (z : Node). z.id) same) ∙ e)

  deps-graph_of : {n : Node} → Memᴰ n ns → deps (graph_of ns) n.id ≡ n.depends_on
  deps-graph_of {n} i =
      ap (λ (o : Option (List String)). or_else o [])
        (get-index_mem (λ z. z.depends_on) [] ns w.distinct_ids i)

  known-graph_of : (k : String) → k ∈ identifiers ns → k ∈ keys (graph_of ns)
  known-graph_of k h = contains-keys-index (λ z. z.depends_on) [] ns k ∙ h

module _ (ns : List Node) (s : IsStartable ns) where
  find-IsReady :
      (v : String)
      → Grounded (graph_of ns) v
      → (n : Node) → n.id ≡ v
      → Memᴰ n ns
      → is_accepted n.status ≡ false
      → (m : Node) × IsReady ns m
  find-IsReady v (grounded _ below) n e i late =
      let w = s.well_formed in
      let (b, t) = tested ns w i in
      elim (Bool-cases b) [
        | inl done ↦ (
          n,
          IsReady-of_accepted ns w i (ground (arith, s.phase n i)) (s.in_order n i)
              (t ∙ ap some done),
        )
        | inr wait ↦
            let l = all_accepted-false (by_id ns) n.depends_on (t ∙ ap some wait) in
            let (j, f) = Late-node ns w i l in
            find-IsReady l.key
              (below l.key (rw (← e, deps-graph_of ns w i) l.among)
                (known-graph_of ns w l.key (w.known n i l.key l.among)))
              l.node f j l.unaccepted
      ]

  -- On a well-formed plan whose nodes are all waiting or accepted, with no contract error, as long
  -- as one node is not accepted, `ready_nodes` is not empty.
  pub ready_nodes-progress : (n : Node) → Memᴰ n ns → n.status ≢ accepted → ready_nodes ns ≢ some []
  ready_nodes-progress n i late h =
      let w = s.well_formed in
      let (r, e, mem) = ready_nodes_iff ns w in
      let (m, found) =
        find-IsReady n.id
          (acyclic-Grounded (graph_of ns) w.acyclic n.id
            (known-graph_of ns w n.id (mem→known ns i)))
          n refl i (not-accepted n.status late) in
      not_in_nil (subst (Memᴰ m) (some-inj (sym e ∙ h)) ((mem m).1 found))
