-- ===== src/Dag/Ready/Select.antt =====
-- Which nodes `ready_nodes` of vibe_guide/dag.py returns.
use vibe_guide_automation.Common.{
  String, Bool, true, false, none, some, List, [], ◌∷◌, ◌≡◌, refl, ◌∙◌, sym, ap, arith, ◌∈◌,
  eq_refl, contains-cons, Bool-cases, ◌↔◌, ◌⊎◌, inl, inr, absurd_eq, not, ◌&&◌, or_else, keep,
  mem-keep, all_of,
}
use mathlib.Core.List.{Memᴰ}
use vibe_guide_automation.Common.Dict.{Dict, get}
use vibe_guide_automation.Dag.Contract.{contract_error}
use vibe_guide_automation.Dag.Node.{planned, ready, accepted, Node, by_id}
use vibe_guide_automation.Dag.Node.Index.{known→mem, get-index_mem}
use vibe_guide_automation.Dag.Node.Structure.{IsWellFormed, structural_errors_iff}
use vibe_guide_automation.Dag.Ready.{
  is_accepted, is_waiting, is_skipped, all_accepted, collect_ready, ready_nodes,
}

-- Every dependency has been accepted.
abbrev pub DepsAccepted : List Node → Node → Type 0
DepsAccepted ns n = (m : Node) → Memᴰ m ns → m.id ∈ n.depends_on → m.status ≡ accepted

-- A node that may be started: it waits, its contract is in order, and its dependencies are done.
pub record IsReady (ns : List Node) (n : Node) : Type 0 where
  pub listed : Memᴰ n ns
  pub waiting : (n.status ≡ planned) ⊎ (n.status ≡ ready)
  pub in_order : contract_error n.contract ≡ none
  pub deps_accepted : DepsAccepted ns n

-- The test of the dependencies, over any dict of nodes.
module _ (d : Dict Node) where
  pub all_accepted_sound :
      (ks : List String) (k : String) (n : Node)
      → all_accepted d ks ≡ some true
      → k ∈ ks
      → get d k ≡ some n
      → n.status ≡ accepted
  unfolding all_accepted
  all_accepted_sound [] k n h i g = absurd_eq i
  all_accepted_sound (x ∷ ks) k n h i g = elim (contains-cons x k ks i) [
    | inl e ↦ ground arith
    | inr j ↦ all_accepted_sound ks k n (ground arith) j g
  ]

  all_accepted_complete :
      (ks : List String)
      → ((k : String) → k ∈ ks → (n : Node) × (get d k ≡ some n) × (n.status ≡ accepted))
      → all_accepted d ks ≡ some true
  unfolding all_accepted
  all_accepted_complete [] h = refl
  all_accepted_complete (x ∷ ks) h =
      let (n, g, e) = h x (ground (arith, eq_refl x)) in
      let rest = all_accepted_complete ks (λ k i. h k (ground arith)) in ground arith

  pub all_accepted-total :
      (ks : List String)
      → ((k : String) → k ∈ ks → (n : Node) × (get d k ≡ some n))
      → (b : Bool) × (all_accepted d ks ≡ some b)
  unfolding all_accepted
  all_accepted-total [] h = (true, refl)
  all_accepted-total (x ∷ ks) h =
      let (n, g) = h x (ground (arith, eq_refl x)) in
      let (b, rest) = all_accepted-total ks (λ k i. h k (ground arith)) in
      elim (Bool-cases (is_accepted n.status)) [
        | inl e ↦ (b, rw (g, all_accepted) (rw (e, all_accepted) rest))
        | inr e ↦ (false, ground arith)
      ]

-- What the loop keeps: a node that is not skipped and whose dependencies are accepted.
abbrev pub selects : Dict Node → Node → Bool
selects d n = not (is_skipped n) && or_else (all_accepted d n.depends_on) false

-- The loop raises no KeyError if no single test does, and then it is a filter.
collect_ready-eq-keep :
    (d : Dict Node) (ns : List Node)
    → ((n : Node) → Memᴰ n ns → (b : Bool) × (all_accepted d n.depends_on ≡ some b))
    → collect_ready d ns ≡ some (keep (selects d) ns)
unfolding collect_ready
collect_ready-eq-keep d [] tests = refl
collect_ready-eq-keep d (n ∷ ns) tests =
    let rest = collect_ready-eq-keep d ns (λ m i. tests m (Memᴰ.tail i)) in
    let (b, t) = tests n (Memᴰ.head refl) in ground (arith, rest, t)

module _ (ns : List Node) (w : IsWellFormed ns) where
  pub get-by_id : {m : Node} → Memᴰ m ns → get (by_id ns) m.id ≡ some m
  get-by_id = get-index_mem (λ z. z) [] ns w.distinct_ids

  pub known_dependency :
      {n : Node} (k : String)
      → Memᴰ n ns
      → k ∈ n.depends_on
      → (m : Node) × (get (by_id ns) k ≡ some m) × Memᴰ m ns × (m.id ≡ k)
  known_dependency {n} k i j =
      let (m, l, e) = known→mem ns k (w.known n i k j) in
      (m, ap (get (by_id ns)) (sym e) ∙ get-by_id l, l, e)

  -- On a well-formed plan the ready nodes are found without a KeyError.
  pub ready_nodes-eq-keep : ready_nodes ns ≡ some (keep (selects (by_id ns)) ns)
  unfolding ready_nodes
  ready_nodes-eq-keep = rw ((structural_errors_iff ns).1 w) (
      collect_ready-eq-keep (by_id ns) ns λ n i.
        all_accepted-total (by_id ns) n.depends_on
          λ k j. let (m, g, _, _) = known_dependency k i j in (m, g))

  pub selects_iff : (n : Node) → Memᴰ n ns → (selects (by_id ns) n ≡ true) ↔ IsReady ns n
  selects_iff n i = (
    λ h. record {
      listed = i;
      waiting = ground arith;
      in_order = ground arith;
      deps_accepted =
          λ m j k. all_accepted_sound (by_id ns) n.depends_on m.id m (ground arith) k (get-by_id j);
    },
    λ h.
        let done = all_accepted_complete (by_id ns) n.depends_on (λ k j.
          let (m, g, l, e) = known_dependency k i j in (m, g, h.deps_accepted m l (rw e j))) in
        ground (arith, h.waiting, h.in_order),
  )

-- On a well-formed plan `ready_nodes` returns, and returns exactly the listed nodes that wait to be
-- started, have no contract error, and whose dependencies are all accepted.
pub ready_nodes_iff :
    (ns : List Node)
    → IsWellFormed ns
    → (r : List Node) × (ready_nodes ns ≡ some r) × ((n : Node) → Memᴰ n r ↔ IsReady ns n)
ready_nodes_iff ns w = (
  keep (selects (by_id ns)) ns,
  ready_nodes-eq-keep ns w,
  λ n. (
    λ i. let (j, p) = (mem-keep (selects (by_id ns)) n ns).0 i in (selects_iff ns w n j).0 p,
    λ h. (mem-keep (selects (by_id ns)) n ns).1 (h.listed, (selects_iff ns w n h.listed).1 h),
  ),
)

pub IsReady-of_accepted :
    (ns : List Node) (w : IsWellFormed ns) {n : Node}
    → Memᴰ n ns
    → is_waiting n.status ≡ true
    → contract_error n.contract ≡ none
    → all_accepted (by_id ns) n.depends_on ≡ some true
    → IsReady ns n
IsReady-of_accepted ns w {n} i a c t = (selects_iff ns w n i).0 (ground (arith, a, c, t))

-- Where a missing key counts as not accepted, the test has the same answer.
pub all_accepted-eq-all_of :
    (d : Dict Node) (ks : List String)
    → all_of (λ k. elim (get d k) [ none ↦ false | some n ↦ is_accepted n.status ]) ks
      ≡ or_else (all_accepted d ks) false
unfolding all_accepted
all_accepted-eq-all_of d [] = refl
all_accepted-eq-all_of d (k ∷ ks) = ground (arith, all_accepted-eq-all_of d ks)
