-- ===== src/Dag/Closure/Exact.antt =====
-- `dependency_closure` of vibe_guide/dag.py is exactly the set of descendants.
use vibe_guide_automation.Common.{
  suc, String, Bool, List, [], ◌∷◌, ◌≡◌, refl, ◌∙◌, sym, ap, arith, contains, ◌∈◌, eq_iff, keep,
  ◌&&◌, length, Bool-cases, inl, inr, ◌↔◌,
}
use mathlib.Core.List.{Memᴰ}
use vibe_guide_automation.Common.Dict.{keys}
use vibe_guide_automation.Dag.Node.{Node, identifiers, by_id}
use vibe_guide_automation.Dag.Node.Index.{contains-keys-index}
use vibe_guide_automation.Dag.Closure.{dependency_closure}
use vibe_guide_automation.Dag.Closure.Rounds.{
  AllIn, Shut, rounds-Shut, rounds_sound, outside-le-length,
}

-- A known blocked node, or a node that depends on such a descendant.
pub data Descends (ns : List Node) (blocked : List String) : String → Type 0 where
  root : (k : String) → k ∈ blocked → k ∈ identifiers ns → Descends ns blocked k
  child :
      (n : Node) (d : String)
      → Memᴰ n ns
      → d ∈ n.depends_on
      → Descends ns blocked d
      → Descends ns blocked n.id

contains-keep :
    (p : String → Bool) (xs : List String) (k : String)
    → contains (keep p xs) k ≡ (contains xs k && p k)
contains-keep p [] k = refl
contains-keep p (x ∷ xs) k = elim (Bool-cases (p x)) [
  | inl e ↦ rw (e, keep) (ground (arith, eq_iff x k, ap p, contains-keep p xs k))
  | inr e ↦ rw (e, keep) (ground (arith, eq_iff x k, contains-keep p xs k))
]

-- The closure holds exactly the known blocked nodes and the nodes that depend on them, directly or
-- through others; the fuel for the rounds always suffices.
pub dependency_closure_iff :
    (ns : List Node) (blocked : List String) (k : String)
    → (k ∈ dependency_closure ns blocked) ↔ Descends ns blocked k
unfolding dependency_closure
dependency_closure_iff ns blocked k = (
  rounds_sound (Descends ns blocked) ns (λ n d m i h. child n d m i h) (suc (length ns)) start sound
      k,
  complete k,
)
  where
    start : List String
    start = keep (contains (keys (by_id ns))) blocked

    start-eq : (x : String) → contains start x ≡ (contains blocked x && contains (identifiers ns) x)
    start-eq x =
        contains-keep (contains (keys (by_id ns))) blocked x
        ∙ ap (λ b. contains blocked x && b) (contains-keys-index (λ z. z) [] ns x)

    sound : AllIn (Descends ns blocked) start
    sound x i = let h = sym (start-eq x) ∙ i in root x (ground (arith, h)) (ground (arith, h))

    ended :
        AllIn (λ x. x ∈ dependency_closure ns blocked) start
        × Shut ns (dependency_closure ns blocked)
    ended = rounds-Shut (suc (length ns)) ns start (omega (arith, outside-le-length ns start))

    complete : (x : String) → Descends ns blocked x → x ∈ dependency_closure ns blocked
    complete x (root _ i j) = ended.0 x (start-eq x ∙ ground (arith, i, j))
    complete x (child n d m i h) = ended.1 n m d i (complete d h)
