-- ===== src/Dag/Node/Index.antt =====
-- Looking a node up by its id, in the dicts that vibe_guide/dag.py builds from a node list.
use vibe_guide_automation.Common.{
  ◌≤◌, String, true, false, ◌||◌, some, List, [], ◌∷◌, ◌≡◌, refl, ◌∙◌, arith, contains, ◌∈◌, ap,
  eq_refl, Bool-cases, contains-cons, length, inl, inr, absurd_eq, sym, ◌↔◌, nat_eq,
}
use mathlib.Core.List.{Memᴰ}
use vibe_guide_automation.Common.Dict.{Dict, get, put, keys, get-put, contains-keys-put}
use vibe_guide_automation.Dag.Node.{Node, identifiers, distinct, index}

-- No id stands twice.
abbrev pub AllDistinct : List String → Type 0
AllDistinct [] = Unit
AllDistinct (x ∷ xs) = (contains xs x ≡ false) × AllDistinct xs

length-distinct-le : (xs : List String) → length (distinct xs) ≤ length xs
length-distinct-le [] = omega arith
length-distinct-le (x ∷ xs) = ground (arith, length-distinct-le xs)

-- `len(identifiers) == len(set(identifiers))` tests that.
pub AllDistinct-iff :
    (xs : List String) → (nat_eq (length xs) (length (distinct xs)) ≡ true) ↔ AllDistinct xs
AllDistinct-iff [] = (λ h. tt, λ h. refl)
AllDistinct-iff (x ∷ xs) = (
  λ h. elim (Bool-cases (contains xs x)) [
    | inl old ↦ absurd_eq (ground (arith, length-distinct-le xs))
    | inr new ↦ (new, (AllDistinct-iff xs).0 (ground arith))
  ],
  λ (new, rest). ground (arith, (AllDistinct-iff xs).1 rest),
)

pub mem→known : {n : Node} (ns : List Node) → Memᴰ n ns → n.id ∈ identifiers ns
mem→known [] m = elim m [ ]
mem→known (x ∷ ns) (Memᴰ.head p) = ground (arith, ap (λ (z : Node). z.id) p, eq_refl x.id)
mem→known (x ∷ ns) (Memᴰ.tail m) = ground (arith, mem→known ns m)

pub known→mem :
    (ns : List Node) (k : String) → k ∈ identifiers ns → (n : Node) × Memᴰ n ns × (n.id ≡ k)
known→mem [] k h = absurd_eq h
known→mem (x ∷ ns) k h = elim (contains-cons x.id k (identifiers ns) h) [
  | inl e ↦ (x, Memᴰ.head refl, sym e)
  | inr i ↦ let (n, m, e) = known→mem ns k i in (n, Memᴰ.tail m, e)
]

module _ {ℓ} {V : Type ℓ} (f : Node → V) where
  pub get-index_other :
      (d : Dict V) (ns : List Node) (k : String)
      → contains (identifiers ns) k ≡ false
      → get (index f d ns) k ≡ get d k
  get-index_other d [] k h = refl
  get-index_other d (n ∷ ns) k h =
      get-index_other (put d n.id (f n)) ns k (ground arith)
      ∙ ground (arith, get-put n.id (f n) d k)

  pub contains-keys-index :
      (d : Dict V) (ns : List Node) (k : String)
      → contains (keys (index f d ns)) k ≡ (contains (keys d) k || contains (identifiers ns) k)
  contains-keys-index d [] k = ground arith
  contains-keys-index d (n ∷ ns) k =
      contains-keys-index (put d n.id (f n)) ns k ∙ ground (arith, contains-keys-put n.id (f n) d k)

  -- With distinct ids, a node is found under its own id.
  pub get-index_mem :
      (d : Dict V) (ns : List Node) {n : Node}
      → AllDistinct (identifiers ns)
      → Memᴰ n ns
      → get (index f d ns) n.id ≡ some (f n)
  get-index_mem d [] u m = elim m [ ]
  get-index_mem d (x ∷ ns) {n} u (Memᴰ.head p) =
      rw p (get-index_other (put d x.id (f x)) ns x.id u.0 ∙ get-put x.id (f x) d x.id ∙ rw eq_refl)
  get-index_mem d (x ∷ ns) u (Memᴰ.tail m) = get-index_mem (put d x.id (f x)) ns u.1 m
