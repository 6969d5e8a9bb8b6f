-- ===== src/Dag/Closure/Rounds.antt =====
-- The rounds of `dependency_closure` in vibe_guide/dag.py: what they keep, and that they end.
use vibe_guide_automation.Common.{
  ℕ, zero, suc, ◌+◌, ◌≤◌, ◌<◌, String, Bool, true, false, List, [], ◌∷◌, ◌≡◌, refl, ◌∙◌, sym, ap,
  arith, subst, contains, ◌∈◌, contains-cons, eq_refl, any_of, length, Bool-cases, inl, inr,
  if◌then◌else◌, absurd_eq,
}
use mathlib.Core.List.{Memᴰ}
use vibe_guide_automation.Dag.Node.{Node}
use vibe_guide_automation.Dag.Closure.{grow, rounds}

any_of-witness :
    (c ds : List String) → any_of (contains c) ds ≡ true → (d : String) × (d ∈ ds) × (d ∈ c)
any_of-witness c [] h = absurd_eq h
any_of-witness c (d ∷ ds) h = elim (Bool-cases (contains c d)) [
  | inl i ↦ (d, ground (arith, eq_refl d), i)
  | inr e ↦ let (x, j, i) = any_of-witness c ds (ground arith) in (x, ground arith, i)
]

any_of-intro : (c ds : List String) (d : String) → d ∈ ds → d ∈ c → any_of (contains c) ds ≡ true
any_of-intro c [] d i j = absurd_eq i
any_of-intro c (x ∷ ds) d i j = elim (contains-cons x d ds i) [
  | inl e ↦ ground arith
  | inr k ↦ ground (arith, any_of-intro c ds d k j)
]

abbrev pub AllIn : (String → Type 0) → List String → Type 0
AllIn P c = (k : String) → k ∈ c → P k

AllIn-cons :
    (P : String → Type 0) (x : String) (c : List String) → P x → AllIn P c → AllIn P (x ∷ c)
AllIn-cons P x c h hs k i = elim (contains-cons x k c i) [
  | inl e ↦ subst P (sym e) h
  | inr j ↦ hs k j
]

-- One step of the loop, by its three branches.
module _ (n : Node) (ns : List Node) (b : Bool) (c : List String) where
  grow-old : n.id ∈ c → grow (n ∷ ns) (b, c) ≡ grow ns (b, c)
  unfolding grow
  grow-old e = ground arith

  grow-new :
      contains c n.id ≡ false
      → any_of (contains c) n.depends_on ≡ true
      → grow (n ∷ ns) (b, c) ≡ grow ns (true, n.id ∷ c)
  unfolding grow
  grow-new e f = ground arith

  grow-free :
      contains c n.id ≡ false
      → any_of (contains c) n.depends_on ≡ false
      → grow (n ∷ ns) (b, c) ≡ grow ns (b, c)
  unfolding grow
  grow-free e f = ground arith

-- Every branch at once: what holds of the three results holds of the step.
grow-step :
    (P : Bool × List String → Type 0) (n : Node) (ns : List Node) (b : Bool) (c : List String)
    → (n.id ∈ c → P (grow ns (b, c)))
    → (contains c n.id ≡ false
        → any_of (contains c) n.depends_on ≡ true
        → P (grow ns (true, n.id ∷ c)))
    → (contains c n.id ≡ false → any_of (contains c) n.depends_on ≡ false → P (grow ns (b, c)))
    → P (grow (n ∷ ns) (b, c))
grow-step P n ns b c old new free = elim (Bool-cases (contains c n.id)) [
  | inl e ↦ subst P (sym (grow-old n ns b c e)) (old e)
  | inr e ↦ elim (Bool-cases (any_of (contains c) n.depends_on)) [
    | inl f ↦ subst P (sym (grow-new n ns b c e f)) (new e f)
    | inr f ↦ subst P (sym (grow-free n ns b c e f)) (free e f)
  ]
]

grow-mono :
    (ns : List Node) (b : Bool) (c : List String) (k : String) → k ∈ c → k ∈ (grow ns (b, c)).1
unfolding grow
grow-mono [] b c k i = i
grow-mono (n ∷ ns) b c k i =
    grow-step (λ r. k ∈ r.1) n ns b c (λ _. grow-mono ns b c k i)
      (λ _ _. grow-mono ns true (n.id ∷ c) k (ground arith)) (λ _ _. grow-mono ns b c k i)

grow-flag : (ns : List Node) (c : List String) → (grow ns (true, c)).0 ≡ true
unfolding grow
grow-flag [] c = refl
grow-flag (n ∷ ns) c =
    grow-step (λ r. r.0 ≡ true) n ns true c (λ _. grow-flag ns c) (λ _ _. grow-flag ns (n.id ∷ c))
      (λ _ _. grow-flag ns c)

-- Nothing more depends on the set.
abbrev pub Shut : List Node → List String → Type 0
Shut ns c = (n : Node) → Memᴰ n ns → (d : String) → d ∈ n.depends_on → d ∈ c → n.id ∈ c

Shut-cons :
    (n : Node) (ns : List Node) (c : List String)
    → ((d : String) → d ∈ n.depends_on → d ∈ c → n.id ∈ c)
    → Shut ns c
    → Shut (n ∷ ns) c
Shut-cons n ns c here rest m (Memᴰ.head p) d i j =
    subst (λ z. z ∈ c) (sym (ap (λ (z : Node). z.id) p))
      (here d (subst (λ (z : Node). d ∈ z.depends_on) p i) j)
Shut-cons n ns c here rest m (Memᴰ.tail k) d i j = rest m k d i j

-- A round that changes nothing has found the set shut.
grow-still :
    (ns : List Node) (c : List String)
    → (grow ns (false, c)).0 ≡ false
    → ((grow ns (false, c)).1 ≡ c) × Shut ns c
unfolding grow
grow-still [] c = λ h. (refl, λ n m. elim m [ ])
grow-still (n ∷ ns) c =
    grow-step (λ r. r.0 ≡ false → (r.1 ≡ c) × Shut (n ∷ ns) c) n ns false c
      (λ e h. let (same, shut) = grow-still ns c h in (same, Shut-cons n ns c (λ d i j. e) shut))
      (λ e f h. absurd_eq (sym h ∙ grow-flag ns (n.id ∷ c)))
      (λ e f h.
        let (same, shut) = grow-still ns c h in
        (
          same,
          Shut-cons n ns c (λ d i j. absurd_eq (sym f ∙ any_of-intro c n.depends_on d i j)) shut,
        ))

-- How many of the nodes are not in the set.
pub outside : List Node → List String → ℕ
outside [] c = 0
outside (n ∷ ns) c = (if contains c n.id then 0 else 1) + outside ns c

outside-cons : (ns : List Node) (x : String) (c : List String) → outside ns (x ∷ c) ≤ outside ns c
unfolding outside
outside-cons [] x c = omega arith
outside-cons (n ∷ ns) x c = ground (arith, outside-cons ns x c)

outside-lt :
    (ns : List Node) (n : Node) (c : List String)
    → Memᴰ n ns
    → contains c n.id ≡ false
    → outside ns (n.id ∷ c) < outside ns c
unfolding outside
outside-lt [] n c m e = elim m [ ]
outside-lt (x ∷ ns) n c (Memᴰ.head p) e =
    let q = ap (λ (z : Node). z.id) p in
    rw (← q, e, eq_refl n.id) (ground (arith, outside-cons ns n.id c))
outside-lt (x ∷ ns) n c (Memᴰ.tail m) e = ground (arith, outside-lt ns n c m e)

pub outside-le-length : (ns : List Node) (c : List String) → outside ns c ≤ length ns
unfolding outside
outside-le-length [] c = omega arith
outside-le-length (n ∷ ns) c = ground (arith, outside-le-length ns c)

module _ (all : List Node) where
  grow-outside_le :
      (ns : List Node) (b : Bool) (c : List String) → outside all (grow ns (b, c)).1 ≤ outside all c
  unfolding grow
  grow-outside_le [] b c = omega arith
  grow-outside_le (n ∷ ns) b c =
      grow-step (λ r. outside all r.1 ≤ outside all c) n ns b c (λ _. grow-outside_le ns b c)
        (λ _ _. omega (arith, grow-outside_le ns true (n.id ∷ c), outside-cons all n.id c))
        (λ _ _. grow-outside_le ns b c)

  -- A round that changes something has added a node.
  grow-outside_lt :
      (ns : List Node) (c : List String)
      → ((n : Node) → Memᴰ n ns → Memᴰ n all)
      → (grow ns (false, c)).0 ≡ true
      → outside all (grow ns (false, c)).1 < outside all c
  unfolding grow
  grow-outside_lt [] c sub = λ h. absurd_eq h
  grow-outside_lt (n ∷ ns) c sub =
      let rest : (m : Node) → Memᴰ m ns → Memᴰ m all = λ m i. sub m (Memᴰ.tail i) in
      grow-step (λ r. r.0 ≡ true → outside all r.1 < outside all c) n ns false c
        (λ _. grow-outside_lt ns c rest)
        (λ e f _. omega (
          arith,
          grow-outside_le ns true (n.id ∷ c),
          outside-lt all n c (sub n (Memᴰ.head refl)) e,
        ))
        (λ _ _. grow-outside_lt ns c rest)

module _ (fuel : ℕ) (ns : List Node) (c : List String) where
  rounds-more :
      (grow ns (false, c)).0 ≡ true → rounds (suc fuel) ns c ≡ rounds fuel ns (grow ns (false, c)).1
  unfolding rounds
  rounds-more e = ground arith

  rounds-done : (grow ns (false, c)).0 ≡ false → rounds (suc fuel) ns c ≡ (grow ns (false, c)).1
  unfolding rounds
  rounds-done e = ground arith

-- The loop ends with a set that holds what it was given and is shut.
pub rounds-Shut :
    (fuel : ℕ) (ns : List Node) (c : List String)
    → outside ns c < fuel
    → AllIn (λ k. k ∈ rounds fuel ns c) c × Shut ns (rounds fuel ns c)
rounds-Shut zero ns c room = absurd (omega arith)
rounds-Shut (suc fuel) ns c room = elim (Bool-cases (grow ns (false, c)).0) [
  | inl more ↦
      let (holds, shut) =
        rounds-Shut fuel ns (grow ns (false, c)).1
          (omega (arith, grow-outside_lt ns ns c (λ m i. i) more)) in
      rw (rounds-more fuel ns c more) (λ k i. holds k (grow-mono ns false c k i), shut)
  | inr done ↦
      let (same, shut) = grow-still ns c done in
      rw (rounds-done fuel ns c done, same) (λ k i. i, shut)
]

module _ (P : String → Type 0) (all : List Node)
    (step : (n : Node) (d : String) → Memᴰ n all → d ∈ n.depends_on → P d → P n.id) where
  grow_sound :
      (ns : List Node) (b : Bool) (c : List String)
      → ((n : Node) → Memᴰ n ns → Memᴰ n all)
      → AllIn P c
      → AllIn P (grow ns (b, c)).1
  unfolding grow
  grow_sound [] b c sub h = h
  grow_sound (n ∷ ns) b c sub h =
      let rest : (m : Node) → Memᴰ m ns → Memᴰ m all = λ m i. sub m (Memᴰ.tail i) in
      grow-step (λ r. AllIn P r.1) n ns b c (λ _. grow_sound ns b c rest h)
        (λ e f.
          let (d, i, j) = any_of-witness c n.depends_on f in
          grow_sound ns true (n.id ∷ c) rest
            (AllIn-cons P n.id c (step n d (sub n (Memᴰ.head refl)) i (h d j)) h))
        (λ _ _. grow_sound ns b c rest h)

  pub rounds_sound : (fuel : ℕ) (c : List String) → AllIn P c → AllIn P (rounds fuel all c)
  unfolding rounds
  rounds_sound zero c h = h
  rounds_sound (suc fuel) c h =
      let next = grow_sound all false c (λ m i. i) h in
      elim (Bool-cases (grow all (false, c)).0) [
        | inl more ↦
            rw (rounds-more fuel all c more) (rounds_sound fuel (grow all (false, c)).1 next)
        | inr done ↦ rw (rounds-done fuel all c done) next
      ]
