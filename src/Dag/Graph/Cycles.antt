-- ===== src/Dag/Graph/Cycles.antt =====
-- The cycle search decides whether the dependencies have a cycle.
use vibe_guide_automation.Common.{
  ℕ, zero, suc, ◌+◌, ◌≤◌, ◌<◌, String, Bool, true, false, List, [], ◌∷◌, ◌≡◌, refl, ◌∙◌, arith,
  contains, ◌∈◌, eq_iff, eq_refl, Bool-cases, contains-cons, length, inl, inr, absurd_eq, subst,
  sym, if◌then◌else◌, ◌↔◌,
}
use vibe_guide_automation.Common.Dict.{keys}
use vibe_guide_automation.Dag.Graph.{
  Graph, Marks, start, deps, visit_all, leave, visit, search_from, has_cycle,
}
use vibe_guide_automation.Dag.Graph.Settle.{
  Grounded, grounded, IsSound, visit-Settles, visit-fresh, visit_all-skip, visit_all-clear,
}

-- `v` is a known dependency of `u`.
pub record Edge (g : Graph) (u v : String) : Type 0 where
  pub depends : v ∈ deps g u
  pub known : v ∈ keys g

-- A chain of one or more dependencies.
pub data Chain (g : Graph) : String → String → Type 0 where
  one : {u v : String} → Edge g u v → Chain g u v
  more : {u v w : String} → Edge g u v → Chain g v w → Chain g u w

-- A node that depends on itself through a chain.
abbrev pub Cycle : Graph → Type 0
Cycle g = (v : String) × Chain g v v

snoc : {g : Graph} {u v w : String} → Chain g u v → Edge g v w → Chain g u w
snoc (one e) f = more e (one f)
snoc (more e c) f = more e (snoc c f)

-- A chain from `v` back to `v`, seen from its second node.
rotate :
    {g : Graph} {v : String} {ℓ : String}
    → Chain g v ℓ
    → v ≡ ℓ
    → (d : String) × Edge g v d × Chain g d d
rotate {g} {v} (one {v = w} e) p = (w, e, one (subst (λ z. Edge g z w) p e))
rotate {g} {v} (more {v = d} e c) p = (d, e, snoc (subst (λ z. Chain g d z) (sym p) c) e)

Grounded-acyclic : (g : Graph) (v : String) → Grounded g v → ¬ Chain g v v
Grounded-acyclic g v (grounded _ below) c =
    let (d, e, c') = rotate c refl in Grounded-acyclic g d (below d e.depends e.known) c'

-- How many of the keys are not being visited: a bound on the depth of the calls left.
unmarked : List String → List String → ℕ
unmarked [] xs = 0
unmarked (k ∷ ks) xs = (if contains xs k then 0 else 1) + unmarked ks xs

unmarked-cons : (ks xs : List String) (v : String) → unmarked ks (v ∷ xs) ≤ unmarked ks xs
unfolding unmarked
unmarked-cons [] xs v = omega arith
unmarked-cons (k ∷ ks) xs v = ground (arith, unmarked-cons ks xs v)

unmarked-lt :
    (ks xs : List String) (v : String)
    → v ∈ ks
    → contains xs v ≡ false
    → unmarked ks (v ∷ xs) < unmarked ks xs
unfolding unmarked
unmarked-lt [] xs v i e = absurd_eq i
unmarked-lt (k ∷ ks) xs v i e =
    ground (arith, eq_iff k v, eq_iff v k, eq_refl v, unmarked-cons ks xs v, unmarked-lt ks xs v)

unmarked-le-length : (ks xs : List String) → unmarked ks xs ≤ length ks
unfolding unmarked
unmarked-le-length [] xs = omega arith
unmarked-le-length (k ∷ ks) xs = ground (arith, unmarked-le-length ks xs)

-- Every node that is being visited leads to `v`.
abbrev Leads : Graph → List String → String → Type 0
Leads g xs v = (u : String) → u ∈ xs → Chain g u v

abbrev FindsCycle : Graph → ℕ → (String → Marks → Bool × Marks) → Type 0
FindsCycle g n call =
    (d : String) (m : Marks)
    → d ∈ keys g
    → Leads g m.visiting d
    → unmarked (keys g) m.visiting < n
    → (call d m).0 ≡ true
    → Cycle g

module _ (g : Graph) (n : ℕ) (v : String) (known : v ∈ keys g)
    (finds : FindsCycle g n (visit g n)) where
  visit_all-Cycle :
      (ds : List String)
      → ((d : String) → d ∈ ds → d ∈ deps g v)
      → (m : Marks) → ((d : String) → Edge g v d → Leads g m.visiting d)
      → unmarked (keys g) m.visiting < n
      → (visit_all (visit g n) g ds m).0 ≡ true
      → Cycle g
  unfolding visit_all
  visit_all-Cycle [] sub m leads room = λ h. absurd_eq h
  visit_all-Cycle (x ∷ ds) sub m leads room = elim (Bool-cases (contains (keys g) x)) [
    | inr unknown ↦
        rw (visit_all-skip (visit g n) g x ds m unknown)
          (visit_all-Cycle ds (λ d i. sub d (ground arith)) m leads room)
    | inl here ↦
        let e : Edge g v x = record { depends = sub x (ground (arith, eq_refl x)); known = here } in
        elim (Bool-cases (visit g n x m).0) [
          | inl found ↦ λ h. finds x m here (leads x e) room found
          | inr clear ↦
              let s = (visit-Settles g n x m clear).0 in
              rw (visit_all-clear (visit g n) g x ds m here clear) (
                visit_all-Cycle ds (λ d i. sub d (ground arith)) (visit g n x m).1
                  (rw s.restored leads) (rw s.restored room))
        ]
  ]

leave-fst : (v : String) (r : Bool × Marks) → (leave v r).0 ≡ r.0
unfolding leave
leave-fst v (true, m) = refl
leave-fst v (false, m) = refl

-- With fuel for every node that is not yet being visited, `visit` reports only cycles.
visit-Cycle : (g : Graph) (n : ℕ) → FindsCycle g n (visit g n)
unfolding visit
visit-Cycle g zero d m known leads room h = absurd (omega arith)
visit-Cycle g (suc n) d m known leads room h = elim (Bool-cases (contains m.visiting d)) [
  | inl again ↦ (d, leads d again)
  | inr closed ↦ elim (Bool-cases (contains m.visited d)) [
    | inl seen ↦ absurd_eq (ground arith)
    | inr fresh ↦
        visit_all-Cycle g n d known (visit-Cycle g n) (deps g d) (λ x i. i)
          (record m { visiting = d ∷ m.visiting })
          (λ x e u i. elim (contains-cons d u m.visiting i) [
            | inl p ↦ subst (λ z. Chain g z x) (sym p) (one e)
            | inr j ↦ snoc (leads u j) e
          ])
          (omega (arith, unmarked-lt (keys g) m.visiting d known closed))
          (sym (leave-fst d _) ∙ rw (visit-fresh g n d m closed fresh) at h)
  ]
]

module _ (g : Graph) (n : ℕ) (k : String) (ks : List String) (m : Marks) where
  search_from-seen : k ∈ m.visited → search_from g n (k ∷ ks) m ≡ search_from g n ks m
  unfolding search_from
  search_from-seen e = ground arith

  search_from-clear :
      contains m.visited k ≡ false
      → (visit g n k m).0 ≡ false
      → search_from g n (k ∷ ks) m ≡ search_from g n ks (visit g n k m).1
  unfolding search_from
  search_from-clear e f = ground arith

  search_from-found :
      contains m.visited k ≡ false → (visit g n k m).0 ≡ true → search_from g n (k ∷ ks) m ≡ true
  unfolding search_from
  search_from-found e f = ground arith

abbrev AllGrounded : Graph → List String → Type 0
AllGrounded g ks = (k : String) → k ∈ ks → Grounded g k

AllGrounded-cons :
    (g : Graph) (k : String) (ks : List String)
    → Grounded g k
    → AllGrounded g ks
    → AllGrounded g (k ∷ ks)
AllGrounded-cons g k ks here rest x i = elim (contains-cons k x ks i) [
  | inl p ↦ subst (Grounded g) (sym p) here
  | inr j ↦ rest x j
]

search_from-false :
    (g : Graph) (n : ℕ) (ks : List String) (m : Marks)
    → IsSound g m
    → search_from g n ks m ≡ false
    → AllGrounded g ks
search_from-false g n [] m safe = λ h k i. absurd_eq i
search_from-false g n (x ∷ ks) m safe = elim (Bool-cases (contains m.visited x)) [
  | inl seen ↦
      rw (search_from-seen g n x ks m seen)
        λ h. AllGrounded-cons g x ks (safe x seen) (search_from-false g n ks m safe h)
  | inr fresh ↦ elim (Bool-cases (visit g n x m).0) [
    | inl found ↦ rw (search_from-found g n x ks m fresh found) (λ h. absurd_eq (sym h))
    | inr clear ↦
        let (s, here) = visit-Settles g n x m clear in
        rw (search_from-clear g n x ks m fresh clear) λ h.
          AllGrounded-cons g x ks (s.sound safe x here)
            (search_from-false g n ks (visit g n x m).1 (s.sound safe) h)
  ]
]

search_from-true :
    (g : Graph) (n : ℕ) (ks : List String) (m : Marks)
    → ((k : String) → k ∈ ks → k ∈ keys g)
    → m.visiting ≡ []
    → length (keys g) < n
    → search_from g n ks m ≡ true
    → Cycle g
unfolding search_from
search_from-true g n [] m sub idle room = λ h. absurd_eq h
search_from-true g n (x ∷ ks) m sub idle room = elim (Bool-cases (contains m.visited x)) [
  | inl seen ↦
      rw (search_from-seen g n x ks m seen)
        (search_from-true g n ks m (λ k i. sub k (ground arith)) idle room)
  | inr fresh ↦ elim (Bool-cases (visit g n x m).0) [
    | inl found ↦ λ h.
        visit-Cycle g n x m (sub x (ground (arith, eq_refl x))) (rw idle (λ u i. absurd_eq i))
          (omega (arith, unmarked-le-length (keys g) m.visiting)) found
    | inr clear ↦
        let s = (visit-Settles g n x m clear).0 in
        rw (search_from-clear g n x ks m fresh clear) (
          search_from-true g n ks (visit g n x m).1 (λ k i. sub k (ground arith))
            (s.restored ∙ idle) room)
  ]
]

-- Without a report every known node is grounded, so none lies on a cycle.
pub has_cycle-false : (g : Graph) → has_cycle g ≡ false → (k : String) → k ∈ keys g → Grounded g k
unfolding has_cycle
has_cycle-false g h =
    search_from-false g (suc (length (keys g))) (keys g) start (λ k i. absurd_eq i) h

last_known : {g : Graph} {u v : String} → Chain g u v → v ∈ keys g
last_known (one e) = e.known
last_known (more e c) = last_known c

-- The depth-first search reports a cycle exactly when some node depends on itself through a chain
-- of known dependencies; the fuel it is given always suffices.
pub has_cycle_iff : (g : Graph) → (has_cycle g ≡ true) ↔ Cycle g
unfolding has_cycle
has_cycle_iff g = (
  search_from-true g (suc (length (keys g))) (keys g) start (λ k i. i) refl (omega arith),
  λ (v, c). elim (Bool-cases (has_cycle g)) [
    | inl h ↦ h
    | inr h ↦ absurd (Grounded-acyclic g v (has_cycle-false g h v (last_known c)) c)
  ],
)

-- Without a cycle every known node is grounded.
pub acyclic-Grounded : (g : Graph) → ¬ Cycle g → (k : String) → k ∈ keys g → Grounded g k
acyclic-Grounded g no_cycle = elim (Bool-cases (has_cycle g)) [
  | inl h ↦ absurd (no_cycle ((has_cycle_iff g).0 h))
  | inr h ↦ has_cycle-false g h
]
