-- ===== src/Dag/Graph/Settle.antt =====
-- What a `visit` that finds no cycle does to the two sets, and what it has then shown.
use vibe_guide_automation.Common.{
  ℕ, zero, suc, String, Bool, true, false, List, [], ◌∷◌, ◌≡◌, refl, ◌∙◌, arith, contains, ◌∈◌, ap,
  eq_refl, Bool-cases, contains-cons, inl, inr, absurd_eq, subst, sym,
}
use vibe_guide_automation.Common.Dict.{keys}
use vibe_guide_automation.Dag.Graph.{Graph, Marks, deps, remove, visit_all, leave, visit}

-- Every chain of dependencies from the node ends.
pub data Grounded (g : Graph) : String → Type 0 where
  grounded : (v : String) → ((d : String) → d ∈ deps g v → d ∈ keys g → Grounded g d) → Grounded g v

abbrev pub IsSound : Graph → Marks → Type 0
IsSound g m = (k : String) → k ∈ m.visited → Grounded g k

-- A call from `m` that found no cycle.
pub record Settled (g : Graph) (m : Marks) (r : Bool × Marks) : Type 0 where
  pub restored : r.1.visiting ≡ m.visiting
  pub grew : (k : String) → k ∈ m.visited → k ∈ r.1.visited
  pub sound : IsSound g m → IsSound g r.1

Settled-refl : (g : Graph) (m : Marks) → Settled g m (false, m)
Settled-refl g m = record { restored = refl; grew = λ k h. h; sound = λ h. h }

Settled-trans :
    (g : Graph) {m : Marks} {b : Bool} (r : Bool × Marks) (m' : Marks)
    → Settled g m (b, m')
    → Settled g m' r
    → Settled g m r
Settled-trans g r m' s t = record {
  restored = t.restored ∙ s.restored;
  grew = λ k h. t.grew k (s.grew k h);
  sound = λ h. t.sound (s.sound h);
}

remove-cons : (v : String) (xs : List String) → remove v (v ∷ xs) ≡ xs
remove-cons v xs = ground (arith, eq_refl v)

module _ (call : String → Marks → Bool × Marks) (g : Graph) (x : String) (ds : List String)
    (m : Marks) where
  pub visit_all-skip :
      contains (keys g) x ≡ false → visit_all call g (x ∷ ds) m ≡ visit_all call g ds m
  unfolding visit_all
  visit_all-skip e = ground arith

  pub visit_all-found : x ∈ keys g → (call x m).0 ≡ true → visit_all call g (x ∷ ds) m ≡ call x m
  unfolding visit_all
  visit_all-found e f = ground arith

  pub visit_all-clear :
      x ∈ keys g
      → (call x m).0 ≡ false
      → visit_all call g (x ∷ ds) m ≡ visit_all call g ds (call x m).1
  unfolding visit_all
  visit_all-clear e f = ground arith

-- What a call of `visit` shows of its node, and the loop of its list of nodes.
abbrev Settles : Graph → String → Marks → Bool × Marks → Type 0
Settles g v m r = r.0 ≡ false → Settled g m r × (v ∈ r.1.visited)

abbrev SettlesAll : Graph → List String → Marks → Bool × Marks → Type 0
SettlesAll g ds m r =
    r.0 ≡ false → Settled g m r × ((d : String) → d ∈ ds → d ∈ keys g → d ∈ r.1.visited)

module _ (call : String → Marks → Bool × Marks) (g : Graph)
    (each : (d : String) (m : Marks) → Settles g d m (call d m)) where
  visit_all-Settles : (ds : List String) (m : Marks) → SettlesAll g ds m (visit_all call g ds m)
  unfolding visit_all
  visit_all-Settles [] m = λ h. (Settled-refl g m, λ d i k. absurd_eq i)
  visit_all-Settles (x ∷ ds) m = elim (Bool-cases (contains (keys g) x)) [
    | inl known ↦ elim (Bool-cases (call x m).0) [
      | inl found ↦ rw (visit_all-found call g x ds m known found) (λ h. cc)
      | inr clear ↦ rw (visit_all-clear call g x ds m known clear) λ h.
          let (first, here) = each x m clear in
          let (rest, there) = visit_all-Settles ds (call x m).1 h in
          (
            Settled-trans g _ (call x m).1 first rest,
            λ d i k. elim (contains-cons x d ds i) [
              | inl e ↦ rest.grew d (subst (λ z. z ∈ (call x m).1.visited) (sym e) here)
              | inr j ↦ there d j k
            ],
          )
    ]
    | inr unknown ↦ rw (visit_all-skip call g x ds m unknown) λ h.
        let (rest, there) = visit_all-Settles ds m h in
        (
          rest,
          λ d i k. elim (contains-cons x d ds i) [ inl e ↦ absurd_eq (cc) | inr j ↦ there d j k ],
        )
  ]

leave-Settles :
    (g : Graph) (v : String) (m : Marks) (r : Bool × Marks)
    → SettlesAll g (deps g v) (record m { visiting = v ∷ m.visiting }) r
    → Settles g v m (leave v r)
unfolding leave
leave-Settles g v m (true, m') all h = absurd_eq (sym h)
leave-Settles g v m (false, m') all h =
    let (s, there) = all refl in
    (
      record {
        restored = ap (remove v) s.restored ∙ remove-cons v m.visiting;
        grew = λ k i. ground (arith, s.grew k i);
        sound = λ safe k i. elim (contains-cons v k m'.visited i) [
          | inl e ↦ subst (Grounded g) (sym e) (grounded v (λ d j n. s.sound safe d (there d j n)))
          | inr j ↦ s.sound safe k j
        ];
      },
      ground (arith, eq_refl v),
    )

visit-seen :
    (g : Graph) (n : ℕ) (v : String) (m : Marks)
    → contains m.visiting v ≡ false
    → v ∈ m.visited
    → visit g (suc n) v m ≡ (false, m)
unfolding visit
visit-seen g n v m e f = ground arith

pub visit-fresh :
    (g : Graph) (n : ℕ) (v : String) (m : Marks)
    → contains m.visiting v ≡ false
    → contains m.visited v ≡ false
    → visit g (suc n) v m
      ≡ leave v (visit_all (visit g n) g (deps g v) (record m { visiting = v ∷ m.visiting }))
unfolding visit
visit-fresh g n v m e f = ground arith

-- A `visit` that finds no cycle restores `visiting`, forgets nothing, and has settled its node.
pub visit-Settles : (g : Graph) (n : ℕ) (v : String) (m : Marks) → Settles g v m (visit g n v m)
unfolding visit
visit-Settles g zero v m = λ h. absurd_eq (sym h)
visit-Settles g (suc n) v m = elim (Bool-cases (contains m.visiting v)) [
  | inl open_node ↦ λ h. ground arith
  | inr closed ↦ elim (Bool-cases (contains m.visited v)) [
    | inl seen ↦ rw (visit-seen g n v m closed seen) (λ h. (Settled-refl g m, seen))
    | inr fresh ↦
        rw (visit-fresh g n v m closed fresh)
          (leave-Settles g v m _ (visit_all-Settles (visit g n) g (visit-Settles g n) (deps g v) _))
  ]
]
