-- ===== src/Review/Findings.antt =====
-- What `_open_finding_counts` of vibe_guide/evidence.py counts.
use vibe_guide_automation.Common.{
  ℕ, suc, ◌+◌, ◌≤◌, String, Bool, true, false, not, ◌&&◌, Option, none, some, ◌≡◌, refl, sym, ap,
  ◌∙◌, subst, inl, inr, nat_eq, arith, Bool-cases, if◌then◌else◌,
}
use vibe_guide_automation.Json.{
  Members, Elements, no_element, element, object, array, text, int, bool, null,
}
use vibe_guide_automation.Review.{
  Severity, p0, p1, p2, observed, severity_of, status_of, is_status, spelled, Counts, Counted,
  malformed, counted, add, count_over, count_finding, open_finding_counts,
}

abbrev pub same_severity : Severity → Severity → Bool
same_severity p0 p0 = true
same_severity p1 p1 = true
same_severity p2 p2 = true
same_severity observed observed = true
same_severity _ _ = false

-- Whether a finding of this severity is open.
abbrev pub is_open_at : Severity → Option Severity → Bool → Bool
is_open_at s none resolved = false
is_open_at s (some t) resolved = same_severity s t && not resolved

-- How many findings of a severity are open.
abbrev pub open_at : Severity → Elements → ℕ
open_at s no_element = 0
open_at s (element (object f) fs) =
    let rest = open_at s fs in
    if is_open_at s (severity_of f) (spelled (status_of f) "resolved") then suc rest else rest
open_at s (element _ fs) = open_at s fs

abbrev pub number_of : Elements → ℕ
number_of no_element = 0
number_of (element v fs) = suc (number_of fs)

pub record IsCount (fs : Elements) (c : Counts) : Type 0 where
  pub right_p0 : c.at_p0 ≡ open_at p0 fs
  pub right_p1 : c.at_p1 ≡ open_at p1 fs
  pub right_p2 : c.at_p2 ≡ open_at p2 fs
  pub bounded : c.at_p0 + c.at_p1 + c.at_p2 ≤ number_of fs

counted-inj : {a b : Counts} → counted a ≡ counted b → a ≡ b
counted-inj h = cc

malformed-counted {ℓ} : {A : Type ℓ} {m : String} {c : Counts} → malformed m ≡ counted c → A
malformed-counted h = cc

-- A turn of the loop that counts.
record Turn (f : Members) (s : Severity) (rest : Counted) (c : Counts) : Type 0 where
  before : Counts
  counted_rest : rest ≡ counted before
  result : c ≡ (if spelled (status_of f) "resolved" then before else add s before)

over-Turn :
    (f : Members) (s : Severity) (b : Bool) (rest : Counted) (c : Counts)
    → spelled (status_of f) "resolved" ≡ b
    → count_over b s rest ≡ counted c
    → Turn f s rest c
over-Turn f s b (malformed m) c e h = malformed-counted h
over-Turn f s true (counted d) c e h = record {
  before = d;
  counted_rest = refl;
  result = sym (counted-inj h) ∙ rw e refl;
}
over-Turn f s false (counted d) c e h = record {
  before = d;
  counted_rest = refl;
  result = sym (counted-inj h) ∙ rw e refl;
}

count_finding-Turn :
    (f : Members) (s : Severity) (rest : Counted) (c : Counts)
    → count_finding f (some s) rest ≡ counted c
    → Turn f s rest c
count_finding-Turn f s rest c = elim (Bool-cases (is_status (status_of f))) [
  | inl e ↦ rw e (over-Turn f s _ rest c refl)
  | inr e ↦ rw e (λ h. malformed-counted h)
]

at_most_one_more : (a b n : ℕ) → b ≤ n → a ≤ suc b → a ≤ suc n
at_most_one_more a b n h i = omega arith

module _ (f : Members) (fs : Elements) (s : Severity) (resolved : Bool)
    (e : spelled (status_of f) "resolved" ≡ resolved) (g : severity_of f ≡ some s) where
  open_at-step :
      (t : Severity)
      → open_at t (element (object f) fs)
        ≡ (if same_severity t s && not resolved then suc (open_at t fs) else open_at t fs)
  open_at-step t = rw (e, g) refl

  -- The three counts after a turn, from what it adds to each.
  turn-IsCount :
      (d c : Counts)
      → IsCount fs d
      → c.at_p0 ≡ (if same_severity p0 s && not resolved then suc d.at_p0 else d.at_p0)
      → c.at_p1 ≡ (if same_severity p1 s && not resolved then suc d.at_p1 else d.at_p1)
      → c.at_p2 ≡ (if same_severity p2 s && not resolved then suc d.at_p2 else d.at_p2)
      → c.at_p0 + c.at_p1 + c.at_p2 ≤ suc (d.at_p0 + d.at_p1 + d.at_p2)
      → IsCount (element (object f) fs) c
  turn-IsCount d c i x y z b = record {
    right_p0 =
        x
        ∙ ap (λ n. if same_severity p0 s && not resolved then suc n else n) i.right_p0
        ∙ sym (open_at-step p0);
    right_p1 =
        y
        ∙ ap (λ n. if same_severity p1 s && not resolved then suc n else n) i.right_p1
        ∙ sym (open_at-step p1);
    right_p2 =
        z
        ∙ ap (λ n. if same_severity p2 s && not resolved then suc n else n) i.right_p2
        ∙ sym (open_at-step p2);
    bounded = at_most_one_more _ _ _ i.bounded b;
  }

add-IsCount :
    (f : Members) (fs : Elements) (s : Severity) (resolved : Bool) (d : Counts)
    → spelled (status_of f) "resolved" ≡ resolved
    → severity_of f ≡ some s
    → IsCount fs d
    → IsCount (element (object f) fs) (if resolved then d else add s d)
add-IsCount f fs p0 true d e g i = turn-IsCount f fs p0 true e g d d i refl refl refl (omega arith)
add-IsCount f fs p1 true d e g i = turn-IsCount f fs p1 true e g d d i refl refl refl (omega arith)
add-IsCount f fs p2 true d e g i = turn-IsCount f fs p2 true e g d d i refl refl refl (omega arith)
add-IsCount f fs observed true d e g i =
    turn-IsCount f fs observed true e g d d i refl refl refl (omega arith)
add-IsCount f fs p0 false d e g i =
    turn-IsCount f fs p0 false e g d (add p0 d) i refl refl refl (omega arith)
add-IsCount f fs p1 false d e g i =
    turn-IsCount f fs p1 false e g d (add p1 d) i refl refl refl (omega arith)
add-IsCount f fs p2 false d e g i =
    turn-IsCount f fs p2 false e g d (add p2 d) i refl refl refl (omega arith)
add-IsCount f fs observed false d e g i =
    turn-IsCount f fs observed false e g d d i refl refl refl (omega arith)

finding-IsCount :
    (f : Members) (fs : Elements) (o : Option Severity) (rest : Counted) (c : Counts)
    → severity_of f ≡ o
    → ((d : Counts) → rest ≡ counted d → IsCount fs d)
    → count_finding f o rest ≡ counted c
    → IsCount (element (object f) fs) c
finding-IsCount f fs none rest c g i h = malformed-counted h
finding-IsCount f fs (some s) rest c g i h =
    let t = count_finding-Turn f s rest c h in
    subst (IsCount (element (object f) fs)) (sym t.result)
      (add-IsCount f fs s _ t.before refl g (i t.before t.counted_rest))

-- What is counted is right: each count is the number of the open findings of its severity, and
-- together they are no more than the findings.
pub open_finding_counts-IsCount :
    (fs : Elements) (c : Counts) → open_finding_counts fs ≡ counted c → IsCount fs c
unfolding open_finding_counts
open_finding_counts-IsCount no_element c h =
    subst (IsCount no_element) (counted-inj h)
      (record { right_p0 = refl; right_p1 = refl; right_p2 = refl; bounded = omega arith })
open_finding_counts-IsCount (element (object f) fs) c h =
    finding-IsCount f fs (severity_of f) (open_finding_counts fs) c refl
      (open_finding_counts-IsCount fs) h
open_finding_counts-IsCount (element (array v) fs) c h = malformed-counted h
open_finding_counts-IsCount (element (text v) fs) c h = malformed-counted h
open_finding_counts-IsCount (element (int v) fs) c h = malformed-counted h
open_finding_counts-IsCount (element (bool v) fs) c h = malformed-counted h
open_finding_counts-IsCount (element null fs) c h = malformed-counted h

-- No finding of P0, P1 or P2 is open.
abbrev pub are_resolved : Elements → Bool
are_resolved fs = nat_eq (open_at p0 fs) 0 && nat_eq (open_at p1 fs) 0 && nat_eq (open_at p2 fs) 0
