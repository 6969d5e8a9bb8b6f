-- ===== src/Review/Closeout/Passed.antt =====
-- What a package that passes the checks of vibe_guide/evidence.py has, and how its record stands in
-- the run.
use vibe_guide_automation.Common.{
  ℕ, String, Bool, true, false, ◌&&◌, Option, none, some, List, [], ◌∷◌, ◌++◌, ◌==◌, ◌≡◌, refl, sym,
  ap, ◌∙◌, subst, inl, inr, nat_eq, arith, Bool-cases, if◌then◌else◌, absurd_eq, and-both,
  none-some, contains, all_of, All, eq_iff,
}
use vibe_guide_automation.Json.{
  pos, negsuc, Members, no_member, member, Value, object, array, text, int, bool, null, get_member,
}
use vibe_guide_automation.Delivery.Binding.{without_history}
use vibe_guide_automation.Review.{
  clearance_checks, or_error, Counts, Counted, malformed, counted, open_finding_counts, Run,
  numbers, get_in, first_failure, has_keys, member_keys, package_keys, is_count, clearance_shaped,
  shape_checks, lineage_checks, content_checks, findings_of, matches, review_error,
}
use vibe_guide_automation.Review.Findings.{open_finding_counts-IsCount, are_resolved}
use vibe_guide_automation.Review.Closeout.{set_member, is_cleared}

abbrev Passing : List (Bool × String) → Type 0
Passing checks = All (λ (check : Bool × String). check.0 ≡ true) checks

first_failure-Passing :
    (checks : List (Bool × String)) → first_failure checks ≡ none → Passing checks
first_failure-Passing [] h = tt
first_failure-Passing ((true, m) ∷ checks) h = (refl, first_failure-Passing checks h)
first_failure-Passing ((false, m) ∷ checks) h = none-some (sym h)

All-right {ℓ κ} : {A : Type ℓ} (P : A → Type κ) (xs ys : List A) → All P (xs ++ ys) → All P ys
All-right P [] ys h = h
All-right P (x ∷ xs) ys h = All-right P xs ys h.1

-- What the checks of a package show of it.
pub record Passed (e : Members) : Type 0 where
  pub keyed : has_keys package_keys e ≡ true
  pub shaped : clearance_shaped (get_member e "clearance") ≡ true
  pub counts : Counts
  pub are_counted : open_finding_counts (findings_of (get_member e "findings")) ≡ counted counts
  pub at_p0 : numbers (get_in (get_member e "clearance") "p0") counts.at_p0 ≡ true
  pub at_p1 : numbers (get_in (get_member e "clearance") "p1") counts.at_p1 ≡ true
  pub at_p2 : numbers (get_in (get_member e "clearance") "p2") counts.at_p2 ≡ true

record Matched (clearance : Option Value) (o : Counted) : Type 0 where
  counts : Counts
  are : o ≡ counted counts
  at_p0 : numbers (get_in clearance "p0") counts.at_p0 ≡ true
  at_p1 : numbers (get_in clearance "p1") counts.at_p1 ≡ true
  at_p2 : numbers (get_in clearance "p2") counts.at_p2 ≡ true

matches-Matched :
    (clearance : Option Value) (o : Counted) → matches clearance o ≡ none → Matched clearance o
matches-Matched clearance (malformed m) h = none-some (sym h)
matches-Matched clearance (counted c) h =
    let p = first_failure-Passing (clearance_checks clearance c) h in
    record { counts = c; are = refl; at_p0 = p.0; at_p1 = p.1.0; at_p2 = p.1.1.0 }

or_error-none : (a b : Option String) → or_error a b ≡ none → (a ≡ none) × (b ≡ none)
or_error-none none b h = (refl, h)
or_error-none (some m) b h = none-some (sym h)

pub review_error-Passed : (r : Run) (e : Members) → review_error r e ≡ none → Passed e
unfolding review_error
review_error-Passed r e h =
    let (shape, match) = or_error-none _ _ h in
    let p = first_failure-Passing (shape_checks r e) shape in
    let content =
      All-right (λ (check : Bool × String). check.0 ≡ true) (lineage_checks r e)
        (content_checks r e) p.1 in
    let m = matches-Matched (get_member e "clearance") _ match in
    record {
      keyed = (and-both _ _ p.0).0;
      shaped = content.1.1.1.1.1.1.1.1.1.1.1.1.1.1.1.0;
      counts = m.counts;
      are_counted = m.are;
      at_p0 = m.at_p0;
      at_p1 = m.at_p1;
      at_p2 = m.at_p2;
    }

numbers-zero :
    (v : Option Value) (n : ℕ) → is_count v ≡ true → numbers v n ≡ true → numbers v 0 ≡ nat_eq n 0
numbers-zero none n h i = absurd_eq h
numbers-zero (some (int (pos k))) n h i = ground arith
numbers-zero (some (int (negsuc k))) n h i = absurd_eq h
numbers-zero (some (object v)) n h i = absurd_eq h
numbers-zero (some (array v)) n h i = absurd_eq h
numbers-zero (some (text v)) n h i = absurd_eq h
numbers-zero (some (bool v)) n h i = absurd_eq h
numbers-zero (some null) n h i = absurd_eq h

is_cleared-counts :
    (clearance : Option Value) (c : Counts)
    → clearance_shaped clearance ≡ true
    → numbers (get_in clearance "p0") c.at_p0 ≡ true
    → numbers (get_in clearance "p1") c.at_p1 ≡ true
    → numbers (get_in clearance "p2") c.at_p2 ≡ true
    → is_cleared clearance ≡ (nat_eq c.at_p0 0 && nat_eq c.at_p1 0 && nat_eq c.at_p2 0)
is_cleared-counts none c h x y z = absurd_eq h
is_cleared-counts (some (object m)) c h x y z =
    let (h, k2) = and-both _ (is_count (get_member m "p2")) h in
    let (h, k1) = and-both _ (is_count (get_member m "p1")) h in
    let (h, k0) = and-both _ (is_count (get_member m "p0")) h in
    rw
      (
        numbers-zero (get_member m "p0") c.at_p0 k0 x,
        numbers-zero (get_member m "p1") c.at_p1 k1 y,
        numbers-zero (get_member m "p2") c.at_p2 k2 z,
      )
      refl
is_cleared-counts (some (array v)) c h x y z = absurd_eq h
is_cleared-counts (some (text v)) c h x y z = absurd_eq h
is_cleared-counts (some (int v)) c h x y z = absurd_eq h
is_cleared-counts (some (bool v)) c h x y z = absurd_eq h
is_cleared-counts (some null) c h x y z = absurd_eq h

-- The clearance of a package that passes is zero just where no P0, P1 or P2 finding is open.
pub is_cleared-Passed :
    (e : Members)
    → Passed e
    → is_cleared (get_member e "clearance") ≡ are_resolved (findings_of (get_member e "findings"))
is_cleared-Passed e p =
    let i = open_finding_counts-IsCount _ p.counts p.are_counted in
    is_cleared-counts (get_member e "clearance") p.counts p.shaped p.at_p0 p.at_p1 p.at_p2
    ∙ rw (i.right_p0, i.right_p1, i.right_p2) refl

absent_later :
    (k : String) (ks : List String)
    → contains (k ∷ ks) "history" ≡ false
    → contains ks "history" ≡ false
absent_later k ks h = ground arith

set_member-history :
    (e : Members) (v : Value)
    → contains (member_keys e) "history" ≡ false
    → without_history (set_member e "history" v) ≡ e
set_member-history no_member v h = refl
set_member-history (member k x e) v h = elim (Bool-cases (k == "history")) [
  | inl i ↦ absurd (ground (arith))
  | inr i ↦
      rw i (rw i (ap (member k x) (set_member-history e v (absent_later k (member_keys e) h))))
]

-- A package has no history of its own.
keyed_alone :
    (ks : List String) → all_of (contains package_keys) ks ≡ true → contains ks "history" ≡ false
keyed_alone [] h = refl
keyed_alone (k ∷ ks) h =
    let (x, y) = and-both (contains package_keys k) _ h in
    elim (Bool-cases (k == "history")) [
      | inl e ↦ absurd_eq (subst (λ z. contains package_keys z ≡ true) ((eq_iff k "history").0 e) x)
      | inr e ↦ rw e (keyed_alone ks y)
    ]

pub Passed-no_history : (e : Members) → Passed e → contains (member_keys e) "history" ≡ false
Passed-no_history e p =
    keyed_alone (member_keys e)
      (and-both (all_of (contains (member_keys e)) package_keys) _ p.keyed).1

pub without_history-set :
    (e : Members) (v : Value) → Passed e → without_history (set_member e "history" v) ≡ e
without_history-set e v p = set_member-history e v (Passed-no_history e p)

other_key :
    (k key : String) → (k == "history") ≡ true → ("history" == key) ≡ false → (k == key) ≡ false
other_key k key i n = ground (arith, eq_iff k "history", eq_iff "history" key, eq_iff k key)

pub get_member-set :
    (e : Members) (v : Value) (key : String)
    → ("history" == key) ≡ false
    → get_member (set_member e "history" v) key ≡ get_member e key
unfolding get_member
get_member-set no_member v key n = rw n refl
get_member-set (member k x e) v key n = elim (Bool-cases (k == "history")) [
  | inl i ↦ rw i (rw (other_key k key i n) refl)
  | inr i ↦ rw i (ap (λ z. if k == key then some x else z) (get_member-set e v key n))
]
