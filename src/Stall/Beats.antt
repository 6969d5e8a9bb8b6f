-- ===== src/Stall/Beats.antt =====
-- One node over a sequence of beats, for vibe_guide/stall.py.
use vibe_guide_automation.Common.{
  ℕ, ◌+◌, ◌-◌, ◌≤◌, min, String, Bool, true, false, not, ◌&&◌, Option, none, some, List, [], ◌∷◌,
  ◌≡◌, ◌↔◌, inl, inr, refl, ◌==◌, arith, if◌then◌else◌, Bool-cases, leb,
}
use vibe_guide_automation.Stall.{Entry, Tier, has_moved, next_entry, result_of, tier_of}

-- What a beat sees of a node: its fingerprint, the attempts so far and the worker's token.
pub record Sight : Type 0 where
  pub fingerprint : String
  pub attempts : ℕ
  pub signal : Option String

-- The entry after a sequence of beats, the last beat first.
pub after : Sight → List Sight → Entry
after s [] = next_entry none s.fingerprint s.attempts s.signal
after s (t ∷ ts) = next_entry (some (after t ts)) s.fingerprint s.attempts s.signal

-- Nothing has changed between a beat and the one before it.
abbrev pub is_still : Sight → Sight → Bool
is_still s t = t.fingerprint == s.fingerprint && not (has_moved t.signal s.signal)

-- How many beats in a row, up to the last, have seen the node unchanged.
abbrev pub run_length : Sight → List Sight → ℕ
run_length s [] = 1
run_length s (t ∷ ts) = let rest = run_length t ts in if is_still s t then rest + 1 else 1

-- The attempts at the first beat of that row, or the fewest of a later one.
abbrev pub least_attempts : Sight → List Sight → ℕ
least_attempts s [] = s.attempts
least_attempts s (t ∷ ts) =
    let rest = least_attempts t ts in if is_still s t then min rest s.attempts else s.attempts

record IsAfter (s : Sight) (ts : List Sight) (e : Entry) : Type 0 where
  fingerprint : e.fingerprint ≡ s.fingerprint
  liveness : e.liveness ≡ s.signal
  beats : e.unchanged_beats ≡ run_length s ts
  baseline : e.attempts_baseline ≡ least_attempts s ts

IsAfter-next :
    (s t : Sight) (ts : List Sight) (e : Entry)
    → IsAfter t ts e
    → IsAfter s (t ∷ ts) (next_entry (some e) s.fingerprint s.attempts s.signal)
unfolding next_entry
IsAfter-next s t ts e i =
    let same : (e.fingerprint == s.fingerprint && not (has_moved e.liveness s.signal))
        ≡ is_still s t =
      rw (i.fingerprint, i.liveness) refl in
    elim (Bool-cases (is_still s t)) [
      | inl y ↦
          rw (same, y)
            (record {
              fingerprint = refl;
              liveness = refl;
              beats = rw (y, i.beats) refl;
              baseline = rw (y, i.baseline) refl;
            })
      | inr y ↦
          rw (same, y)
            (record {
              fingerprint = refl;
              liveness = refl;
              beats = rw y refl;
              baseline = rw y refl;
            })
    ]

after-IsAfter : (s : Sight) (ts : List Sight) → IsAfter s ts (after s ts)
unfolding after next_entry
after-IsAfter s [] = record { fingerprint = refl; liveness = refl; beats = refl; baseline = refl }
after-IsAfter s (t ∷ ts) = IsAfter-next s t ts (after t ts) (after-IsAfter t ts)

-- After any sequence of beats the counter is the number of beats in a row, up to the last, that have
-- seen the node unchanged.
pub after-run_length :
    (s : Sight) (ts : List Sight) → (after s ts).unchanged_beats ≡ run_length s ts
after-run_length s ts = (after-IsAfter s ts).beats

least_attempts_le : (s : Sight) (ts : List Sight) → least_attempts s ts ≤ s.attempts
least_attempts_le s [] = omega arith
least_attempts_le s (t ∷ ts) = ground arith

tier_of-cases :
    (n k total : ℕ)
    → k ≤ total
    → ((tier_of n (total - k) ≡ Tier.auto_retry) ↔ (n ≤ 2))
      × ((tier_of n (total - k) ≡ Tier.escalate_to_pm) ↔ ((3 ≤ n) × (k + 2 ≤ total)))
      × ((leb 3 n ≡ true) ↔ (3 ≤ n))
      × ((total - k) + k ≡ total)
tier_of-cases n k total h = ground arith

-- After any sequence of beats a node is only retried while it has been unchanged for at most two
-- beats in a row; from the third on it is stalled, and it goes to a human exactly when two attempts
-- were made since the least count in that row. The attempts since the change are exact.
pub result_of-after :
    (s : Sight) (ts : List Sight)
    → let r = result_of false (after s ts) s.attempts in
      ((r.tier ≡ Tier.auto_retry) ↔ (run_length s ts ≤ 2))
      × ((r.tier ≡ Tier.escalate_to_pm)
          ↔ ((3 ≤ run_length s ts) × (least_attempts s ts + 2 ≤ s.attempts)))
      × ((r.stalled ≡ true) ↔ (3 ≤ run_length s ts))
      × (r.attempts_since_change + least_attempts s ts ≡ s.attempts)
result_of-after s ts =
    let i = after-IsAfter s ts in
    let b = i.beats in
    let a = i.baseline in
    let m = least_attempts_le s ts in
    rw (b, a) (tier_of-cases (run_length s ts) (least_attempts s ts) s.attempts m)
