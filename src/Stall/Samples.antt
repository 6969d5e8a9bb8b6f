-- ===== src/Stall/Samples.antt =====
-- A run at which the theorems about vibe_guide/stall.py are used.
use vibe_guide_automation.Common.{
  ℕ, ◌+◌, ◌≤◌, String, true, false, none, List, [], ◌∷◌, ◌≡◌, ◌↔◌, refl,
}
use vibe_guide_automation.Json.{Value, text, object, no_member, member}
use vibe_guide_automation.Stall.{Tier, assess_stalls, result_of}
use vibe_guide_automation.Stall.Beats.{
  Sight, after, run_length, least_attempts, after-run_length, result_of-after,
}
use vibe_guide_automation.Stall.Each.{IsRecorded, assess_stalls-each}

abbrev digest : Value → String
digest _ = "f"

abbrev nodes : List (String × Value)
nodes =
    ("a", object (member "status" (text "accepted") no_member))
    ∷ ("b", object (member "status" (text "running") no_member))
    ∷ []

abbrev heal : Value
heal = object (member "event" (text "self_heal_attempt") (member "node_id" (text "b") no_member))

abbrev events : List Value
events = heal ∷ heal ∷ []

abbrev sight : ℕ → Sight
sight n = record { fingerprint = "f"; attempts = n; signal = none }

after-run_length_example :
    (after (sight 2) (sight 1 ∷ sight 0 ∷ [])).unchanged_beats
    ≡ run_length (sight 2) (sight 1 ∷ sight 0 ∷ [])
after-run_length_example = after-run_length (sight 2) (sight 1 ∷ sight 0 ∷ [])

result_of-after_example :
    let r = result_of false (after (sight 2) (sight 1 ∷ sight 0 ∷ [])) 2 in
    let n = run_length (sight 2) (sight 1 ∷ sight 0 ∷ []) in
    let k = least_attempts (sight 2) (sight 1 ∷ sight 0 ∷ []) in
    ((r.tier ≡ Tier.auto_retry) ↔ (n ≤ 2))
    × ((r.tier ≡ Tier.escalate_to_pm) ↔ ((3 ≤ n) × (k + 2 ≤ 2)))
    × ((r.stalled ≡ true) ↔ (3 ≤ n))
    × (r.attempts_since_change + k ≡ 2)
result_of-after_example = result_of-after (sight 2) (sight 1 ∷ sight 0 ∷ [])

assess_stalls-each_example :
    IsRecorded digest nodes none events none [] "b" (assess_stalls digest nodes none events none [])
assess_stalls-each_example =
    assess_stalls-each digest nodes none events none [] "b" (refl, (refl, tt))
