-- ===== src/Lease/Samples.antt =====
-- Two runs that claim one worktree, and the theorems about the leases of vibe_guide/state.py there.
use vibe_guide_automation.Common.{String, true, false, some, [], ◌≡◌, refl, ◌==◌, ◌&&◌}
use vibe_guide_automation.Lease.{
  Store, Claim, PathKey, IdentityKey, is_on, payload, acquire_writer_lease, quarantine_writer_lease,
  release_writer_lease,
}
use vibe_guide_automation.Lease.Exclusion.{acquire_writer_lease-Owns, acquire_writer_lease-refused}
use vibe_guide_automation.Lease.Again.{release_writer_lease_clears}
use vibe_guide_automation.Json.{has_text}
use vibe_guide_automation.Lease.Read.{
  observation, IsHeldFor, IsSeen, read_writer_lease, read_writer_lease-acquire,
  read_writer_lease-IsHeldFor,
}
use vibe_guide_automation.Lease.Reach.{
  IsWellFormed, empty, operated, acquires, quarantines, Reachable-IsWellFormed,
}

abbrev name : PathKey → String
name (PathKey.legacy node worktree) = "legacy"
name (PathKey.bound node worktree role generation intent) = intent

abbrev identity : IdentityKey → String
identity _ = "id"

abbrev redact : String → String
redact s = s

abbrev claim : String → String → Claim
claim run intent = record {
  node_id = "n";
  worktree = "w";
  run_id = run;
  intent_digest = some intent;
  role = some "developer";
  generation = some 1;
}

abbrev first : Claim
first = claim "r1" "i1"

abbrev second : Claim
second = claim "r2" "i2"

abbrev held : Store
held = (acquire_writer_lease name identity first []).1

abbrev quarantined : Store
quarantined = (quarantine_writer_lease name redact "n" "w" "r1" "silent" held).1

granted_first : (acquire_writer_lease name identity first []).0 ≡ true
unfolding acquire_writer_lease
granted_first = refl

refused_second : (acquire_writer_lease name identity second quarantined).0 ≡ false
unfolding acquire_writer_lease quarantine_writer_lease
refused_second = refl

acquire_writer_lease-Owns_example : (payload name identity first).run_id ≡ "r1"
unfolding acquire_writer_lease
acquire_writer_lease-Owns_example =
    acquire_writer_lease-Owns name identity first [] refl "i1" (payload name identity first) refl
      refl refl

acquire_writer_lease-refused_example : (acquire_writer_lease name identity second held).1 ≡ held
unfolding acquire_writer_lease
acquire_writer_lease-refused_example = acquire_writer_lease-refused name identity second held refl

Reachable-IsWellFormed_example : IsWellFormed quarantined
Reachable-IsWellFormed_example =
    Reachable-IsWellFormed name identity redact quarantined
      (operated (operated empty (acquires first)) (quarantines "n" "w" "r1" "silent"))

-- A third claim, on another node, stays when the first run releases.
abbrev third : Claim
third = record second { node_id = "m" }

abbrev both : Store
both = (acquire_writer_lease name identity third held).1

release_writer_lease_clears_example :
    (is_on "n" "w" (payload name identity third) && (payload name identity third).run_id == "r1")
    ≡ false
unfolding acquire_writer_lease release_writer_lease
release_writer_lease_clears_example =
    release_writer_lease_clears name "n" "w" "r1" both refl "i2" (payload name identity third) refl

read_writer_lease-acquire_example :
    read_writer_lease name identity first held
    ≡ some (observation name identity (payload name identity first))
unfolding acquire_writer_lease has_text
read_writer_lease-acquire_example = read_writer_lease-acquire name identity first [] refl refl

read_writer_lease-IsHeldFor_example :
    IsHeldFor name identity first (payload name identity first)
    × IsSeen name identity
        (payload name identity first)
        (observation name identity (payload name identity first))
unfolding acquire_writer_lease read_writer_lease has_text
read_writer_lease-IsHeldFor_example =
    read_writer_lease-IsHeldFor name identity first held (payload name identity first)
      (observation name identity (payload name identity first)) refl refl
