-- ===== src/Delivery/Samples.antt =====
-- A small run with a delivery ring, and the theorems about vibe_guide/remote_delivery.py at it.
use vibe_guide_automation.Common.{
  String, Bool, true, false, Option, none, some, List, [], ◌∷◌, ◌++◌, ◌≡◌, ◌↔◌, refl, ◌⊎◌, arith,
}
use vibe_guide_automation.Json.{Value, no_member, member, text}
use vibe_guide_automation.Delivery.{
  Step, RunStatus, Remote, Facts, StepRecord, get_step, DigestBinding, EvidenceStatus, Evidence,
  RunNode, Snapshot, github_review,
}
use vibe_guide_automation.Delivery.Binding.{delivery_binding, is_digest}
use vibe_guide_automation.Delivery.Engine.{
  facts, status_accepted, is_succeeded, initial_evidence, context_from_evidence,
}
use vibe_guide_automation.Delivery.Validate.{validate_remote_delivery_evidence}
use vibe_guide_automation.Delivery.Validate.Sound.{
  IsSound, validate_remote_delivery_evidence-IsSound,
}
use vibe_guide_automation.Delivery.Engine.Drive.{Executor, drive_remote_delivery}
use vibe_guide_automation.Delivery.Engine.Drive.Rounds.{IsConfirmed}
use vibe_guide_automation.Delivery.Engine.Drive.Accept.{
  IsDelivered, drive_remote_delivery-IsDelivered,
}
use vibe_guide_automation.Delivery.Engine.Drive.Lineage.{
  drive_remote_delivery-kept, drive_remote_delivery-drifted,
}
use vibe_guide_automation.Delivery.Engine.Drive.Settle.{
  IsOpen, IsSettled, drive_remote_delivery-IsSettled, drive_remote_delivery-IsOpen,
  drive_remote_delivery-resumed,
}

abbrev sha : String
sha = "0123456789abcdef0123456789abcdef0123456789abcdef0123456789abcdef"

abbrev digest : Value → String
digest _ = sha

abbrev no_remote : Remote
no_remote = record {
  source_branch = none;
  target_branch = none;
  head_sha = none;
  pr_url = none;
  pr_number = none;
  merge_commit = none;
}

-- What the executor answers to every step: an approval, and a confirmation or none.
abbrev answer : Bool → Facts
answer verified = record {
  remote = no_remote;
  approved = true;
  changes_requested = false;
  review_protection = none;
  requested_reviewers = [];
  verified = verified;
  main_head_sha = "";
  pr_state = "MERGED";
}

-- The outside world is the list of the steps that have run.
abbrev executor : Bool → Executor (List Step)
executor verified log step context = (log ++ step ∷ [], facts (answer verified))

abbrev node : RunStatus → RunNode
node status = record { status = status; branch = "b"; failure = none; waiting_on = none }

abbrev run : Option String → Option RunNode → Option Evidence → Snapshot
run switch delivery evidence = record {
  run_id = "r";
  plan_id = "p";
  remote_git_actions = switch;
  authorization_digest = sha;
  node_contract_digest = sha;
  topology_digest = sha;
  integration_review_evidence = member "verdict" (text "accepted") no_member;
  integration = some (node RunStatus.accepted);
  delivery = delivery;
  others = [];
  evidence = evidence;
}

abbrev new_run : Snapshot
new_run = run (some "allow") none none

-- The evidence after a call whose verification did not confirm the merge.
abbrev done_step : Bool → Option StepRecord
done_step verified = some (record { status = "succeeded"; facts = answer verified })

abbrev unconfirmed : Option DigestBinding → Evidence
unconfirmed binding = record {
  schema_version = 1;
  run_id = "r";
  status = EvidenceStatus.blocked_unknown;
  binding = binding;
  remote = record no_remote { source_branch = some ""; target_branch = some "main" };
  steps = record {
    at_prepare = done_step false;
    at_push = done_step false;
    at_create_pr = done_step false;
    at_review = done_step false;
    at_merge = done_step false;
    at_verify = done_step false;
  };
  binding_drifted = false;
  review_basis = some github_review;
  waiting_on = none;
  remote_verification =
      some
        (record { verified = false; main_head_sha = ""; merge_commit = ""; pr_state = "MERGED" });
}

abbrev bound : Evidence
bound = unconfirmed (some (delivery_binding digest new_run))

-- A run whose delivery has been blocked by that call, and one with evidence bound to nothing.
abbrev blocked_run : Snapshot
blocked_run = run (some "allow") (some (node RunStatus.blocked_unknown)) (some bound)

abbrev unbound : Evidence
unbound = unconfirmed none

abbrev drifted_run : Snapshot
drifted_run = run (some "allow") (some (node RunStatus.accepted)) (some unbound)

first_call :
    (drive_remote_delivery (executor false) digest [] new_run).snapshot.evidence ≡ some bound
unfolding drive_remote_delivery is_digest initial_evidence context_from_evidence
first_call = refl

drive_remote_delivery-IsDelivered_example :
    (e : Evidence) × ((drive_remote_delivery (executor true) digest [] new_run).snapshot.evidence
      ≡ some e)
    × IsDelivered (delivery_binding digest new_run) new_run e
unfolding drive_remote_delivery is_digest initial_evidence
drive_remote_delivery-IsDelivered_example =
    drive_remote_delivery-IsDelivered (executor true) digest [] new_run
      (λ e p. absurd (ground arith)) refl refl

drive_remote_delivery-drifted_example :
    (e : Evidence) × ((drive_remote_delivery
        (executor true)
        digest
        []
        drifted_run).snapshot.evidence
      ≡ some e)
    × (e.review_basis ≡ some github_review)
    × IsConfirmed e
    × (e.binding ≡ some (delivery_binding digest drifted_run))
unfolding drive_remote_delivery is_digest initial_evidence
drive_remote_delivery-drifted_example =
    drive_remote_delivery-drifted (executor true) digest [] drifted_run unbound refl refl refl refl

drive_remote_delivery-kept_example :
    (e : Evidence) × ((drive_remote_delivery
        (executor true)
        digest
        []
        blocked_run).snapshot.evidence
      ≡ some e)
    × ((a : Step)
        → is_succeeded (get_step bound.steps a) ≡ true
        → get_step e.steps a ≡ get_step bound.steps a)
unfolding drive_remote_delivery is_digest initial_evidence
drive_remote_delivery-kept_example =
    drive_remote_delivery-kept (executor true) digest [] blocked_run bound refl refl refl refl

drive_remote_delivery-IsSettled_example : IsSettled (node RunStatus.accepted)
unfolding drive_remote_delivery is_digest initial_evidence
drive_remote_delivery-IsSettled_example =
    drive_remote_delivery-IsSettled (executor true) digest [] blocked_run refl
      (node RunStatus.accepted) refl

drive_remote_delivery-IsOpen_example :
    IsOpen (delivery_binding digest new_run) new_run
    ⊎ ((drive_remote_delivery (executor true) digest [] new_run).world ≡ [])
drive_remote_delivery-IsOpen_example =
    drive_remote_delivery-IsOpen (executor true) digest [] new_run

drive_remote_delivery-resumed_example :
    ((drive_remote_delivery (executor false) digest [] blocked_run).world ≡ [])
    × (status_accepted
          (drive_remote_delivery (executor false) digest [] blocked_run).snapshot.delivery
        ≡ true)
    × ((drive_remote_delivery (executor false) digest [] blocked_run).snapshot.evidence
        ≡ some (record bound { status = EvidenceStatus.accepted }))
unfolding is_digest
drive_remote_delivery-resumed_example =
    drive_remote_delivery-resumed (executor false) digest [] blocked_run
      (node RunStatus.blocked_unknown) bound
      (record { allowed = refl; integrated = refl; lineage = refl }) refl refl refl refl
      (refl, (refl, (refl, (refl, (refl, (refl, tt))))))

-- The blocked run's evidence is not yet of a merge, and still sound: it is not accepted.
validate_remote_delivery_evidence-IsSound_example :
    (validate_remote_delivery_evidence blocked_run bound ≡ none) ↔ IsSound blocked_run bound
validate_remote_delivery_evidence-IsSound_example =
    validate_remote_delivery_evidence-IsSound blocked_run bound
