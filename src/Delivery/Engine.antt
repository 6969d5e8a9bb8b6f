-- ===== src/Delivery/Engine.antt =====
-- `drive_remote_delivery` of vibe_guide/remote_delivery.py. The executor is the abstract class
-- `RemoteDeliveryExecutor`: a function of the outside world, the step and the context, which
-- returns facts, no facts, or raises `RemoteDeliveryFailed`. The stored evidence and the local
-- variable `evidence` are one object in the program, so what is stored is the last value of it.
-- The delivery report is a file for people and is left out.
pub mod Drive
use vibe_guide_automation.Common.{
  String, Bool, true, false, not, ◌&&◌, Option, none, some, List, [], ◌∷◌, ◌++◌, ◌==◌, is_some,
  or_else, if◌then◌else◌, keep,
}
use vibe_guide_automation.Json.{has_text}
use vibe_guide_automation.Delivery
use vibe_guide_automation.Delivery.{
  Step, review, verify, all_steps, RunStatus, planned, running, Remote, Facts, StepRecord, Steps,
  no_steps, get_step, set_step, DigestBinding, EvidenceStatus, github_review,
  integration_review_evidence, waiting_for_github_review, Evidence, lineage_incomplete, no_facts,
  waiting_for_review, not_confirmed, Reason, Failure, RunNode, Snapshot, Context, Event, retired,
  appended, evidence_invalidated, rework_requested, delivery_accepted, step_completed,
  delivery_failed, Verification,
}
use vibe_guide_automation.Delivery.Binding.{
  remote_delivery_required, delivery_binding, binding_matches, is_digest,
}

pub data Outcome : Type 0 where
  facts : Facts → Outcome
  nothing : Outcome
  raises : Failure → Outcome

-- record.get("status") == "succeeded"
abbrev pub is_succeeded : Option StepRecord → Bool
is_succeeded none = false
is_succeeded (some r) = r.status == "succeeded"

abbrev pub status_accepted : Option RunNode → Bool
status_accepted none = false
status_accepted (some n) = elim n.status [ RunStatus.accepted ↦ true | _ ↦ false ]

-- Values that are not `None` and not the empty text.
abbrev pub non_empty : Option String → Option String
non_empty none = none
non_empty (some v) = if v == "" then none else some v

-- `new` where it has a value, else `old`
abbrev pub override {ℓ} : {A : Type ℓ} → Option A → Option A → Option A
override none old = old
override (some v) old = some v

-- context.update(facts)
abbrev pub update_remote : Remote → Remote → Remote
update_remote new old = record {
  source_branch = override new.source_branch old.source_branch;
  target_branch = override new.target_branch old.target_branch;
  head_sha = override new.head_sha old.head_sha;
  pr_url = override new.pr_url old.pr_url;
  pr_number = override new.pr_number old.pr_number;
  merge_commit = override new.merge_commit old.merge_commit;
}

abbrev pub non_empty_remote : Remote → Remote
non_empty_remote r = record {
  source_branch = non_empty r.source_branch;
  target_branch = non_empty r.target_branch;
  head_sha = non_empty r.head_sha;
  pr_url = non_empty r.pr_url;
  pr_number = r.pr_number;
  merge_commit = non_empty r.merge_commit;
}

abbrev accepted_branches : List (String × RunNode) → List String
accepted_branches [] = []
accepted_branches ((id, n) ∷ ns) =
    let rest = accepted_branches ns in
    if status_accepted (some n) && has_text n.branch then n.branch ∷ rest else rest

abbrev evidence_remote : Option Evidence → Remote
evidence_remote none = record {
  source_branch = none;
  target_branch = none;
  head_sha = none;
  pr_url = none;
  pr_number = none;
  merge_commit = none;
}
evidence_remote (some e) = non_empty_remote e.remote

-- _context_from_evidence
unfoldable pub context_from_evidence : Option Evidence → Snapshot → Context
context_from_evidence e s = record {
  run_id = s.run_id;
  plan_id = s.plan_id;
  remote = evidence_remote e;
  node_branches = accepted_branches s.others;
}

-- _initial_evidence, with the drift mark that the caller adds
unfoldable pub initial_evidence : DigestBinding → Bool → Context → Snapshot → Evidence
initial_evidence binding drifted c s = record {
  schema_version = 1;
  run_id = s.run_id;
  status = EvidenceStatus.in_progress;
  binding = some binding;
  remote = record {
    source_branch = some (or_else c.remote.source_branch "");
    target_branch = some "main";
    head_sha = none;
    pr_url = none;
    pr_number = none;
    merge_commit = none;
  };
  steps = no_steps;
  binding_drifted = drifted;
  review_basis = none;
  waiting_on = none;
  remote_verification = none;
}

-- The variables of the loop.
pub record Run {ℓ} (W : Type ℓ) : Type ℓ where
  pub world : W
  pub evidence : Evidence
  pub node : RunNode
  pub context : Context
  pub events : List Event

-- How one round of the loop ends.
pub data Ending : Type 0 where
  goes_on : Ending
  returns : Ending
  fails : Failure → Ending

abbrev pub failure : Step → Reason → Bool → Failure
failure step reason retryable = record { step = some step; reason = reason; retryable = retryable }

-- The integration review may stand in for a GitHub review.
abbrev pub may_waive : Option RunNode → DigestBinding → Facts → Evidence → Bool
may_waive integration binding f e =
    or_else f.review_protection "" == "none"
    && (status_accepted integration && (not e.binding_drifted && binding_matches e.binding binding))

module _ {ℓ} {W : Type ℓ} where
  -- From `context.update(facts)` to the event `remote_delivery_step_completed`.
  unfoldable pub record_success : Step → Facts → Run W → Run W
  record_success step f r = record r {
    context = record r.context { remote = update_remote f.remote r.context.remote };
    evidence = record r.evidence {
      remote = update_remote (non_empty_remote f.remote) r.evidence.remote;
      steps = set_step step (some (record { status = "succeeded"; facts = f })) r.evidence.steps;
    };
    events = r.events ++ step_completed step ∷ [];
  }

  -- node.pop("waiting_on", None), and the same of the evidence, with the basis of the review
  abbrev pub pass_review : Delivery.ReviewBasis → Run W → Run W
  pass_review basis r = record r {
    evidence = record r.evidence { review_basis = some basis; waiting_on = none };
    node = record r.node { waiting_on = none };
  }

  abbrev pub wait_for_review : List String → Run W → Run W
  wait_for_review who r = record r {
    evidence = record r.evidence {
      waiting_on = some who;
      review_basis = some waiting_for_github_review;
      steps = set_step review none r.evidence.steps;
    };
    node = record r.node { waiting_on = some who };
  }

  -- if step == "review": ...
  unfoldable pub after_review : Option RunNode → DigestBinding → Facts → Run W → Run W × Ending
  after_review integration binding f r =
      if f.changes_requested
      then (
        record r {
          evidence = record r.evidence { status = EvidenceStatus.rework };
          node = record r.node { status = RunStatus.rework };
          events = r.events ++ rework_requested ∷ [];
        },
        returns,
      )
      else if f.approved
      then (pass_review github_review r, goes_on)
      else if may_waive integration binding f r.evidence
      then (pass_review integration_review_evidence r, goes_on)
      else let who = keep (λ x. not (x == "")) f.requested_reviewers in
        (wait_for_review who r, fails (failure review (waiting_for_review who) true))

  -- if step == "verify": ...
  unfoldable pub after_verify : Facts → Run W → Run W × Ending
  after_verify f r =
      let checked = record r {
        evidence = record r.evidence {
          remote_verification = some (record {
            verified = f.verified;
            main_head_sha = f.main_head_sha;
            merge_commit = or_else f.remote.merge_commit "";
            pr_state = f.pr_state;
          });
        };
      } in
      if f.verified
      then (checked, goes_on)
      else (checked, fails (failure verify not_confirmed true))

  unfoldable pub after_step : Option RunNode → DigestBinding → Step → Facts → Run W → Run W × Ending
  unfolding after_review after_verify
  after_step integration binding review f r = after_review integration binding f r
  after_step integration binding verify f r = after_verify f r
  after_step integration binding _ f r = (r, goes_on)

  unfoldable pub finish_step :
      Option RunNode → DigestBinding → Step → Outcome → Run W → Run W × Ending
  unfolding after_step record_success
  finish_step integration binding step (facts f) r =
      after_step integration binding step f (record_success step f r)
  finish_step integration binding step nothing r = (r, fails (failure step no_facts false))
  finish_step integration binding step (raises x) r = (r, fails x)

  -- After the loop, and `except RemoteDeliveryFailed`.
  unfoldable pub conclude : Run W × Ending → Run W
  conclude (r, goes_on) = record r {
    evidence = record r.evidence { status = EvidenceStatus.accepted };
    node = record r.node { status = RunStatus.accepted; failure = none };
    events = r.events ++ delivery_accepted ∷ [];
  }
  conclude (r, returns) = r
  conclude (r, fails x) = record r {
    evidence = record r.evidence { status = EvidenceStatus.blocked_unknown };
    node = record r.node { status = RunStatus.blocked_unknown; failure = some x };
    events = r.events ++ delivery_failed x.step x.retryable ∷ [];
  }
