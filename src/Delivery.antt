-- ===== src/Delivery.antt =====
-- vibe_guide/remote_delivery.py: the data of the remote-delivery ring.
pub mod Binding
pub mod Engine
pub mod Validate
pub mod Samples
use vibe_guide_automation.Common.{
  ℕ, String, Bool, true, false, Option, none, some, List, [], ◌∷◌, ◌==◌,
}
use vibe_guide_automation.Json.{Members}

-- REMOTE_DELIVERY_STEPS
pub data Step : Type 0 where
  prepare push create_pr review merge verify : Step

abbrev pub all_steps : List Step
all_steps = prepare ∷ push ∷ create_pr ∷ review ∷ merge ∷ verify ∷ []

-- The node statuses of vibe_guide/state.py.
pub data RunStatus : Type 0 where
  planned retry_pending start_pending running delivered in_review rework accepted blocked_unknown
        blocked_design failed stopped brief_pending skipped_by_user blocked_by_required_node
        awaiting_supervisor :
      RunStatus

-- The six facts that are copied to the context and the evidence; `none` is a missing key.
pub record Remote : Type 0 where
  pub source_branch : Option String
  pub target_branch : Option String
  pub head_sha : Option String
  pub pr_url : Option String
  pub pr_number : Option ℕ
  pub merge_commit : Option String

-- The mapping that one executor step returns, as far as the engine reads it.
pub record Facts : Type 0 where
  pub remote : Remote
  pub approved : Bool
  pub changes_requested : Bool
  pub review_protection : Option String
  pub requested_reviewers : List String
  pub verified : Bool
  pub main_head_sha : String
  pub pr_state : String

pub record StepRecord : Type 0 where
  pub status : String
  pub facts : Facts

-- evidence["steps"]
pub record Steps : Type 0 where
  pub at_prepare : Option StepRecord
  pub at_push : Option StepRecord
  pub at_create_pr : Option StepRecord
  pub at_review : Option StepRecord
  pub at_merge : Option StepRecord
  pub at_verify : Option StepRecord

abbrev pub no_steps : Steps
no_steps = record {
  at_prepare = none;
  at_push = none;
  at_create_pr = none;
  at_review = none;
  at_merge = none;
  at_verify = none;
}

abbrev pub get_step : Steps → Step → Option StepRecord
get_step t prepare = t.at_prepare
get_step t push = t.at_push
get_step t create_pr = t.at_create_pr
get_step t review = t.at_review
get_step t merge = t.at_merge
get_step t verify = t.at_verify

abbrev pub set_step : Step → Option StepRecord → Steps → Steps
set_step prepare r t = record t { at_prepare = r }
set_step push r t = record t { at_push = r }
set_step create_pr r t = record t { at_create_pr = r }
set_step review r t = record t { at_review = r }
set_step merge r t = record t { at_merge = r }
set_step verify r t = record t { at_verify = r }

pub record DigestBinding : Type 0 where
  pub authorization_digest : String
  pub node_contract_digest : String
  pub topology_digest : String
  pub integration_digest : String

pub data EvidenceStatus : Type 0 where
  in_progress accepted rework blocked_unknown : EvidenceStatus

pub data ReviewBasis : Type 0 where
  github_review integration_review_evidence waiting_for_github_review : ReviewBasis

pub record Verification : Type 0 where
  pub verified : Bool
  pub main_head_sha : String
  pub merge_commit : String
  pub pr_state : String

-- snapshot.remote_delivery_evidence, when it is not empty. `waiting_on` holds the reviewers' names,
-- which the program joins to one text, here and in the node.
pub record Evidence : Type 0 where
  pub schema_version : ℕ
  pub run_id : String
  pub status : EvidenceStatus
  pub binding : Option DigestBinding
  pub remote : Remote
  pub steps : Steps
  pub binding_drifted : Bool
  pub review_basis : Option ReviewBasis
  pub waiting_on : Option (List String)
  pub remote_verification : Option Verification

-- The texts of a failure; what an executor says stands as it came.
pub data Reason : Type 0 where
  lineage_incomplete : String → Reason
  no_facts : Reason
  waiting_for_review : List String → Reason
  not_confirmed : Reason
  executor_says : String → Reason

pub record Failure : Type 0 where
  pub step : Option Step
  pub reason : Reason
  pub retryable : Bool

pub record RunNode : Type 0 where
  pub status : RunStatus
  pub branch : String
  pub failure : Option Failure
  pub waiting_on : Option (List String)

-- A run snapshot. Its nodes stand in three fields: the integration review, the delivery ring, and
-- the others in the order of their ids.
pub record Snapshot : Type 0 where
  pub run_id : String
  pub plan_id : String
  pub remote_git_actions : Option String
  pub authorization_digest : String
  pub node_contract_digest : String
  pub topology_digest : String
  pub integration_review_evidence : Members
  pub integration : Option RunNode
  pub delivery : Option RunNode
  pub others : List (String × RunNode)
  pub evidence : Option Evidence

pub record Context : Type 0 where
  pub run_id : String
  pub plan_id : String
  pub remote : Remote
  pub node_branches : List String

pub data Event : Type 0 where
  retired appended evidence_invalidated rework_requested delivery_accepted : Event
  step_completed : Step → Event
  delivery_failed : Option Step → Bool → Event
