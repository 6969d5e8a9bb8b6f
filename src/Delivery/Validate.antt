-- ===== src/Delivery/Validate.antt =====
-- `validate_remote_delivery_evidence` and `delivery_evidence_current` of
-- vibe_guide/remote_delivery.py. The checks of a value's Python type are those that the model's
-- types make: a missing value stands where the program finds one of another type.
pub mod Sound
use Prim.Native.Char.{code}
use vibe_guide_automation.Common.{
  ℕ, String, Bool, true, false, not, ◌&&◌, Option, none, some, List, [], ◌∷◌, nat_eq, ◌==◌, or_else,
  if◌then◌else◌,
}
use vibe_guide_automation.Json.{Value, has_text}
use vibe_guide_automation.Delivery.{
  Step, all_steps, Steps, get_step, DigestBinding, EvidenceStatus, Verification, Evidence, Snapshot,
  accepted,
}
use vibe_guide_automation.Delivery.Binding.{delivery_binding, binding_matches, is_digest, is_sha}
use vibe_guide_automation.Delivery.Engine.{is_succeeded}

-- The messages of the `ValueError`s.
pub data Invalid : Type 0 where
  wrong_schema_version wrong_run no_binding : Invalid
  no_digest : String → Invalid
  no_source_branch wrong_target : Invalid
  step_missing : Step → Invalid
  no_sha : String → Invalid
  no_pr_url unverified merge_commit_mismatch not_merged : Invalid

-- `if not ok: raise error`, and then the rest of the checks
abbrev pub require : Bool → Invalid → Option Invalid → Option Invalid
require ok error rest = if ok then rest else some error

-- s.startswith(prefix)
unfoldable pub starts_with : String → String → Bool
starts_with s String.[] = true
starts_with String.[] (String.◌∷◌ c p) = false
starts_with (String.◌∷◌ d s) (String.◌∷◌ c p) = nat_eq (code d) (code c) && starts_with s p

abbrev pub first_missing : Steps → List Step → Option Invalid → Option Invalid
first_missing t [] rest = rest
first_missing t (a ∷ steps) rest =
    let later = first_missing t steps rest in
    require (is_succeeded (get_step t a)) (step_missing a) later

abbrev pub check_binding : Option DigestBinding → Option Invalid → Option Invalid
check_binding none rest = some no_binding
check_binding (some b) rest =
    require (is_digest b.authorization_digest) (no_digest "authorization_digest") (
      require (is_digest b.node_contract_digest) (no_digest "node_contract_digest")
        (require (is_digest b.integration_digest) (no_digest "integration_digest") rest))

abbrev pub check_verification : String → Option Verification → Option Invalid
check_verification merge_commit none = some unverified
check_verification merge_commit (some v) = require v.verified unverified (
    require (is_sha v.main_head_sha) (no_sha "main_head_sha") (
      require (v.merge_commit == merge_commit) merge_commit_mismatch
        (require (v.pr_state == "MERGED") not_merged none)))

-- The checks of accepted evidence.
abbrev pub check_accepted : Evidence → Option Invalid
check_accepted e =
    let merge_commit = or_else e.remote.merge_commit "" in
    require (is_sha (or_else e.remote.head_sha "")) (no_sha "head_sha") (
      require (starts_with (or_else e.remote.pr_url "") "http") no_pr_url (
        require (is_sha merge_commit) (no_sha "merge_commit")
          (check_verification merge_commit e.remote_verification)))

-- if status == "accepted": ...
abbrev pub check_status : EvidenceStatus → Option Invalid → Option Invalid
check_status EvidenceStatus.accepted x = x
check_status _ x = none

-- `some error` where the program raises it.
unfoldable pub validate_remote_delivery_evidence : Snapshot → Evidence → Option Invalid
validate_remote_delivery_evidence s e = require (nat_eq e.schema_version 1) wrong_schema_version (
    require (e.run_id == s.run_id) wrong_run (
      check_binding e.binding (
        require (has_text (or_else e.remote.source_branch "")) no_source_branch (
          require (or_else e.remote.target_branch "" == "main") wrong_target
            (first_missing e.steps all_steps (check_status e.status (check_accepted e)))))))

abbrev pub is_valid : Option Invalid → Bool
is_valid none = true
is_valid (some _) = false

unfoldable pub delivery_evidence_current : (Value → String) → Snapshot → Evidence → Bool
unfolding validate_remote_delivery_evidence
delivery_evidence_current digest s e =
    if is_valid (validate_remote_delivery_evidence s e)
    then binding_matches e.binding (delivery_binding digest s)
    else false
