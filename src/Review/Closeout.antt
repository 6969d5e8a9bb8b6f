-- ===== src/Review/Closeout.antt =====
-- The claim of an integration reviewer, the package that is made of it, its record in the run, and
-- the closeout of the run, in vibe_guide/evidence.py.
pub mod Passed
pub mod Decide
pub mod Claim
use Prim.Native.String
use vibe_guide_automation.Common.{
  ℕ, String, Bool, true, false, not, ◌&&◌, ◌||◌, Option, none, some, List, [], ◌∷◌, ◌++◌, ◌==◌,
  contains, keep, all_of, is_empty, is_some, if◌then◌else◌, nat_eq,
}
use vibe_guide_automation.Json.{
  ℤ, pos, Members, no_member, member, Elements, no_element, element, Value, object, array, text,
  int, null, get_member, has_text,
}
use vibe_guide_automation.Delivery.{Snapshot, RunNode, RunStatus, Evidence, accepted, rework}
use vibe_guide_automation.Delivery.Binding.{remote_delivery_required, without_history}
use vibe_guide_automation.Delivery.Validate.{delivery_evidence_current}
use vibe_guide_automation.Review.{
  Counts, Counted, malformed, counted, open_finding_counts, Run, get_in, is_object, is_array, holds,
  scope_ids, first_failure, member_keys, has_keys, numbers, findings_of, review_error,
}

-- INTEGRATION_REVIEW_CLAIM_KEYS, sorted.
abbrev pub claim_keys : List String
claim_keys = "findings" ∷ "iteration_compatibility" ∷ "out_of_scope" ∷ "test_runtime_delivery" ∷ []

-- "_".join(names)
abbrev joined : List String → String
joined [] = ""
joined (x ∷ []) = x
joined (x ∷ y ∷ xs) = String.◌++◌ x (String.◌++◌ "_" (joined (y ∷ xs)))

abbrev pub has_evidence : Option Value → Bool
has_evidence (some (text s)) = has_text s
has_evidence _ = false

abbrev pub verdict_checks : Members → String → List (Bool × String)
verdict_checks c key =
    (is_object (get_member c key), String.◌++◌ "claim_shape:type:" (String.◌++◌ key ":object"))
    ∷ (
      has_evidence (get_in (get_member c key) "evidence"),
      String.◌++◌ "claim_shape:" (String.◌++◌ key ":empty_evidence"),
    )
    ∷ []

abbrev pub key_code : List String → String
key_code [] = "claim_shape:unexpected_keys:extra_only"
key_code (k ∷ missing) = String.◌++◌ "claim_shape:unexpected_keys:missing_" (joined (k ∷ missing))

-- `validate_integration_claim_shape`: the code of the error that it raises.
abbrev pub claim_error : Value → Option String
claim_error (object c) =
    if has_keys claim_keys c
    then first_failure (
        (is_array (get_member c "findings"), "claim_shape:type:findings:list")
        ∷ (is_array (get_member c "out_of_scope"), "claim_shape:type:out_of_scope:list")
        ∷ (verdict_checks c "iteration_compatibility" ++ verdict_checks c "test_runtime_delivery"))
    else some (key_code (keep (λ k. not (contains (member_keys c) k)) claim_keys))
claim_error _ = some "claim_shape:not_an_object"

abbrev pub array_of : List String → Elements
array_of [] = no_element
array_of (s ∷ ss) = element (text s) (array_of ss)

abbrev pub or_null : Option Value → Value
or_null none = null
or_null (some v) = v

abbrev pub text_or_null : Option String → Value
text_or_null none = null
text_or_null (some s) = text s

abbrev pub number_or_null : Option ℕ → Value
number_or_null none = null
number_or_null (some n) = int (pos n)

abbrev pub clearance_value : Counts → Value
clearance_value c = object (
    member "p0" (int (pos c.at_p0))
      (member "p1" (int (pos c.at_p1)) (member "p2" (int (pos c.at_p2)) no_member)))

-- The dictionary `package`.
abbrev pub package_of : Run → Members → Elements → Elements → Counts → Members
package_of r claim refs excluded c = member "schema_version" (int (pos 1)) (
    member "run_id" (text r.snapshot.run_id) (
      member "plan_id" (text r.snapshot.plan_id) (
        member "plan_revision" (number_or_null r.plan_version) (
          member "prd_digest" (text_or_null r.prd_digest) (
            member "spec_digest" (text_or_null r.spec_digest) (
              member "authorization_digest" (text r.snapshot.authorization_digest) (
                member "node_contract_digest" (text r.snapshot.node_contract_digest) (
                  member "aggregated_scope"
                    (object (
                      member "nodes" (array (array_of (scope_ids r.snapshot.others))) (
                        member "out_of_scope" (or_null (get_member claim "out_of_scope"))
                          no_member)))
                    (member "iteration_compatibility"
                      (or_null (get_member claim "iteration_compatibility"))
                      (member "agentsmd_acceptance_refs" (array refs) (
                        member "test_runtime_delivery"
                          (or_null (get_member claim "test_runtime_delivery"))
                          (member "unverified_or_excluded" (array excluded) (
                            member "findings" (or_null (get_member claim "findings"))
                              (member "clearance" (clearance_value c) no_member))))))))))))))

pub data Built : Type 0 where
  rejected : String → Built
  built : Members → Built

abbrev pub if_valid : Option String → Members → Built
if_valid (some message) e = rejected message
if_valid none e = built e

abbrev pub assemble : Run → Members → Elements → Elements → Counted → Built
assemble r claim refs excluded (malformed message) = rejected message
assemble r claim refs excluded (counted c) =
    let e = package_of r claim refs excluded c in if_valid (review_error r e) e

abbrev pub members_of : Value → Members
members_of (object c) = c
members_of _ = no_member

unfoldable pub build_integration_review_evidence : Run → Value → Elements → Elements → Built
unfolding open_finding_counts
build_integration_review_evidence r claim refs excluded = elim (claim_error claim) [
  | some code ↦ rejected code
  | none ↦
      assemble r (members_of claim) refs excluded
        (open_finding_counts (findings_of (get_member (members_of claim) "findings")))
]

-- d[key] = value
abbrev pub set_member : Members → String → Value → Members
set_member no_member key value = member key value no_member
set_member (member k v ms) key value =
    let rest = set_member ms key value in if k == key then member k value ms else member k v rest

abbrev pub append_element : Elements → Value → Elements
append_element no_element v = element v no_element
append_element (element x xs) v = element x (append_element xs v)

-- The reviews recorded so far.
abbrev pub prior_reviews : Members → Option Value → Elements
prior_reviews prior (some (array history)) = history
prior_reviews no_member _ = no_element
prior_reviews (member k v ms) _ = element (object (member k v ms)) no_element

abbrev pub is_cleared : Option Value → Bool
is_cleared clearance =
    numbers (get_in clearance "p0") 0
    && numbers (get_in clearance "p1") 0
    && numbers (get_in clearance "p2") 0

abbrev pub reviewed_node : Bool → Option RunNode → Option RunNode
reviewed_node cleared none = none
reviewed_node cleared (some n) = some (record n { status = if cleared then accepted else rework })

abbrev pub recorded : Run → Members → Run
recorded r e =
    let s = r.snapshot in
    let history =
      prior_reviews s.integration_review_evidence
        (get_member s.integration_review_evidence "history") in
    record r {
      snapshot = record s {
        integration_review_evidence =
            set_member e "history" (array (append_element history (object e)));
        integration = reviewed_node (is_cleared (get_member e "clearance")) s.integration;
      };
    }

-- `none` where the program raises ValueError.
unfoldable pub record_integration_review : Run → Members → Option Run
unfolding review_error
record_integration_review r e = elim (review_error r e) [
  | some message ↦ none
  | none ↦ some (recorded r e)
]

pub data CloseoutStatus : Type 0 where
  complete running blocked_unknown : CloseoutStatus

-- CloseoutDecision
pub record CloseoutDecision : Type 0 where
  pub allowed : Bool
  pub status : CloseoutStatus
  pub reasons : List String

abbrev pub is_node_accepted : RunNode → Bool
is_node_accepted n = elim n.status [ accepted ↦ true | _ ↦ false ]

abbrev pub all_are_accepted : List (String × RunNode) → Bool
all_are_accepted [] = true
all_are_accepted ((id, n) ∷ nodes) = is_node_accepted n && all_are_accepted nodes

abbrev pub accepted_or_absent : Option RunNode → Bool
accepted_or_absent none = true
accepted_or_absent (some n) = is_node_accepted n

abbrev pub reason_if : Bool → String → List String
reason_if true message = message ∷ []
reason_if false message = []

abbrev pub reason_of : Option String → List String
reason_of none = []
reason_of (some message) = message ∷ []

abbrev pub evidence_reasons : Run → Members → List String
evidence_reasons r no_member = "integration review evidence is missing" ∷ []
evidence_reasons r (member k v ms) =
    let e = member k v ms in
    reason_of (review_error r (without_history e))
    ++ reason_if (not (is_cleared (get_member e "clearance")))
        "integration P0/P1/P2 clearance is not zero"

abbrev pub decided : List String → CloseoutDecision
decided [] = record { allowed = true; status = complete; reasons = [] }
decided (x ∷ xs) = record { allowed = false; status = running; reasons = x ∷ xs }

module _ (digest : Value → String) where
  abbrev pub delivered_reason : Snapshot → Option Evidence → List String
  delivered_reason s none = "remote delivery evidence is missing" ∷ []
  delivered_reason s (some e) =
      reason_if (not (delivery_evidence_current digest s e))
        "remote delivery evidence does not match current digests"

  abbrev pub delivery_reason : Snapshot → Option RunNode → Option Evidence → List String
  delivery_reason s none e = "remote delivery node is pending" ∷ []
  delivery_reason s (some n) e =
      if is_node_accepted n then delivered_reason s e else "remote delivery is not accepted" ∷ []

  abbrev pub ring_reasons : Snapshot → List String
  ring_reasons s =
      if remote_delivery_required s.remote_git_actions
      then delivery_reason s s.delivery s.evidence
      else []

  -- The gate of the delivery ring is asked only where nothing else is against it.
  abbrev pub with_ring : Snapshot → List String → List String
  with_ring s [] = ring_reasons s
  with_ring s (x ∷ xs) = x ∷ xs

  abbrev pub closeout_reasons : Run → RunNode → List String
  closeout_reasons r n =
      let s = r.snapshot in
      reason_if (not (all_are_accepted s.others)) "business nodes are not all accepted"
      ++ (reason_if (not (is_node_accepted n)) "integration review is not accepted"
          ++ evidence_reasons r s.integration_review_evidence)

  abbrev pub closeout_with : Run → Option RunNode → CloseoutDecision
  closeout_with r none =
      let s = r.snapshot in
      decided (
        reason_if (not (all_are_accepted s.others && accepted_or_absent s.delivery))
          "business nodes are not all accepted")
  closeout_with r (some n) = decided (with_ring r.snapshot (closeout_reasons r n))

  abbrev pub has_nodes : Snapshot → Bool
  has_nodes s = is_some s.integration || is_some s.delivery || not (is_empty s.others)

  unfoldable pub evaluate_v41_closeout : Run → CloseoutDecision
  unfolding review_error delivery_evidence_current
  evaluate_v41_closeout r =
      if not (has_nodes r.snapshot)
      then record {
        allowed = false;
        status = blocked_unknown;
        reasons = "snapshot nodes are unavailable" ∷ [];
      }
      else if r.reconciles
      then record {
        allowed = false;
        status = blocked_unknown;
        reasons = "workspace reconciliation required" ∷ [];
      }
      else closeout_with r r.snapshot.integration
