-- ===== src/Review/Samples.antt =====
-- A run under review, a reviewer's claim, and the theorems about vibe_guide/evidence.py there.
use vibe_guide_automation.Common.{String, true, false, none, some, [], ◌∷◌, ◌≡◌, ◌↔◌, refl, ◌&&◌}
use vibe_guide_automation.Json.{
  Members, no_member, member, Elements, no_element, element, Value, object, null, array, text,
  get_member, has_text, truthy,
}
use vibe_guide_automation.Delivery.{RunNode, RunStatus, accepted, in_review}
use vibe_guide_automation.Review.{Run, Counts, counted, open_finding_counts, review_error}
use vibe_guide_automation.Review.Findings.{IsCount, open_finding_counts-IsCount, are_resolved}
use vibe_guide_automation.Review.Closeout.{
  package_of, recorded, build_integration_review_evidence, record_integration_review,
  evaluate_v41_closeout, all_are_accepted,
}
use vibe_guide_automation.Review.Delivered.{Delivery, evaluate_delivery_evidence}
use vibe_guide_automation.Review.Delivered.Blocked.{ClaimsBlock}
use vibe_guide_automation.Review.Delivered.Meaning.{IsIdentified, IsHandedOver, IsClassifiable}
use vibe_guide_automation.Review.Delivered.Facts.{evaluate_delivery_evidence_iff}
use vibe_guide_automation.Review.Closeout.Decide.{IsClosed, evaluate_v41_closeout_iff}
use vibe_guide_automation.Review.Closeout.Claim.{
  claimed, build_integration_review_evidence-closeout,
}

abbrev node : RunStatus → RunNode
node status = record { status = status; branch = "b"; failure = none; waiting_on = none }

abbrev hex : String
hex = "aaaaaaaaaaaaaaaaaaaaaaaaaaaaaaaaaaaaaaaaaaaaaaaaaaaaaaaaaaaaaaaa"

abbrev run : Run
run = record {
  snapshot = record {
    run_id = "r";
    plan_id = "p";
    remote_git_actions = some "deny";
    authorization_digest = hex;
    node_contract_digest = hex;
    topology_digest = hex;
    integration_review_evidence = no_member;
    integration = some (node in_review);
    delivery = none;
    others = ("n1", node accepted) ∷ [];
    evidence = none;
  };
  plan_version = some 1;
  prd_digest = some hex;
  spec_digest = some hex;
  reconciles = false;
}

abbrev finding : String → String → Value
finding severity status =
    object (member "severity" (text severity) (member "status" (text status) no_member))

abbrev findings : Elements
findings = element (finding "P1" "resolved") (element (finding "p3" "open") no_element)

abbrev sound_verdict : Value
sound_verdict = object (member "status" (text "verified") (member "evidence" (text "e") no_member))

abbrev claim : Value
claim = object (
    member "findings" (array findings) (
      member "iteration_compatibility" sound_verdict (
        member "test_runtime_delivery" sound_verdict
          (member "out_of_scope" (array no_element) no_member))))

abbrev refs : Elements
refs = element (text "AGENTS.md") no_element

abbrev no_counts : Counts
no_counts = record { at_p0 = 0; at_p1 = 0; at_p2 = 0 }

abbrev evidence : Members
evidence =
    package_of run
      (member "findings" (array findings) (
        member "iteration_compatibility" sound_verdict (
          member "test_runtime_delivery" sound_verdict
            (member "out_of_scope" (array no_element) no_member))))
      refs no_element no_counts

abbrev digest : Value → String
digest v = "d"

open_finding_counts-IsCount_example : IsCount findings no_counts
unfolding open_finding_counts get_member
open_finding_counts-IsCount_example = open_finding_counts-IsCount findings no_counts refl

build_integration_review_evidence-closeout_example :
    (r' : Run) × (record_integration_review run evidence ≡ some r')
    × ((evaluate_v41_closeout digest r').allowed
        ≡ (all_are_accepted run.snapshot.others && are_resolved (claimed claim)))
unfolding build_integration_review_evidence get_member has_text truthy review_error
build_integration_review_evidence-closeout_example =
    build_integration_review_evidence-closeout digest run claim refs no_element evidence
      (node in_review) refl refl refl refl

resolved : (all_are_accepted run.snapshot.others && are_resolved (claimed claim)) ≡ true
unfolding get_member
resolved = refl

evaluate_v41_closeout_iff_example :
    ((evaluate_v41_closeout digest (recorded run evidence)).allowed ≡ true)
    ↔ IsClosed digest (recorded run evidence) (node accepted)
unfolding get_member
evaluate_v41_closeout_iff_example =
    evaluate_v41_closeout_iff digest (recorded run evidence) (node accepted) refl

-- An open P0 keeps the run from being closed.
blocked :
    open_finding_counts (element (finding "P0" "waived") no_element)
    ≡ counted (record { at_p0 = 1; at_p1 = 0; at_p2 = 0 })
unfolding open_finding_counts get_member
blocked = refl

-- A background delivery, which has neither host nor cursor.
abbrev delivery : Delivery
delivery = record {
  node = member "status" (text "delivered") no_member;
  binding = member "task_id" (text "t") (
      member "mode" (text "background")
        (member "worktree" (text "/w") (member "branch" (text "b") no_member)));
  artifacts = object (
      member "completion_marker" (text "done") (
        member "delivery_path" (text "d.json")
          (member "thread_status" (text "complete") no_member)));
  self_report = null;
  self_report_receipt = false;
  background_receipt = true;
}

abbrev unchanged : String → String
unchanged s = s

delivered : (evaluate_delivery_evidence unchanged delivery).status ≡ "DELIVERED"
unfolding evaluate_delivery_evidence get_member has_text truthy
delivered = refl

evaluate_delivery_evidence_iff_example :
    (((evaluate_delivery_evidence unchanged delivery).status ≡ "DELIVERED") ↔ (
      (¬ ClaimsBlock delivery.self_report)
      × IsIdentified delivery
      × IsHandedOver unchanged delivery))
    × (((evaluate_delivery_evidence unchanged delivery).classification ≡ "acceptance_rejected") ↔ (
        (¬ ClaimsBlock delivery.self_report)
        × IsIdentified delivery
        × (¬ IsHandedOver unchanged delivery)
        × IsClassifiable delivery.artifacts))
evaluate_delivery_evidence_iff_example = evaluate_delivery_evidence_iff unchanged delivery
