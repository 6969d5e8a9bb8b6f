-- ===== src/Review/Delivered.antt =====
-- `evaluate_delivery_evidence` of vibe_guide/evidence.py: what a node's delivery has to show before
-- its dependants start. The node, the binding and the artifacts are JSON values; `nfkc` stands for
-- Python's `unicodedata.normalize("NFKC", ...)`.
pub mod Meaning
pub mod Blocked
pub mod Facts
use Prim.Native.Char.{code}
use Prim.Native.String
use vibe_guide_automation.Common.{
  String, Bool, true, false, not, ◌&&◌, ◌||◌, Option, none, some, List, [], ◌∷◌, ◌++◌, ◌==◌,
  contains, all_of, is_empty, is_some, nat_eq, if◌then◌else◌,
}
use vibe_guide_automation.Json.{
  Members, no_member, Value, object, array, text, int, bool, null, get_member, has_text, truthy,
}
use vibe_guide_automation.Review.{get_in, is_among, holds}
use vibe_guide_automation.Review.Closeout.{reason_if}

-- value.startswith(prefix)
abbrev starts_with : String → String → Bool
starts_with prefix String.[] = prefix == ""
starts_with String.[] (String.◌∷◌ d t) = true
starts_with (String.◌∷◌ c s) (String.◌∷◌ d t) = nat_eq (code c) (code d) && starts_with s t

-- needle in value
abbrev has_part : String → String → Bool
has_part needle String.[] = needle == ""
has_part needle (String.◌∷◌ c s) = starts_with needle (String.◌∷◌ c s) || has_part needle s

abbrev text_starts : Option Value → String → Bool
text_starts (some (text s)) prefix = starts_with prefix s
text_starts _ prefix = false

abbrev is_false : Option Value → Bool
is_false (some (bool false)) = true
is_false _ = false

-- `blocked_self_report_fields`
abbrev pub blocked_self_report_fields : Value → List String
blocked_self_report_fields (object report) =
    reason_if (text_starts (get_member report "status") "blocked") "status"
    ++ reason_if (text_starts (get_member report "report_kind") "blocked_") "report_kind"
    ++ reason_if (is_false (get_member report "implementation_complete")) "implementation_complete"
    ++ reason_if (is_false (get_member report "issue_complete")) "issue_complete"
blocked_self_report_fields _ = []

-- `value in (None, "")`
abbrev pub is_blank : Option Value → Bool
is_blank none = true
is_blank (some null) = true
is_blank (some (text s)) = s == ""
is_blank (some _) = false

-- `value == word` of a text
abbrev pub is_text : Option Value → String → Bool
is_text v word = is_among (word ∷ []) v

pub record DeliveryEvidence : Type 0 where
  pub status : String
  pub reasons : List String
  pub classification : String

abbrev pub format_names : List String
format_names =
    "completion marker is missing" ∷ "delivery path is missing"
    ∷ "terminal thread status is missing" ∷ []

-- A payload that is there and is no mapping.
abbrev pub is_unclassifiable : Value → Bool
is_unclassifiable null = false
is_unclassifiable (object a) = false
is_unclassifiable _ = true

abbrev pub classified : Value → List String → DeliveryEvidence
classified artifacts [] = record { status = "DELIVERED"; reasons = []; classification = "complete" }
classified artifacts (x ∷ xs) = record {
  status = "blocked_unknown";
  reasons = x ∷ xs;
  classification =
      if not (is_unclassifiable artifacts) && all_of (contains format_names) (x ∷ xs)
      then "acceptance_rejected"
      else "blocked_unknown";
}

-- `", ".join(names)`
abbrev joined : List String → String
joined [] = ""
joined (x ∷ []) = x
joined (x ∷ y ∷ xs) = String.◌++◌ x (String.◌++◌ ", " (joined (y ∷ xs)))

-- A worker that says it is blocked has not delivered.
abbrev pub unless_blocked : List String → DeliveryEvidence → DeliveryEvidence
unless_blocked [] evidence = evidence
unless_blocked (x ∷ xs) evidence = record {
  status = "blocked_unknown";
  reasons = String.◌++◌ "worker self-reported a blocked state: " (joined (x ∷ xs)) ∷ [];
  classification = "blocked_unknown";
}

-- What the call is given: the node, the binding, the artifacts, the worker's report, and the caller's
-- proofs of a self-report and of a background delivery.
pub record Delivery : Type 0 where
  pub node : Members
  pub binding : Members
  pub artifacts : Value
  pub self_report : Value
  pub self_report_receipt : Bool
  pub background_receipt : Bool

abbrev pub is_background : Delivery → Bool
is_background d = d.background_receipt && is_text (get_member d.binding "mode") "background"

abbrev pub is_delivered : Delivery → Bool
is_delivered d = is_among ("DELIVERED" ∷ "delivered" ∷ []) (get_member d.node "status")

abbrev pub has_task : Delivery → Bool
has_task d =
    not (is_blank (get_member d.binding "task_id") && is_blank (get_member d.binding "threadId"))

abbrev pub has_host : Delivery → Bool
has_host d =
    not (is_blank (get_member d.binding "host") && is_blank (get_member d.binding "hostId"))
    || is_background d

abbrev pub has_place : Delivery → Bool
has_place d =
    not (is_blank (get_member d.binding "worktree") || is_blank (get_member d.binding "branch"))

abbrev pub has_cursor : Delivery → Bool
has_cursor d =
    not (is_blank (get_member d.binding "cursor")) || d.self_report_receipt || is_background d

abbrev pub identity_reasons : Delivery → List String
identity_reasons d =
    reason_if (not (is_delivered d)) "canonical delivered state is missing"
    ++ (reason_if (not (has_task d)) "task identity is missing"
        ++ (reason_if (not (has_host d)) "host identity is missing"
            ++ (reason_if (not (has_place d)) "worktree or branch is missing"
                ++ reason_if (not (has_cursor d)) "current cursor is missing")))

module _ (nfkc : String → String) where
  abbrev pub holds_placeholder : Value → Bool
  holds_placeholder (text s) = not (has_text (nfkc s)) || has_part "<填写>" (nfkc s)
  holds_placeholder _ = false

  abbrev pub is_filled : Option Value → Bool
  is_filled none = false
  is_filled (some v) = truthy v && not (holds_placeholder v)

  abbrev pub has_marker : Delivery → Bool
  has_marker d = is_filled (get_in (some d.artifacts) "completion_marker")

  abbrev pub has_path : Delivery → Bool
  has_path d = is_filled (get_in (some d.artifacts) "delivery_path")

  abbrev pub has_thread : Delivery → Bool
  has_thread d =
      is_among ("complete" ∷ "completed" ∷ "DELIVERED" ∷ [])
        (get_in (some d.artifacts) "thread_status")

  abbrev pub format_reasons : Delivery → List String
  format_reasons d =
      reason_if (not (has_marker d)) "completion marker is missing"
      ++ (reason_if (not (has_path d)) "delivery path is missing"
          ++ reason_if (not (has_thread d)) "terminal thread status is missing")

  unfoldable pub evaluate_delivery_evidence : Delivery → DeliveryEvidence
  evaluate_delivery_evidence d =
      unless_blocked (blocked_self_report_fields d.self_report)
        (classified d.artifacts (identity_reasons d ++ format_reasons d))
