-- ===== src/Status/Samples.antt =====
-- Node records at which the theorems about the user-facing statuses of vibe_guide/state.py are used.
use vibe_guide_automation.Common.{true, false, not, ◌&&◌, ◌≡◌, ◌↔◌, ◌⊎◌}
use vibe_guide_automation.Json.{Members, text, object, no_member, member, get_member}
use vibe_guide_automation.Status.{
  Label, map_user_status, derived_user_status, is_session, is_word, is_dict, holds, word_in,
  decision_statuses, recovery_statuses,
}
use vibe_guide_automation.Status.Labels.{
  map_user_status-human_iff, map_user_status-your_decision_iff,
}

abbrev blocked : Members
blocked = member "status" (text "retry_pending") (
    member "worktree_preflight" (object (member "reason_code" (text "worktree_missing") no_member))
      no_member)

abbrev silent : Members
silent = member "status" (text "failed") (member "stall_tier" (text "escalate_to_pm") no_member)

abbrev asking : Members
asking = member "status" (text "blocked_design") no_member

map_user_status-human_iff_example : (map_user_status (object silent) ≡ Label.human) ↔ (
    (is_word "escalate_to_pm" (get_member silent "stall_tier") ≡ true)
    × ((derived_user_status (object silent) ≡ Label.repairing) ⊎ (is_session silent ≡ true)))
map_user_status-human_iff_example = map_user_status-human_iff silent

map_user_status-your_decision_iff_example :
    (map_user_status (object asking) ≡ Label.your_decision) ↔ (
      (word_in decision_statuses (get_member asking "status") ≡ true)
      × (word_in recovery_statuses (get_member asking "binding_phase") ≡ false)
      × ((is_dict (get_member asking "retryable_action") && not (holds asking "active_task"))
          ≡ false))
map_user_status-your_decision_iff_example = map_user_status-your_decision_iff asking
