-- ===== src/Status.antt =====
-- The user-facing statuses in vibe_guide/state.py: `map_user_status` and what it calls. A snapshot's
-- node record is a JSON object. A status that is no text is no word of any of the sets below.
pub mod Labels
pub mod Samples
use vibe_guide_automation.Common.{
  String, Bool, true, false, not, ◌&&◌, ◌||◌, Option, none, some, List, [], ◌∷◌, ◌==◌, contains,
  is_some, if◌then◌else◌,
}
use vibe_guide_automation.Json.{Value, Members, text, object, get_member, has_text, truthy}

-- USER_VISIBLE_STATES, in their order.
pub data Label : Type 0 where
  preparing repairing started your_decision build_worktree investigate human : Label

abbrev pub worker_session_statuses : List String
worker_session_statuses = "running" ∷ "review" ∷ "rework" ∷ []

abbrev pub decision_statuses : List String
decision_statuses = "blocked_design" ∷ "blocked_deploy" ∷ []

abbrev pub preparing_statuses : List String
preparing_statuses = "initialized" ∷ "planned" ∷ "brief_pending" ∷ "start_pending" ∷ []

abbrev pub active_statuses : List String
active_statuses = "running" ∷ "review" ∷ "rework" ∷ "delivered" ∷ "accepted" ∷ "complete" ∷ []

abbrev pub recovery_statuses : List String
recovery_statuses =
    "retry_pending" ∷ "binding_probe_pending" ∷ "binding_repair_pending" ∷ "binding_repairing"
    ∷ "blocked_unknown" ∷ "unknown" ∷ "timeout" ∷ "failed" ∷ "stopped" ∷ []

abbrev pub worktree_reason_codes : List String
worktree_reason_codes =
    "worktree_missing" ∷ "worktree_mismatch" ∷ "worktree_create_failed" ∷ "worktree_merge_conflict"
    ∷ []

-- value in words
abbrev pub word_in : List String → Option Value → Bool
word_in words (some (text s)) = contains words s
word_in words _ = false

-- isinstance(value, dict)
abbrev pub is_dict : Option Value → Bool
is_dict (some (object _)) = true
is_dict _ = false

-- bool(record.get(key))
abbrev pub holds : Members → String → Bool
holds r key = elim (get_member r key) [ none ↦ false | some v ↦ truthy v ]

abbrev pub known_code : Option Value → Option String
known_code (some (text s)) = if contains worktree_reason_codes s then some s else none
known_code _ = none

abbrev pub marker_code : Option Value → Option String
marker_code (some (object m)) = known_code (get_member m "reason_code")
marker_code _ = none

unfoldable pub worktree_reason_code : Members → Option String
worktree_reason_code r = marker_code (get_member r "worktree_preflight")

abbrev pub marker_command : Option Value → Option String
marker_command (some (text s)) = if has_text s then some s else none
marker_command _ = none

abbrev pub marker_action : Option Value → Option String
marker_action (some (object m)) = marker_command (get_member m "worktree_command")
marker_action _ = none

unfoldable pub worktree_action : Members → Option String
worktree_action r = marker_action (get_member r "worktree_preflight")

-- The text of a value that is no text is no status, and neither is the empty text.
abbrev pub status_word : Option Value → String
status_word (some (text s)) = s
status_word _ = ""

-- From `value = str(status or "")` to the end.
unfoldable pub word_label : String → Label
word_label value =
    if value == "awaiting_supervisor"
    then Label.investigate
    else if contains decision_statuses value
    then Label.your_decision
    else if contains preparing_statuses value
    then Label.preparing
    else if contains active_statuses value
    then Label.started
    else if contains recovery_statuses value
    then Label.repairing
    else Label.repairing

-- No session is bound, and the node has neither moved on nor waits for a decision.
abbrev pub is_parked : Members → Bool
is_parked r =
    not (holds r "active_task")
    && (not (word_in active_statuses (get_member r "status"))
        && not (word_in decision_statuses (get_member r "status")))

-- record.get(key) == "..."
abbrev pub is_word : String → Option Value → Bool
is_word word (some (text s)) = s == word
is_word word _ = false

-- _derived_user_status
unfoldable pub derived_user_status : Value → Label
unfolding word_label worktree_reason_code
derived_user_status (object r) =
    if is_parked r && is_some (worktree_reason_code r)
    then Label.build_worktree
    else if is_word "engineering_blocked" (get_member r "reason_class") && is_parked r
    then Label.investigate
    else if word_in recovery_statuses (get_member r "binding_phase")
    then Label.repairing
    else if is_dict (get_member r "retryable_action") && not (holds r "active_task")
    then Label.repairing
    else word_label (status_word (get_member r "status"))
derived_user_status v = word_label (status_word (some v))

-- _STALL_TIER_STATUS.get(tier, label)
abbrev pub tier_label : Option Value → Label → Label
tier_label tier label =
    if is_word "supervisor_investigate" tier
    then Label.investigate
    else if is_word "escalate_to_pm" tier
    then Label.human
    else label

abbrev pub is_repairing : Label → Bool
is_repairing Label.repairing = true
is_repairing _ = false

-- A node with a worker session that is bound to it.
abbrev pub is_session : Members → Bool
is_session r =
    word_in worker_session_statuses (get_member r "status") && is_dict (get_member r "active_task")

unfoldable pub map_user_status : Value → Label
unfolding derived_user_status
map_user_status (object r) =
    let label = derived_user_status (object r) in
    if is_repairing label || is_session r
    then tier_label (get_member r "stall_tier") label
    else label
map_user_status v = derived_user_status v
