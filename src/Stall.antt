-- ===== src/Stall.antt =====
-- vibe_guide/stall.py: the nodes whose progress has stopped. `digest` stands for SHA-256 of the JSON
-- text (`_digest`). A previous record is `none` where `_valid_record` refuses it; the entries' types
-- are those that it checks.
pub mod Count
pub mod Beats
pub mod Nodes
pub mod Each
pub mod Samples
use Prim.Native.String
use vibe_guide_automation.Common.{
  ℕ, suc, ◌+◌, ◌-◌, min, String, Bool, true, false, not, ◌&&◌, ◌||◌, Option, none, some, List, [],
  ◌∷◌, leb, ltb, ◌==◌, is_some, or_else, if◌then◌else◌,
}
use vibe_guide_automation.Common.Dict.{Dict, get, put}
use vibe_guide_automation.Json.{
  Value, Members, Elements, text, object, array, null, no_member, member, no_element, element,
  get_member, truthy,
}

-- record["nodes"][node_id]
pub record Entry : Type 0 where
  pub fingerprint : String
  pub unchanged_beats : ℕ
  pub attempts_baseline : ℕ
  pub liveness : Option String

pub data Tier : Type 0 where
  auto_retry supervisor_investigate escalate_to_pm : Tier

pub record Result : Type 0 where
  pub fingerprint : String
  pub unchanged_beats : ℕ
  pub attempts_since_change : ℕ
  pub stalled : Bool
  pub tier : Tier
  pub unknown_previous : Bool

abbrev pub stall_beats : ℕ
stall_beats = 3

abbrev pub escalate_attempts : ℕ
escalate_attempts = 2

-- node.get(key), `None` where it is missing
abbrev pub field : Members → String → Value
field m key = or_else (get_member m key) null

abbrev pub last_element : Elements → Value
last_element no_element = null
last_element (element v no_element) = v
last_element (element v (element w vs)) = last_element (element w vs)

abbrev latest : Value → Value
latest (array vs) = last_element vs
latest _ = null

-- value.get(key) if isinstance(value, Mapping) else None
abbrev pub inner : Value → String → Value
inner (object m) key = field m key
inner _ key = null

abbrev is_text : Value → String → Bool
is_text (text s) word = s == word
is_text _ word = false

abbrev is_object : Value → Bool
is_object (object _) = true
is_object _ = false

abbrev is_null : Value → Bool
is_null null = true
is_null _ = false

-- Every failed dispatch of a node with no bound session bumps its generation again.
abbrev is_redispatching : Members → Bool
is_redispatching m =
    is_null (field m "active_task")
    && is_text (inner (field m "retryable_action") "reason_class") "binding_unknown"

abbrev three : Value → Value → Value → Elements
three a b c = element a (element b (element c no_element))

abbrev task_state : Value → Value
task_state (object b) = array (three (field b "status") (field b "generation") (field b "cursor"))
task_state _ = null

-- tasks.get("{}:{}".format(node_id, role)), where all three are there; a role is a text
abbrev pub find_task : Option Members → String → Value → Value
find_task none id role = null
find_task (some no_member) id role = null
find_task (some tasks) id (text role) =
    if id == "" || role == "" then null else field tasks (String.◌++◌ id (String.◌++◌ ":" role))
find_task (some tasks) id role = null

abbrev unless : Bool → Value → Value
unless b v = if b then null else v

module _ (digest : Value → String) where
  unfoldable pub node_fingerprint : Members → Option Members → String → String
  node_fingerprint m tasks id =
      let active = field m "active_task" in
      let again = is_redispatching m in
      digest (
        object (
          member "status" (field m "status") (
            member "developer_generation" (unless again (field m "developer_generation")) (
              member "review_generation" (unless again (field m "review_generation")) (
                member "active_task" active (
                  member "task" (task_state (find_task tasks id (inner active "role"))) (
                    member "delivery"
                      (array (
                        element (field m "handoff_file")
                          (element (field m "status_file") no_element)))
                      (member "latest_evidence" (latest (field m "evidence")) (
                        member "observation"
                          (inner (field m "retryable_action") "last_observation_ref")
                          no_member)))))))))

abbrev first_truthy : Value → Value → Value → Value
first_truthy a b c = if truthy a then a else if truthy b then b else c

-- The node that a `self_heal_attempt` event names, if any.
abbrev pub healed : Value → Option String
healed (object e) =
    if is_text (field e "event") "self_heal_attempt"
    then elim (first_truthy (inner (field e "data") "node_id") (field e "node_id")
        (field e "node")) [ text s ↦ if s == "" then none else some s | _ ↦ none ]
    else none
healed _ = none

abbrev pub count_one : Option String → Dict ℕ → Dict ℕ
count_one none counts = counts
count_one (some id) counts = put counts id (or_else (get counts id) 0 + 1)

abbrev pub count_from : Dict ℕ → List Value → Dict ℕ
count_from counts [] = counts
count_from counts (e ∷ events) = count_from (count_one (healed e) counts) events

unfoldable pub count_self_heal_attempts : List Value → Dict ℕ
count_self_heal_attempts events = count_from [] events

-- _tier
abbrev pub tier_of : ℕ → ℕ → Tier
tier_of unchanged attempts_since =
    if ltb unchanged stall_beats
    then Tier.auto_retry
    else if leb escalate_attempts attempts_since
    then Tier.escalate_to_pm
    else Tier.supervisor_investigate

-- The worker's token is another than the one of the last beat.
abbrev pub has_moved : Option String → Option String → Bool
has_moved none signal = false
has_moved (some old) none = false
has_moved (some old) (some new) = not (old == new)

abbrev pub new_entry : String → ℕ → Option String → Entry
new_entry fingerprint total signal = record {
  fingerprint = fingerprint;
  unchanged_beats = 1;
  attempts_baseline = total;
  liveness = signal;
}

-- One node at one beat, from its entry of the last beat.
unfoldable pub next_entry : Option Entry → String → ℕ → Option String → Entry
next_entry none fingerprint total signal = new_entry fingerprint total signal
next_entry (some old) fingerprint total signal =
    if old.fingerprint == fingerprint && not (has_moved old.liveness signal)
    then record {
      fingerprint = fingerprint;
      unchanged_beats = old.unchanged_beats + 1;
      attempts_baseline = min old.attempts_baseline total;
      liveness = signal;
    }
    else new_entry fingerprint total signal

-- `since` is `total - baseline`, and the baseline is never above the total.
abbrev pub result_of : Bool → Entry → ℕ → Result
result_of unknown e total = record {
  fingerprint = e.fingerprint;
  unchanged_beats = e.unchanged_beats;
  attempts_since_change = total - e.attempts_baseline;
  stalled = leb stall_beats e.unchanged_beats;
  tier = tier_of e.unchanged_beats (total - e.attempts_baseline);
  unknown_previous = unknown;
}

-- The nodes that are assessed, in their order: mappings that are not accepted.
abbrev pub open_nodes : List (String × Value) → List (String × Members)
open_nodes [] = []
open_nodes ((id, object m) ∷ nodes) =
    let rest = open_nodes nodes in
    if is_text (field m "status") "accepted" then rest else (id, m) ∷ rest
open_nodes ((id, v) ∷ nodes) = open_nodes nodes

pub record Assessment : Type 0 where
  pub entries : Dict Entry
  pub results : Dict Result
  pub unknown_previous : Bool

module _ (digest : Value → String) (tasks : Option Members) (attempts : Dict ℕ)
    (previous : Option (Dict Entry)) (liveness : Dict String) where
  unfoldable pub assess_node : String → Members → Entry
  unfolding next_entry node_fingerprint
  assess_node id m =
      next_entry (get (or_else previous []) id) (node_fingerprint digest m tasks id)
        (or_else (get attempts id) 0) (get liveness id)

  abbrev pub assess_all :
      List (String × Members) → Dict Entry → Dict Result → Dict Entry × Dict Result
  assess_all [] entries results = (entries, results)
  assess_all ((id, m) ∷ nodes) entries results =
      let e = assess_node id m in
      assess_all nodes (put entries id e)
        (put results id (result_of (not (is_some previous)) e (or_else (get attempts id) 0)))

unfoldable pub assess_stalls :
    (Value → String)
    → List (String × Value)
    → Option Members
    → List Value
    → Option (Dict Entry)
    → Dict String
    → Assessment
unfolding count_self_heal_attempts
assess_stalls digest nodes tasks events previous liveness =
    let p =
      assess_all digest tasks (count_self_heal_attempts events) previous liveness (open_nodes nodes)
        [] [] in
    record { entries = p.0; results = p.1; unknown_previous = not (is_some previous) }
