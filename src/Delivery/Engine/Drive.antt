-- ===== src/Delivery/Engine/Drive.antt =====
-- The loop and the guards of `drive_remote_delivery` in vibe_guide/remote_delivery.py.
pub mod Rounds
pub mod Gate
pub mod Accept
pub mod Settle
pub mod Lineage
use vibe_guide_automation.Common.{
  String, Bool, true, false, not, ◌&&◌, ◌||◌, Option, none, some, List, [], ◌∷◌, ◌++◌, ◌==◌,
  is_some, or_else, if◌then◌else◌,
}
use vibe_guide_automation.Json.{Value}
use vibe_guide_automation.Delivery.{
  Step, all_steps, RunStatus, planned, running, get_step, DigestBinding, Evidence,
  lineage_incomplete, Failure, RunNode, Snapshot, Context, Event, retired, appended,
  evidence_invalidated, delivery_failed,
}
use vibe_guide_automation.Delivery.Binding.{
  remote_delivery_required, delivery_binding, binding_matches, is_digest,
}
use vibe_guide_automation.Delivery.Engine.{
  Outcome, is_succeeded, status_accepted, context_from_evidence, initial_evidence, Run, Ending,
  goes_on, returns, fails, finish_step, conclude,
}

abbrev pub Executor {ℓ} : Type ℓ → Type ℓ
Executor W = W → Step → Context → W × Outcome

module _ {ℓ} {W : Type ℓ} (execute : Executor W) (integration : Option RunNode)
    (binding : DigestBinding) where
  -- One round: a step that has succeeded before is passed over.
  unfoldable pub run_step : Step → Run W → Run W × Ending
  unfolding finish_step
  run_step step r =
      if is_succeeded (get_step r.evidence.steps step)
      then (r, goes_on)
      else let (world, outcome) = execute r.world step r.context in
        finish_step integration binding step outcome (record r { world = world })

  unfoldable pub run_steps : List Step → Run W → Run W × Ending
  unfolding run_step
  run_steps [] r = (r, goes_on)
  run_steps (step ∷ steps) r =
      let p = run_step step r in
      elim p.1 [ goes_on ↦ run_steps steps p.0 | returns ↦ p | fails _ ↦ p ]

  unfoldable pub run_all : Run W → Run W
  unfolding run_steps conclude
  run_all r = conclude (run_steps all_steps r)

-- What a call leaves: its answer, the snapshot, the world and the events recorded.
pub record Driven {ℓ} (W : Type ℓ) : Type ℓ where
  pub changed : Bool
  pub snapshot : Snapshot
  pub world : W
  pub events : List Event

abbrev pub fresh_node : RunNode
fresh_node = record { status = planned; branch = ""; failure = none; waiting_on = none }

-- The first of the three digests that is no digest.
abbrev pub bad_digest : DigestBinding → Option String
bad_digest b =
    if not (is_digest b.authorization_digest)
    then some "authorization_digest"
    else if not (is_digest b.node_contract_digest)
    then some "node_contract_digest"
    else if not (is_digest b.integration_digest)
    then some "integration_digest"
    else none

-- What the guards before the loop make of a snapshot.
pub data Decision : Type 0 where
  let_be : Decision
  retire : Decision
  refuse : String → RunNode → List Event → Decision
  begin : Option Evidence → Bool → RunNode → List Event → Decision

-- The loop over the three lineage digests.
abbrev pub check_lineage : DigestBinding → Option Evidence → Bool → RunNode → List Event → Decision
check_lineage binding prior drifted n events = elim (bad_digest binding) [
  | some key ↦ refuse key n events
  | none ↦ begin prior drifted n events
]

-- if evidence and not binding_matches(...): ... elif node.get("status") == "accepted": ...
abbrev pub check_binding : DigestBinding → Option Evidence → RunNode → List Event → Decision
check_binding binding none n events =
    if status_accepted (some n) then let_be else check_lineage binding none false n events
check_binding binding (some e) n events =
    if not (binding_matches e.binding binding)
    then check_lineage binding none true (record n { status = planned })
        (events ++ evidence_invalidated ∷ [])
    else if status_accepted (some n)
    then let_be
    else check_lineage binding (some e) false n events

-- node = nodes.get(REMOTE_DELIVERY_NODE_ID), appended where it is missing
abbrev pub check_node : DigestBinding → Option Evidence → Option RunNode → Decision
check_node binding e (some n) = check_binding binding e n []
check_node binding e none = check_binding binding e fresh_node (appended ∷ [])

unfoldable pub decide_drive : DigestBinding → Snapshot → Decision
decide_drive binding s =
    if is_some s.delivery && not (remote_delivery_required s.remote_git_actions)
    then retire
    else if not (remote_delivery_required s.remote_git_actions)
    then let_be
    else if not (status_accepted s.integration)
    then let_be
    else if binding.integration_digest == ""
    then let_be
    else check_node binding s.evidence s.delivery

-- The variables of the loop before its first round.
abbrev pub beginning {ℓ} :
    {W : Type ℓ}
    → DigestBinding
    → Option Evidence
    → Bool
    → W
    → RunNode
    → Snapshot
    → List Event
    → Run W
beginning binding prior drifted w n s events =
    let context = context_from_evidence prior s in
    record {
      world = w;
      evidence = or_else prior (initial_evidence binding drifted context s);
      node = record n { status = running };
      context = context;
      events = events;
    }

module _ {ℓ} {W : Type ℓ} (execute : Executor W) where
  -- From `context = _context_from_evidence(...)` to the end.
  unfoldable pub start :
      DigestBinding → Option Evidence → Bool → W → RunNode → Snapshot → List Event → Driven W
  unfolding run_all
  start binding prior drifted w n s events =
      let r =
        run_all execute s.integration binding (beginning binding prior drifted w n s events) in
      record {
        changed = true;
        snapshot = record s { delivery = some r.node; evidence = some r.evidence };
        world = r.world;
        events = r.events;
      }

  unfoldable pub perform : DigestBinding → W → Snapshot → Decision → Driven W
  unfolding start
  perform binding w s let_be = record { changed = false; snapshot = s; world = w; events = [] }
  perform binding w s retire = record {
    changed = true;
    snapshot = record s { delivery = none; evidence = none };
    world = w;
    events = retired ∷ [];
  }
  perform binding w s (refuse key n events) = record {
    changed = true;
    snapshot = record s {
      delivery = some (record n {
        status = RunStatus.blocked_unknown;
        failure = some (record { step = none; reason = lineage_incomplete key; retryable = false });
      });
    };
    world = w;
    events = events ++ delivery_failed none false ∷ [];
  }
  perform binding w s (begin prior drifted n events) = start binding prior drifted w n s events

  -- `digest` stands for `canonical_json_digest`.
  unfoldable pub drive_remote_delivery : (Value → String) → W → Snapshot → Driven W
  unfolding perform decide_drive
  drive_remote_delivery digest w s =
      let binding = delivery_binding digest s in perform binding w s (decide_drive binding s)
