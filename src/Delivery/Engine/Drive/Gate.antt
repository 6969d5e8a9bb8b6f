-- ===== src/Delivery/Engine/Drive/Gate.antt =====
-- When `drive_remote_delivery` of vibe_guide/remote_delivery.py accepts the ring.
use vibe_guide_automation.Common.{
  Bool, true, Option, none, some, List, [], ◌∷◌, ◌≡◌, arith, inl, inr,
}
use vibe_guide_automation.Delivery.{
  Step, prepare, RunStatus, DigestBinding, Evidence, RunNode, Snapshot, Event,
}
use vibe_guide_automation.Delivery.Binding.{remote_delivery_required, binding_matches}
use vibe_guide_automation.Delivery.Engine.{
  status_accepted, Run, returns, after_review, after_verify, finish_step,
}
use vibe_guide_automation.Delivery.Engine.Drive.{
  Executor, run_step, run_steps, begin, bad_digest, decide_drive,
}
use vibe_guide_automation.Delivery.Engine.Drive.Rounds.{
  Ending-cases, run_steps-next, run_steps-stop,
}

module _ {ℓ} {W : Type ℓ} (execute : Executor W) (integration : Option RunNode)
    (binding : DigestBinding) where
  run_step-returns :
      (a : Step) (r : Run W)
      → (run_step execute integration binding a r).1 ≡ returns
      → (run_step execute integration binding a r).0.node.status ≡ RunStatus.rework
  unfolding run_step finish_step after_review after_verify
  run_step-returns prepare r h = ground arith
  run_step-returns _ r h = ground arith

  -- The loop returns early only to ask for rework.
  pub run_steps-returns :
      (steps : List Step) (r : Run W)
      → (run_steps execute integration binding steps r).1 ≡ returns
      → (run_steps execute integration binding steps r).0.node.status ≡ RunStatus.rework
  unfolding run_steps
  run_steps-returns [] r = λ h. absurd (ground arith)
  run_steps-returns (a ∷ steps) r =
      elim (Ending-cases (run_step execute integration binding a r).1) [
        | inl on ↦
            rw (run_steps-next execute integration binding a steps r on)
              (run_steps-returns steps (run_step execute integration binding a r).0)
        | inr off ↦
            rw (run_steps-stop execute integration binding a steps r (λ e. ground arith))
              (run_step-returns a r)
      ]

-- Which decision begins the loop, and from what evidence.
pub record Begins (binding : DigestBinding) (s : Snapshot) (prior : Option Evidence)
    (drifted : Bool) : Type 0 where
  pub allowed : remote_delivery_required s.remote_git_actions ≡ true
  pub integrated : status_accepted s.integration ≡ true
  pub lineage : bad_digest binding ≡ none
  pub resumed :
      (e : Evidence)
      → prior ≡ some e
      → (s.evidence ≡ some e) × (binding_matches e.binding binding ≡ true)

pub decide_drive-Begins :
    (binding : DigestBinding) (s : Snapshot) {prior : Option Evidence} {drifted : Bool}
    {n : RunNode} {events : List Event}
    → decide_drive binding s ≡ begin prior drifted n events
    → Begins binding s prior drifted
unfolding decide_drive
decide_drive-Begins binding s h = record {
  allowed = ground arith;
  integrated = ground arith;
  lineage = ground arith;
  resumed = λ e p. ground arith;
}
