-- ===== src/Delivery/Engine/Drive/Accept.antt =====
-- When `drive_remote_delivery` of vibe_guide/remote_delivery.py accepts the ring.
use vibe_guide_automation.Common.{
  String, Bool, true, Option, none, some, List, ◌≡◌, refl, sym, arith, subst, absurd_eq, All,
  or_else,
}
use vibe_guide_automation.Json.{Value}
use vibe_guide_automation.Delivery.{
  Step, all_steps, RunStatus, get_step, DigestBinding, EvidenceStatus, Evidence, RunNode, Snapshot,
  Event,
}
use vibe_guide_automation.Delivery.Binding.{remote_delivery_required, delivery_binding}
use vibe_guide_automation.Delivery.Engine.{
  is_succeeded, status_accepted, Run, Ending, goes_on, returns, fails, conclude, initial_evidence,
  context_from_evidence,
}
use vibe_guide_automation.Delivery.Engine.Drive.{
  Executor, run_steps, run_all, Decision, let_be, retire, refuse, begin, bad_digest, decide_drive,
  start, perform, drive_remote_delivery,
}
use vibe_guide_automation.Delivery.Engine.Drive.Rounds.{
  IsReviewed, IsConfirmed, IsGated, GoesThrough, run_steps-GoesThrough,
}
use vibe_guide_automation.Delivery.Engine.Drive.Gate.{
  run_steps-returns, Begins, decide_drive-Begins,
}

-- The evidence that the loop starts from.
abbrev pub evidence_before : DigestBinding → Option Evidence → Bool → Snapshot → Evidence
evidence_before binding prior drifted s =
    or_else prior (initial_evidence binding drifted (context_from_evidence prior s) s)

module _ {ℓ} {W : Type ℓ} where
  conclude-accepted :
      (p : Run W × Ending)
      → (p.1 ≡ returns → p.0.node.status ≡ RunStatus.rework)
      → status_accepted (some (conclude p).node) ≡ true
      → (p.1 ≡ goes_on)
        × ((conclude p).evidence ≡ record p.0.evidence { status = EvidenceStatus.accepted })
  unfolding conclude
  conclude-accepted (r, goes_on) back h = (refl, refl)
  conclude-accepted (r, returns) back h = let b = back refl in ground arith
  conclude-accepted (r, fails x) back h = absurd_eq h

-- What accepting has done to the evidence.
pub record Accepts (e e' : Evidence) : Type 0 where
  pub through : GoesThrough all_steps e e'
  pub status : e'.status ≡ EvidenceStatus.accepted

GoesThrough-status :
    (e e' : Evidence)
    → GoesThrough all_steps e e'
    → Accepts e (record e' { status = EvidenceStatus.accepted })
GoesThrough-status e e' t = record {
  through = record {
    done = t.done;
    kept = t.kept;
    gated = λ g. let g' = t.gated g in record { reviewed = g'.reviewed; confirmed = g'.confirmed };
    binding_kept = t.binding_kept;
    drift_kept = t.drift_kept;
  };
  status = refl;
}

module _ {ℓ} {W : Type ℓ} (execute : Executor W) where
  run_all-accepted :
      (integration : Option RunNode) (binding : DigestBinding) (r : Run W)
      → status_accepted (some (run_all execute integration binding r).node) ≡ true
      → Accepts r.evidence (run_all execute integration binding r).evidence
  unfolding run_all
  run_all-accepted integration binding r h =
      let c =
        conclude-accepted (run_steps execute integration binding all_steps r)
          (run_steps-returns execute integration binding all_steps r) h in
      subst (Accepts r.evidence) (sym c.1) (
        GoesThrough-status r.evidence _
          (run_steps-GoesThrough execute integration binding all_steps r c.0))

  -- A call that leaves the ring accepted has run the loop through.
  pub record Through (binding : DigestBinding) (s s' : Snapshot) (x : Decision) : Type 0 where
    pub prior : Option Evidence
    pub drifted : Bool
    pub node : RunNode
    pub events : List Event
    pub decided : x ≡ begin prior drifted node events
    pub after : Evidence
    pub stored : s'.evidence ≡ some after
    pub accepts : Accepts (evidence_before binding prior drifted s) after

  perform-Through :
      (binding : DigestBinding) (w : W) (s : Snapshot) (x : Decision)
      → (perform execute binding w s x).changed ≡ true
      → status_accepted (perform execute binding w s x).snapshot.delivery ≡ true
      → Through binding s (perform execute binding w s x).snapshot x
  unfolding perform start
  perform-Through binding w s let_be c h = absurd_eq c
  perform-Through binding w s retire c h = absurd_eq h
  perform-Through binding w s (refuse key n events) c h = absurd_eq h
  perform-Through binding w s (begin prior drifted n events) c h = record {
    prior = prior;
    drifted = drifted;
    node = n;
    events = events;
    decided = refl;
    after = _;
    stored = refl;
    accepts = run_all-accepted s.integration binding _ h;
  }

-- The stored evidence has passed its gates.
abbrev pub IsStoredGated : Option Evidence → Type 0
IsStoredGated o = (e : Evidence) → o ≡ some e → IsGated e

pub initial_evidence-IsGated :
    (binding : DigestBinding) (drifted : Bool) (s : Snapshot)
    → IsGated (evidence_before binding none drifted s)
unfolding initial_evidence
initial_evidence-IsGated binding drifted s = record {
  reviewed = λ h. absurd_eq h;
  confirmed = λ h. absurd_eq h;
}

evidence_before-IsGated :
    (binding : DigestBinding) (s : Snapshot) (prior : Option Evidence) (drifted : Bool)
    → IsStoredGated s.evidence
    → Begins binding s prior drifted
    → IsGated (evidence_before binding prior drifted s)
evidence_before-IsGated binding s none drifted g b = initial_evidence-IsGated binding drifted s
evidence_before-IsGated binding s (some e) drifted g b = g e (b.resumed e refl).0

-- What an accepted ring rests on.
pub record IsDelivered (binding : DigestBinding) (s : Snapshot) (e : Evidence) : Type 0 where
  pub allowed : remote_delivery_required s.remote_git_actions ≡ true
  pub integrated : status_accepted s.integration ≡ true
  pub lineage : bad_digest binding ≡ none
  pub status : e.status ≡ EvidenceStatus.accepted
  pub done : (a : Step) → is_succeeded (get_step e.steps a) ≡ true
  pub reviewed : IsReviewed e
  pub confirmed : IsConfirmed e

pub All-done :
    (e : Evidence)
    → All (λ a. is_succeeded (get_step e.steps a) ≡ true) all_steps
    → (a : Step) → is_succeeded (get_step e.steps a) ≡ true
All-done e (p, o) Step.prepare = p
All-done e (p, (q, o)) Step.push = q
All-done e (p, (q, (x, o))) Step.create_pr = x
All-done e (p, (q, (x, (y, o)))) Step.review = y
All-done e (p, (q, (x, (y, (z, o))))) Step.merge = z
All-done e (p, (q, (x, (y, (z, (v, o)))))) Step.verify = v

module _ {ℓ} {W : Type ℓ} (execute : Executor W) (digest : Value → String) (w : W)
    (s : Snapshot) where
  Through-IsDelivered :
      (binding : DigestBinding) (s' : Snapshot)
      → IsStoredGated s.evidence
      → (t : Through execute binding s s' (decide_drive binding s)) → IsDelivered binding s t.after
  Through-IsDelivered binding s' g t =
      let b = decide_drive-Begins binding s t.decided in
      let done = All-done t.after t.accepts.through.done in
      let gated =
        t.accepts.through.gated (evidence_before-IsGated binding s t.prior t.drifted g b) in
      record {
        allowed = b.allowed;
        integrated = b.integrated;
        lineage = b.lineage;
        status = t.accepts.status;
        done = done;
        reviewed = gated.reviewed (done Step.review);
        confirmed = gated.confirmed (done Step.verify);
      }

  pub drive-Through :
      (drive_remote_delivery execute digest w s).changed ≡ true
      → status_accepted (drive_remote_delivery execute digest w s).snapshot.delivery ≡ true
      → Through execute
          (delivery_binding digest s)
          s
          (drive_remote_delivery execute digest w s).snapshot
          (decide_drive (delivery_binding digest s) s)
  unfolding drive_remote_delivery
  drive-Through = perform-Through execute (delivery_binding digest s) w s _

  -- A call from gated evidence that leaves the ring accepted stores evidence in which every step has
  -- succeeded, the review has passed and the remote facts have confirmed the merge; the switch is on,
  -- the integration review accepted and the lineage complete.
  pub drive_remote_delivery-IsDelivered :
      IsStoredGated s.evidence
      → (drive_remote_delivery execute digest w s).changed ≡ true
      → status_accepted (drive_remote_delivery execute digest w s).snapshot.delivery ≡ true
      → (e : Evidence) × ((drive_remote_delivery execute digest w s).snapshot.evidence ≡ some e)
        × IsDelivered (delivery_binding digest s) s e
  drive_remote_delivery-IsDelivered g c h =
      let t = drive-Through c h in (t.after, t.stored, Through-IsDelivered _ _ g t)
