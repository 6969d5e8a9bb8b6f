-- ===== src/Delivery/Engine/Drive/Settle.antt =====
-- What a call of `drive_remote_delivery` in vibe_guide/remote_delivery.py leaves, whichever way it ends.
use vibe_guide_automation.Common.{
  String, true, false, Option, none, some, List, [], ◌∷◌, ◌≡◌, refl, ◌∙◌, sym, ap, arith, subst,
  some-inj, ◌⊎◌, inl, inr, ◌==◌, eq_iff, Bool-cases, absurd_eq, All, is_some,
}
use vibe_guide_automation.Json.{Value}
use vibe_guide_automation.Delivery.{
  Step, all_steps, RunStatus, get_step, DigestBinding, EvidenceStatus, Evidence, RunNode, Snapshot,
  delivery_accepted,
}
use vibe_guide_automation.Delivery.Binding.{
  remote_delivery_required, delivery_binding, binding_matches, is_digest,
}
use vibe_guide_automation.Delivery.Engine.{
  is_succeeded, status_accepted, Run, Ending, goes_on, returns, fails, conclude,
}
use vibe_guide_automation.Delivery.Engine.Drive.{
  Executor, run_steps, run_all, Driven, Decision, let_be, retire, refuse, begin, bad_digest,
  decide_drive, beginning, start, perform, drive_remote_delivery,
}
use vibe_guide_automation.Delivery.Engine.Drive.Rounds.{run_step-old, run_steps-next}
use vibe_guide_automation.Delivery.Engine.Drive.Gate.{run_steps-returns, decide_drive-Begins}

-- The guards before any remote action.
pub record IsOpen (binding : DigestBinding) (s : Snapshot) : Type 0 where
  pub allowed : remote_delivery_required s.remote_git_actions ≡ true
  pub integrated : status_accepted s.integration ≡ true
  pub lineage : bad_digest binding ≡ none

bad_digest-integration :
    (b : DigestBinding) → bad_digest b ≡ none → is_digest b.integration_digest ≡ true
bad_digest-integration b h = ground arith

is_digest-non_empty : (t : String) → is_digest t ≡ true → (t == "") ≡ false
unfolding is_digest
is_digest-non_empty t h = elim (Bool-cases (t == "")) [
  | inl e ↦ absurd_eq (ap is_digest (sym ((eq_iff t "").0 e)) ∙ h)
  | inr e ↦ e
]

decide_drive-resumed :
    (binding : DigestBinding) (s : Snapshot) (n : RunNode) (e : Evidence)
    → IsOpen binding s
    → s.delivery ≡ some n
    → status_accepted (some n) ≡ false
    → s.evidence ≡ some e
    → binding_matches e.binding binding ≡ true
    → decide_drive binding s ≡ begin (some e) false n []
unfolding decide_drive
decide_drive-resumed binding s n e o d a p m =
    let x = o.allowed in
    let y = o.integrated in
    let z = o.lineage in
    let v = is_digest-non_empty binding.integration_digest (bad_digest-integration binding z) in
    ground arith

-- The ring has come to rest, and where it is blocked it says why.
pub data IsSettled : RunNode → Type 0 where
  accepted : {n : RunNode} → n.status ≡ RunStatus.accepted → n.failure ≡ none → IsSettled n
  rework : {n : RunNode} → n.status ≡ RunStatus.rework → IsSettled n
  blocked :
      {n : RunNode} → n.status ≡ RunStatus.blocked_unknown → is_some n.failure ≡ true → IsSettled n

module _ {ℓ} {W : Type ℓ} where
  conclude-IsSettled :
      (p : Run W × Ending)
      → (p.1 ≡ returns → p.0.node.status ≡ RunStatus.rework)
      → IsSettled (conclude p).node
  unfolding conclude
  conclude-IsSettled (r, goes_on) back = accepted refl refl
  conclude-IsSettled (r, returns) back = rework (back refl)
  conclude-IsSettled (r, fails x) back = blocked refl refl

module _ {ℓ} {W : Type ℓ} (execute : Executor W) where
  run_all-IsSettled :
      (integration : Option RunNode) (binding : DigestBinding) (r : Run W)
      → IsSettled (run_all execute integration binding r).node
  unfolding run_all
  run_all-IsSettled integration binding r =
      conclude-IsSettled (run_steps execute integration binding all_steps r)
        (run_steps-returns execute integration binding all_steps r)

  perform-IsSettled :
      (binding : DigestBinding) (w : W) (s : Snapshot) (x : Decision)
      → (perform execute binding w s x).changed ≡ true
      → (n : RunNode) → (perform execute binding w s x).snapshot.delivery ≡ some n
      → IsSettled n
  unfolding perform start
  perform-IsSettled binding w s let_be c n p = absurd_eq c
  perform-IsSettled binding w s retire c n p = absurd (ground arith)
  perform-IsSettled binding w s (refuse key m events) c n p =
      subst IsSettled (some-inj p) (blocked refl refl)
  perform-IsSettled binding w s (begin prior drifted m events) c n p =
      subst IsSettled (some-inj p)
        (run_all-IsSettled s.integration binding (beginning binding prior drifted w m s events))

  -- A call that changes the snapshot leaves no ring, or one that is accepted, in rework, or blocked
  -- with the reason recorded.
  pub drive_remote_delivery-IsSettled :
      (digest : Value → String) (w : W) (s : Snapshot)
      → (drive_remote_delivery execute digest w s).changed ≡ true
      → (n : RunNode) → (drive_remote_delivery execute digest w s).snapshot.delivery ≡ some n
      → IsSettled n
  unfolding drive_remote_delivery
  drive_remote_delivery-IsSettled digest w s = perform-IsSettled (delivery_binding digest s) w s _

  perform-IsOpen :
      (binding : DigestBinding) (w : W) (s : Snapshot) (x : Decision)
      → (decide_drive binding s ≡ x)
      → IsOpen binding s ⊎ ((perform execute binding w s x).world ≡ w)
  unfolding perform
  perform-IsOpen binding w s let_be h = inr refl
  perform-IsOpen binding w s retire h = inr refl
  perform-IsOpen binding w s (refuse key m events) h = inr refl
  perform-IsOpen binding w s (begin prior drifted m events) h =
      let b = decide_drive-Begins binding s h in
      inl (record { allowed = b.allowed; integrated = b.integrated; lineage = b.lineage })

  -- The executor is called only behind the switch, the accepted integration review and the complete
  -- lineage: otherwise the outside world is as it was.
  pub drive_remote_delivery-IsOpen :
      (digest : Value → String) (w : W) (s : Snapshot)
      → IsOpen (delivery_binding digest s) s
        ⊎ ((drive_remote_delivery execute digest w s).world ≡ w)
  unfolding drive_remote_delivery
  drive_remote_delivery-IsOpen digest w s = perform-IsOpen (delivery_binding digest s) w s _ refl

  run_steps-old :
      (integration : Option RunNode) (binding : DigestBinding) (steps : List Step) (r : Run W)
      → All (λ a. is_succeeded (get_step r.evidence.steps a) ≡ true) steps
      → run_steps execute integration binding steps r ≡ (r, goes_on)
  unfolding run_steps
  run_steps-old integration binding [] r h = refl
  run_steps-old integration binding (a ∷ steps) r (p, h) =
      let q = run_step-old execute integration binding a r p in
      run_steps-next execute integration binding a steps r (ap (λ (z : Run W × Ending). z.1) q)
      ∙ ap (λ z. run_steps execute integration binding steps z.0) q
      ∙ run_steps-old integration binding steps r h

  run_all-old :
      (integration : Option RunNode) (binding : DigestBinding) (r : Run W)
      → All (λ a. is_succeeded (get_step r.evidence.steps a) ≡ true) all_steps
      → run_all execute integration binding r ≡ conclude (r, goes_on)
  unfolding run_all
  run_all-old integration binding r h =
      ap conclude (run_steps-old integration binding all_steps r h)

  perform-old :
      (binding : DigestBinding) (e : Evidence) (w : W) (n : RunNode) (s : Snapshot)
      → All (λ a. is_succeeded (get_step e.steps a) ≡ true) all_steps
      → perform execute binding w s (begin (some e) false n []) ≡ record {
        changed = true;
        snapshot = record s {
          delivery = some (record n { status = RunStatus.accepted; failure = none });
          evidence = some (record e { status = EvidenceStatus.accepted });
        };
        world = w;
        events = delivery_accepted ∷ [];
      }
  unfolding perform start conclude
  perform-old binding e w n s h =
      let r = beginning binding (some e) false w n s [] in
      rw (run_all-old s.integration binding r h) refl

  -- A ring whose stored evidence has every step recorded is accepted with no call of the executor,
  -- also where `remote_verification` does not confirm the merge.
  pub drive_remote_delivery-resumed :
      (digest : Value → String) (w : W) (s : Snapshot) (n : RunNode) (e : Evidence)
      → IsOpen (delivery_binding digest s) s
      → s.delivery ≡ some n
      → status_accepted (some n) ≡ false
      → s.evidence ≡ some e
      → binding_matches e.binding (delivery_binding digest s) ≡ true
      → All (λ a. is_succeeded (get_step e.steps a) ≡ true) all_steps
      → ((drive_remote_delivery execute digest w s).world ≡ w)
        × (status_accepted (drive_remote_delivery execute digest w s).snapshot.delivery ≡ true)
        × ((drive_remote_delivery execute digest w s).snapshot.evidence
            ≡ some (record e { status = EvidenceStatus.accepted }))
  unfolding drive_remote_delivery
  drive_remote_delivery-resumed digest w s n e o d a p m h =
      let b = delivery_binding digest s in
      let q =
        ap (perform execute b w s) (decide_drive-resumed b s n e o d a p m)
        ∙ perform-old b e w n s h in
      (
        ap (λ (z : Driven W). z.world) q,
        ap (λ (z : Driven W). status_accepted z.snapshot.delivery) q,
        ap (λ (z : Driven W). z.snapshot.evidence) q,
      )
