-- ===== src/Delivery/Engine/Drive/Lineage.antt =====
-- What the digest binding does to stored evidence in `drive_remote_delivery` of
-- vibe_guide/remote_delivery.py.
use vibe_guide_automation.Common.{
  String, Bool, true, false, Option, none, some, List, ◌≡◌, refl, ◌∙◌, sym, arith, subst, inl, inr,
  absurd_eq,
}
use vibe_guide_automation.Json.{Value}
use vibe_guide_automation.Delivery.{
  Step, all_steps, get_step, DigestBinding, Evidence, RunNode, Snapshot, Event, github_review,
}
use vibe_guide_automation.Delivery.Binding.{delivery_binding, binding_matches}
use vibe_guide_automation.Delivery.Engine.{is_succeeded, status_accepted, initial_evidence}
use vibe_guide_automation.Delivery.Engine.Drive.{
  Executor, begin, decide_drive, drive_remote_delivery,
}
use vibe_guide_automation.Delivery.Engine.Drive.Rounds.{IsConfirmed, IsReviewed, GoesThrough}
use vibe_guide_automation.Delivery.Engine.Drive.Accept.{
  All-done, initial_evidence-IsGated, drive-Through, evidence_before,
}

-- What the loop starts from, by the binding of the stored evidence.
decide_drive-matching :
    (binding : DigestBinding) (s : Snapshot) (e : Evidence) {prior : Option Evidence}
    {drifted : Bool} {n : RunNode} {events : List Event}
    → s.evidence ≡ some e
    → binding_matches e.binding binding ≡ true
    → decide_drive binding s ≡ begin prior drifted n events
    → prior ≡ some e
unfolding decide_drive
decide_drive-matching binding s e p m h = ground arith

decide_drive-drifted :
    (binding : DigestBinding) (s : Snapshot) (e : Evidence) {prior : Option Evidence}
    {drifted : Bool} {n : RunNode} {events : List Event}
    → s.evidence ≡ some e
    → binding_matches e.binding binding ≡ false
    → decide_drive binding s ≡ begin prior drifted n events
    → (prior ≡ none) × (drifted ≡ true)
unfolding decide_drive
decide_drive-drifted binding s e p m h = ground arith

evidence_before-drifted :
    (binding : DigestBinding) (s : Snapshot)
    → (evidence_before binding none true s).binding_drifted ≡ true
unfolding initial_evidence
evidence_before-drifted binding s = refl

evidence_before-binding :
    (binding : DigestBinding) (s : Snapshot)
    → (evidence_before binding none true s).binding ≡ some binding
unfolding initial_evidence
evidence_before-binding binding s = refl

IsReviewed-github :
    (e : Evidence) → e.binding_drifted ≡ true → IsReviewed e → e.review_basis ≡ some github_review
IsReviewed-github e d (inl p) = p
IsReviewed-github e d (inr (p, q)) = absurd_eq (sym q ∙ d)

module _ {ℓ} {W : Type ℓ} (execute : Executor W) (digest : Value → String) (w : W)
    (s : Snapshot) where
  -- A call that leaves the ring accepted keeps the record of every step that the stored evidence,
  -- bound to the current digests, had recorded as succeeded.
  pub drive_remote_delivery-kept :
      (e : Evidence)
      → s.evidence ≡ some e
      → binding_matches e.binding (delivery_binding digest s) ≡ true
      → (drive_remote_delivery execute digest w s).changed ≡ true
      → status_accepted (drive_remote_delivery execute digest w s).snapshot.delivery ≡ true
      → (e' : Evidence) × ((drive_remote_delivery execute digest w s).snapshot.evidence ≡ some e')
        × ((a : Step)
            → is_succeeded (get_step e.steps a) ≡ true
            → get_step e'.steps a ≡ get_step e.steps a)
  drive_remote_delivery-kept e p m c h =
      let t = drive-Through execute digest w s c h in
      let q = decide_drive-matching (delivery_binding digest s) s e p m t.decided in
      let through =
        subst
          (λ o.
            GoesThrough all_steps (evidence_before (delivery_binding digest s) o t.drifted s)
              t.after)
          q t.accepts.through in
      (t.after, t.stored, through.kept)

  -- Where the stored evidence is bound to other digests, a call that leaves the ring accepted has a
  -- GitHub review behind it and a fresh confirmation: the integration review does not stand in.
  pub drive_remote_delivery-drifted :
      (e : Evidence)
      → s.evidence ≡ some e
      → binding_matches e.binding (delivery_binding digest s) ≡ false
      → (drive_remote_delivery execute digest w s).changed ≡ true
      → status_accepted (drive_remote_delivery execute digest w s).snapshot.delivery ≡ true
      → (e' : Evidence) × ((drive_remote_delivery execute digest w s).snapshot.evidence ≡ some e')
        × (e'.review_basis ≡ some github_review)
        × IsConfirmed e'
        × (e'.binding ≡ some (delivery_binding digest s))
  drive_remote_delivery-drifted e p m c h =
      let b = delivery_binding digest s in
      let t = drive-Through execute digest w s c h in
      let q = decide_drive-drifted b s e p m t.decided in
      let through : GoesThrough all_steps (evidence_before b none true s) t.after =
        subst (λ o. GoesThrough all_steps (evidence_before b o true s) t.after) q.0
          (subst (λ o. GoesThrough all_steps (evidence_before b t.prior o s) t.after) q.1
            t.accepts.through) in
      let gated = through.gated (initial_evidence-IsGated b true s) in
      let done = All-done t.after through.done in
      (
        t.after,
        t.stored,
        IsReviewed-github t.after (through.drift_kept ∙ evidence_before-drifted b s)
            (gated.reviewed (done Step.review)),
        gated.confirmed (done Step.verify),
        through.binding_kept ∙ evidence_before-binding b s,
      )
