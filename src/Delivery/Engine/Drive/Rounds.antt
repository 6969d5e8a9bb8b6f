-- ===== src/Delivery/Engine/Drive/Rounds.antt =====
-- One round of the delivery loop in vibe_guide/remote_delivery.py: what it records and what it keeps.
use vibe_guide_automation.Common.{
  Bool, true, false, Option, none, some, List, [], ◌∷◌, ◌≡◌, ◌≢◌, refl, ◌∙◌, ap, arith, ◌⊎◌, inl,
  inr, eq_refl, Bool-cases, All,
}
use vibe_guide_automation.Delivery.{
  Step, prepare, review, verify, StepRecord, Steps, get_step, set_step, DigestBinding,
  github_review, integration_review_evidence, Evidence, RunNode, Verification, Facts, Failure,
}
use vibe_guide_automation.Delivery.Engine.{
  Outcome, facts, nothing, raises, is_succeeded, Run, Ending, goes_on, returns, fails, after_review,
  after_verify, record_success, finish_step,
}
use vibe_guide_automation.Delivery.Engine.Drive.{Executor, run_step, run_steps}

pub set_step_self : (a : Step) (x : Option StepRecord) (t : Steps) → get_step (set_step a x t) a ≡ x
set_step_self prepare x t = refl
set_step_self _ x t = refl

-- Writing one step leaves the records of the steps that had succeeded.
set_step_kept :
    (a b : Step) (x : Option StepRecord) (t : Steps)
    → is_succeeded (get_step t a) ≡ false
    → is_succeeded (get_step t b) ≡ true
    → get_step (set_step a x t) b ≡ get_step t b
set_step_kept a b x t new old = ground arith

-- The evidence of a review that let the merge go ahead.
abbrev pub IsReviewed : Evidence → Type 0
IsReviewed e =
    (e.review_basis ≡ some github_review)
    ⊎ ((e.review_basis ≡ some integration_review_evidence) × (e.binding_drifted ≡ false))

-- The remote facts confirmed the merge.
abbrev is_confirmed : Option Verification → Bool
is_confirmed none = false
is_confirmed (some v) = v.verified

abbrev pub IsConfirmed : Evidence → Type 0
IsConfirmed e = is_confirmed e.remote_verification ≡ true

-- A step that is recorded as succeeded has passed its gate.
pub record IsGated (e : Evidence) : Type 0 where
  pub reviewed : is_succeeded e.steps.at_review ≡ true → IsReviewed e
  pub confirmed : is_succeeded e.steps.at_verify ≡ true → IsConfirmed e

-- What a round that goes on has kept and recorded.
pub record GoesOn (step : Step) (e e' : Evidence) : Type 0 where
  pub done : is_succeeded (get_step e'.steps step) ≡ true
  pub kept :
      (a : Step)
      → is_succeeded (get_step e.steps a) ≡ true
      → get_step e'.steps a ≡ get_step e.steps a
  pub gated : IsGated e → IsGated e'
  pub binding_kept : e'.binding ≡ e.binding
  pub drift_kept : e'.binding_drifted ≡ e.binding_drifted

module _ {ℓ} {W : Type ℓ} where
  after_review-goes_on :
      (integration : Option RunNode) (binding : DigestBinding) (f : Facts) (r : Run W)
      → (after_review integration binding f r).1 ≡ goes_on
      → let e = (after_review integration binding f r).0.evidence in
        IsReviewed e
        × (e.steps ≡ r.evidence.steps)
        × (e.binding ≡ r.evidence.binding)
        × (e.binding_drifted ≡ r.evidence.binding_drifted)
        × (e.remote_verification ≡ r.evidence.remote_verification)
  unfolding after_review
  after_review-goes_on integration binding f r h = ground arith

  after_verify-goes_on :
      (f : Facts) (r : Run W)
      → (after_verify f r).1 ≡ goes_on
      → let e = (after_verify f r).0.evidence in
        IsConfirmed e
        × (e.steps ≡ r.evidence.steps)
        × (e.binding ≡ r.evidence.binding)
        × (e.binding_drifted ≡ r.evidence.binding_drifted)
        × (e.review_basis ≡ r.evidence.review_basis)
  unfolding after_verify
  after_verify-goes_on f r h = ground arith

module _ {ℓ} {W : Type ℓ} (execute : Executor W) (integration : Option RunNode)
    (binding : DigestBinding) where
  pub run_step-old :
      (step : Step) (r : Run W)
      → is_succeeded (get_step r.evidence.steps step) ≡ true
      → run_step execute integration binding step r ≡ (r, goes_on)
  unfolding run_step
  run_step-old step r e = ground arith

  run_step-new :
      (step : Step) (r : Run W)
      → is_succeeded (get_step r.evidence.steps step) ≡ false
      → run_step execute integration binding step r
        ≡ finish_step integration binding step
            (execute r.world step r.context).1
            (record r { world = (execute r.world step r.context).0 })
  unfolding run_step
  run_step-new step r e = ground arith

  finish_step-GoesOn :
      (step : Step) (o : Outcome) (r : Run W)
      → is_succeeded (get_step r.evidence.steps step) ≡ false
      → (finish_step integration binding step o r).1 ≡ goes_on
      → GoesOn step r.evidence (finish_step integration binding step o r).0.evidence
  unfolding finish_step record_success
  finish_step-GoesOn review (facts f) r new h =
      let p = after_review-goes_on integration binding f (record_success review f r) h in
      record {
        done = rw p.1 (eq_refl "succeeded");
        kept = λ a e. rw p.1 (set_step_kept review a _ r.evidence.steps new e);
        gated = λ g. record { reviewed = λ _. p.0; confirmed = rw (p.1, p.4) g.confirmed };
        binding_kept = p.2;
        drift_kept = p.3;
      }
  finish_step-GoesOn verify (facts f) r new h =
      let p = after_verify-goes_on f (record_success verify f r) h in
      record {
        done = rw p.1 (eq_refl "succeeded");
        kept = λ a e. rw p.1 (set_step_kept verify a _ r.evidence.steps new e);
        gated = λ g. record { reviewed = rw (p.1, p.3, p.4) g.reviewed; confirmed = λ _. p.0 };
        binding_kept = p.2;
        drift_kept = p.3;
      }
  finish_step-GoesOn prepare (facts f) r new h = record {
    done = eq_refl "succeeded";
    kept = λ a e. set_step_kept prepare a _ r.evidence.steps new e;
    gated = λ g. record { reviewed = g.reviewed; confirmed = g.confirmed };
    binding_kept = refl;
    drift_kept = refl;
  }
  finish_step-GoesOn step nothing r new h = cc
  finish_step-GoesOn step (raises x) r new h = cc
  finish_step-GoesOn step (facts f) r new h = record {
    done = eq_refl "succeeded";
    kept = λ a e. set_step_kept step a _ r.evidence.steps new e;
    gated = λ g. record { reviewed = g.reviewed; confirmed = g.confirmed };
    binding_kept = refl;
    drift_kept = refl;
  }

  GoesOn-refl :
      (step : Step) (r : Run W)
      → is_succeeded (get_step r.evidence.steps step) ≡ true
      → GoesOn step r.evidence r.evidence
  GoesOn-refl step r e = record {
    done = e;
    kept = λ a _. refl;
    gated = λ g. g;
    binding_kept = refl;
    drift_kept = refl;
  }

  -- A round that goes on has recorded its step, behind its gate, and kept the earlier ones.
  pub run_step-GoesOn :
      (step : Step) (r : Run W)
      → (run_step execute integration binding step r).1 ≡ goes_on
      → GoesOn step r.evidence (run_step execute integration binding step r).0.evidence
  run_step-GoesOn step r = elim (Bool-cases (is_succeeded (get_step r.evidence.steps step))) [
    | inl old ↦ rw (run_step-old step r old) (λ _. GoesOn-refl step r old)
    | inr new ↦ rw (run_step-new step r new) (finish_step-GoesOn step _ _ new)
  ]

-- What the loop has done when it goes through all of `steps`.
pub record GoesThrough (steps : List Step) (e e' : Evidence) : Type 0 where
  pub done : All (λ a. is_succeeded (get_step e'.steps a) ≡ true) steps
  pub kept :
      (a : Step)
      → is_succeeded (get_step e.steps a) ≡ true
      → get_step e'.steps a ≡ get_step e.steps a
  pub gated : IsGated e → IsGated e'
  pub binding_kept : e'.binding ≡ e.binding
  pub drift_kept : e'.binding_drifted ≡ e.binding_drifted

GoesThrough-nil : (e : Evidence) → GoesThrough [] e e
GoesThrough-nil e = record {
  done = tt;
  kept = λ a _. refl;
  gated = λ g. g;
  binding_kept = refl;
  drift_kept = refl;
}

GoesThrough-cons :
    (a : Step) (steps : List Step) (e e' e'' : Evidence)
    → GoesOn a e e'
    → GoesThrough steps e' e''
    → GoesThrough (a ∷ steps) e e''
GoesThrough-cons a steps e e' e'' g t =
    let kept : (b : Step)
        → is_succeeded (get_step e.steps b) ≡ true
        → get_step e''.steps b ≡ get_step e.steps b =
      λ b h. t.kept b (ap is_succeeded (g.kept b h) ∙ h) ∙ g.kept b h in
    record {
      done = (ap is_succeeded (t.kept a g.done) ∙ g.done, t.done);
      kept = kept;
      gated = λ x. t.gated (g.gated x);
      binding_kept = t.binding_kept ∙ g.binding_kept;
      drift_kept = t.drift_kept ∙ g.drift_kept;
    }

pub Ending-cases : (x : Ending) → (x ≡ goes_on) ⊎ ((x ≡ returns) ⊎ ((f : Failure) × (x ≡ fails f)))
Ending-cases goes_on = inl refl
Ending-cases returns = inr (inl refl)
Ending-cases (fails f) = inr (inr (f, refl))

module _ {ℓ} {W : Type ℓ} (execute : Executor W) (integration : Option RunNode)
    (binding : DigestBinding) where
  pub run_steps-next :
      (a : Step) (steps : List Step) (r : Run W)
      → (run_step execute integration binding a r).1 ≡ goes_on
      → run_steps execute integration binding (a ∷ steps) r
        ≡ run_steps execute integration binding steps (run_step execute integration binding a r).0
  unfolding run_steps
  run_steps-next a steps r e = ground arith

  pub run_steps-stop :
      (a : Step) (steps : List Step) (r : Run W)
      → (run_step execute integration binding a r).1 ≢ goes_on
      → run_steps execute integration binding (a ∷ steps) r
        ≡ run_step execute integration binding a r
  unfolding run_steps
  run_steps-stop a steps r e = ground arith

  pub run_steps-GoesThrough :
      (steps : List Step) (r : Run W)
      → (run_steps execute integration binding steps r).1 ≡ goes_on
      → GoesThrough steps r.evidence (run_steps execute integration binding steps r).0.evidence
  unfolding run_steps
  run_steps-GoesThrough [] r = λ h. GoesThrough-nil r.evidence
  run_steps-GoesThrough (a ∷ steps) r =
      elim (Ending-cases (run_step execute integration binding a r).1) [
        | inl on ↦ rw (run_steps-next a steps r on) λ h.
            GoesThrough-cons a steps r.evidence
              (run_step execute integration binding a r).0.evidence _
              (run_step-GoesOn execute integration binding a r on)
              (run_steps-GoesThrough steps (run_step execute integration binding a r).0 h)
        | inr off ↦ rw (run_steps-stop a steps r (λ e. ground arith)) (λ h. absurd (ground arith))
      ]
