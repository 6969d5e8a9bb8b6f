-- ===== src/Review/Closeout/Claim.antt =====
-- From a reviewer's claim to the closeout of the run, in vibe_guide/evidence.py.
use vibe_guide_automation.Common.{
  String, Bool, true, false, ◌&&◌, Option, none, some, ◌≡◌, refl, sym, ap, ◌∙◌, subst, inl, inr,
  Option-cases, and-both, if◌then◌else◌,
}
use vibe_guide_automation.Json.{Members, Elements, Value, object, array, get_member}
use vibe_guide_automation.Delivery.{RunNode, accepted, rework}
use vibe_guide_automation.Delivery.Binding.{remote_delivery_required}
use vibe_guide_automation.Review.{Run, Counted, malformed, counted, review_error, findings_of}
use vibe_guide_automation.Review.Findings.{are_resolved}
use vibe_guide_automation.Review.Closeout.{
  or_null, package_of, rejected, built, if_valid, assemble, members_of, claim_error,
  build_integration_review_evidence, prior_reviews, append_element, is_cleared, reviewed_node,
  recorded, record_integration_review, all_are_accepted, evaluate_v41_closeout,
}
use vibe_guide_automation.Review.Closeout.Passed.{
  Passed, review_error-Passed, is_cleared-Passed, without_history-set, get_member-set,
}
use vibe_guide_automation.Review.Closeout.Decide.{IsClosed, evaluate_v41_closeout_iff}

abbrev pub claimed : Value → Elements
claimed claim = findings_of (get_member (members_of claim) "findings")

-- What a package that is built is.
record Made (r : Run) (claim : Value) (e : Members) : Type 0 where
  valid : review_error r e ≡ none
  findings : findings_of (get_member e "findings") ≡ claimed claim

built-inj : {a b : Members} → built a ≡ built b → a ≡ b
built-inj h = cc

rejected-built {ℓ} : {A : Type ℓ} {m : String} {e : Members} → rejected m ≡ built e → A
rejected-built h = cc

or_null-findings : (v : Option Value) → findings_of (some (or_null v)) ≡ findings_of v
or_null-findings none = refl
or_null-findings (some v) = refl

if_valid-Made :
    (r : Run) (claim : Value) (o : Option String) (x e : Members)
    → review_error r x ≡ o
    → findings_of (get_member x "findings") ≡ claimed claim
    → if_valid o x ≡ built e
    → Made r claim e
if_valid-Made r claim none x e q f h =
    subst (Made r claim) (built-inj h) (record { valid = q; findings = f })
if_valid-Made r claim (some m) x e q f h = rejected-built h

module _ (r : Run) (claim : Value) (refs excluded : Elements) (e : Members) where
  assemble-Made :
      (o : Counted) → assemble r (members_of claim) refs excluded o ≡ built e → Made r claim e
  unfolding get_member
  assemble-Made (malformed m) h = rejected-built h
  assemble-Made (counted c) h =
      if_valid-Made r claim (review_error r (package_of r (members_of claim) refs excluded c))
        (package_of r (members_of claim) refs excluded c) e refl
        (or_null-findings (get_member (members_of claim) "findings")) h

  build-Made : build_integration_review_evidence r claim refs excluded ≡ built e → Made r claim e
  unfolding build_integration_review_evidence
  build-Made = elim (Option-cases (claim_error claim)) [
    | inl q ↦ rw (q, build_integration_review_evidence) (assemble-Made _)
    | inr (m, q) ↦ rw (q, build_integration_review_evidence) (λ h. rejected-built h)
  ]

bool_same : (a b : Bool) → (a ≡ true → b ≡ true) → (b ≡ true → a ≡ true) → a ≡ b
bool_same true b f g = sym (f refl)
bool_same false true f g = g refl
bool_same false false f g = refl

record_valid :
    (r : Run) (e : Members)
    → review_error r e ≡ none
    → record_integration_review r e ≡ some (recorded r e)
unfolding record_integration_review
record_valid r e h = rw (h, record_integration_review) refl

module _ (digest : Value → String) (r : Run) (e : Members) (n : RunNode) where
  abbrev history : Value
  history = array (
      append_element
        (prior_reviews r.snapshot.integration_review_evidence
          (get_member r.snapshot.integration_review_evidence "history"))
        (object e))

  abbrev next_node : RunNode
  next_node = record n {
    status = if is_cleared (get_member e "clearance") then accepted else rework;
  }

  same_checks : (x : Members) → review_error (recorded r e) x ≡ review_error r x
  unfolding review_error
  same_checks x = refl

  recorded-IsClosed :
      Passed e
      → review_error r e ≡ none
      → r.reconciles ≡ false
      → remote_delivery_required r.snapshot.remote_git_actions ≡ false
      → (all_are_accepted r.snapshot.others && are_resolved (findings_of (get_member e "findings")))
        ≡ true
      → IsClosed digest (recorded r e) next_node
  recorded-IsClosed p v q d h =
      let (business, resolved) = and-both (all_are_accepted r.snapshot.others) _ h in
      let cleared = is_cleared-Passed e p ∙ resolved in
      record {
        reconciled = q;
        business = business;
        reviewed = rw cleared refl;
        valid =
            ap (review_error (recorded r e)) (without_history-set e history p) ∙ same_checks e ∙ v;
        cleared = ap is_cleared (get_member-set e history "clearance" refl) ∙ cleared;
        ring = inl d;
      }

  recorded_allowed :
      review_error r e ≡ none
      → r.snapshot.integration ≡ some n
      → r.reconciles ≡ false
      → remote_delivery_required r.snapshot.remote_git_actions ≡ false
      → (evaluate_v41_closeout digest (recorded r e)).allowed ≡ (
          all_are_accepted r.snapshot.others
          && are_resolved (findings_of (get_member e "findings")))
  recorded_allowed v i q d =
      let p = review_error-Passed r e v in
      let j =
        evaluate_v41_closeout_iff digest (recorded r e) next_node
          (ap (reviewed_node (is_cleared (get_member e "clearance"))) i) in
      bool_same _ _
        (λ h.
          let c = j.0 h in
          let cleared =
            sym (is_cleared-Passed e p)
            ∙ ap is_cleared (sym (get_member-set e history "clearance" refl))
            ∙ c.cleared in
          rw (c.business, cleared) refl)
        (λ h. j.1 (recorded-IsClosed p v q d h))

-- A claim of which a package is built can be recorded, and then, where remote delivery is not asked
-- for and no node's workspace waits to be reconciled, the run is closed out just when every business
-- node is accepted and no P0, P1 or P2 finding of the claim is open.
pub build_integration_review_evidence-closeout :
    (digest : Value → String) (r : Run) (claim : Value) (refs excluded : Elements) (e : Members)
    (n : RunNode)
    → build_integration_review_evidence r claim refs excluded ≡ built e
    → r.snapshot.integration ≡ some n
    → r.reconciles ≡ false
    → remote_delivery_required r.snapshot.remote_git_actions ≡ false
    → (r' : Run) × (record_integration_review r e ≡ some r')
      × ((evaluate_v41_closeout digest r').allowed
          ≡ (all_are_accepted r.snapshot.others && are_resolved (claimed claim)))
build_integration_review_evidence-closeout digest r claim refs excluded e n b i q d =
    let m = build-Made r claim refs excluded e b in
    (
      recorded r e,
      record_valid r e m.valid,
      recorded_allowed digest r e n m.valid i q d
          ∙ ap (λ z. all_are_accepted r.snapshot.others && are_resolved z) m.findings,
    )
