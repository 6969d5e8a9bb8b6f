-- ===== src/Review/Closeout/Decide.antt =====
-- When a run is closed out, in vibe_guide/evidence.py.
use vibe_guide_automation.Common.{
  String, Bool, true, false, not, Option, none, some, List, [], ◌∷◌, ◌≡◌, ◌↔◌, ◌⊎◌, refl, sym, ◌∙◌,
  inl, inr, Bool-cases, absurd_eq, append-eq-nil,
}
use vibe_guide_automation.Json.{Members, no_member, member, Value, get_member}
use vibe_guide_automation.Delivery.{Snapshot, RunNode, Evidence}
use vibe_guide_automation.Delivery.Binding.{remote_delivery_required, without_history}
use vibe_guide_automation.Delivery.Validate.{delivery_evidence_current}
use vibe_guide_automation.Review.{Run, review_error}
use vibe_guide_automation.Review.Closeout.{
  is_cleared, is_node_accepted, all_are_accepted, reason_if, reason_of, evidence_reasons,
  delivered_reason, delivery_reason, ring_reasons, decided, with_ring, closeout_reasons,
  closeout_with, evaluate_v41_closeout,
}

-- The ring is delivered where the authorization asks for one.
pub record IsDelivered (digest : Value → String) (s : Snapshot) : Type 0 where
  pub node : RunNode
  pub there : s.delivery ≡ some node
  pub node_accepted : is_node_accepted node ≡ true
  pub evidence : Evidence
  pub stored : s.evidence ≡ some evidence
  pub is_current : delivery_evidence_current digest s evidence ≡ true

-- What a closeout of a run with an integration review asks for.
pub record IsClosed (digest : Value → String) (r : Run) (n : RunNode) : Type 0 where
  pub reconciled : r.reconciles ≡ false
  pub business : all_are_accepted r.snapshot.others ≡ true
  pub reviewed : is_node_accepted n ≡ true
  pub valid : review_error r (without_history r.snapshot.integration_review_evidence) ≡ none
  pub cleared : is_cleared (get_member r.snapshot.integration_review_evidence "clearance") ≡ true
  pub ring :
      (remote_delivery_required r.snapshot.remote_git_actions ≡ false)
      ⊎ IsDelivered digest r.snapshot

reason_if-nil : (b : Bool) (m : String) → reason_if (not b) m ≡ [] → b ≡ true
reason_if-nil true m h = refl
reason_if-nil false m h = cc

reason_of-nil : (o : Option String) → reason_of o ≡ [] → o ≡ none
reason_of-nil none h = refl
reason_of-nil (some m) h = cc

evidence_reasons-nil :
    (r : Run) (e : Members)
    → evidence_reasons r e ≡ []
    → (review_error r (without_history e) ≡ none) × (is_cleared (get_member e "clearance") ≡ true)
evidence_reasons-nil r no_member h = cc
evidence_reasons-nil r (member k v ms) h =
    let (x, y) = append-eq-nil (reason_of _) _ h in (reason_of-nil _ x, reason_if-nil _ _ y)

evidence_reasons-clear :
    (r : Run) (e : Members)
    → review_error r (without_history e) ≡ none
    → is_cleared (get_member e "clearance") ≡ true
    → evidence_reasons r e ≡ []
unfolding get_member
evidence_reasons-clear r no_member h i = absurd_eq i
evidence_reasons-clear r (member k v ms) h i = rw (h, i) refl

decided-allowed : (xs : List String) → (decided xs).allowed ≡ true → xs ≡ []
decided-allowed [] h = refl
decided-allowed (x ∷ xs) h = absurd_eq h

module _ (digest : Value → String) where
  with_ring-nil :
      (s : Snapshot) (xs : List String)
      → with_ring digest s xs ≡ []
      → (xs ≡ []) × (ring_reasons digest s ≡ [])
  with_ring-nil s [] h = (refl, h)
  with_ring-nil s (x ∷ xs) h = cc

  IsDelivered-there :
      (s : Snapshot) (n : RunNode) (e : Option Evidence)
      → s.delivery ≡ some n
      → is_node_accepted n ≡ true
      → s.evidence ≡ e
      → delivered_reason digest s e ≡ []
      → IsDelivered digest s
  IsDelivered-there s n none d a q h = cc
  IsDelivered-there s n (some e) d a q h = record {
    node = n;
    there = d;
    node_accepted = a;
    evidence = e;
    stored = q;
    is_current = reason_if-nil (delivery_evidence_current digest s e) _ h;
  }

  ring-IsDelivered :
      (s : Snapshot) (d : Option RunNode)
      → s.delivery ≡ d
      → delivery_reason digest s d s.evidence ≡ []
      → IsDelivered digest s
  ring-IsDelivered s none q = λ h. cc
  ring-IsDelivered s (some n) q = elim (Bool-cases (is_node_accepted n)) [
    | inl e ↦ rw e (IsDelivered-there s n s.evidence q e refl)
    | inr e ↦ rw e (λ h. cc)
  ]

  ring_asked :
      (s : Snapshot)
      → ring_reasons digest s ≡ []
      → (remote_delivery_required s.remote_git_actions ≡ false) ⊎ IsDelivered digest s
  ring_asked s = elim (Bool-cases (remote_delivery_required s.remote_git_actions)) [
    | inl e ↦ rw e (λ h. inr (ring-IsDelivered s s.delivery refl h))
    | inr e ↦ λ h. inl e
  ]

  ring_clear :
      (s : Snapshot)
      → (remote_delivery_required s.remote_git_actions ≡ false) ⊎ IsDelivered digest s
      → ring_reasons digest s ≡ []
  unfolding delivery_evidence_current
  ring_clear s (inl e) = rw e refl
  ring_clear s (inr d) = elim (Bool-cases (remote_delivery_required s.remote_git_actions)) [
    | inl e ↦ rw (e, d.there, d.node_accepted, d.stored, d.is_current) refl
    | inr e ↦ rw e refl
  ]

  closeout-IsClosed :
      (r : Run) (n : RunNode)
      → r.reconciles ≡ false
      → (closeout_with digest r (some n)).allowed ≡ true
      → IsClosed digest r n
  closeout-IsClosed r n q h =
      let (x, y) = with_ring-nil r.snapshot (closeout_reasons digest r n) (decided-allowed _ h) in
      let (business, x) =
        append-eq-nil (reason_if (not (all_are_accepted r.snapshot.others)) _) _ x in
      let (reviewed, x) = append-eq-nil (reason_if (not (is_node_accepted n)) _) _ x in
      let (valid, cleared) = evidence_reasons-nil r r.snapshot.integration_review_evidence x in
      record {
        reconciled = q;
        business = reason_if-nil _ _ business;
        reviewed = reason_if-nil _ _ reviewed;
        valid = valid;
        cleared = cleared;
        ring = ring_asked r.snapshot y;
      }

  IsClosed-closeout :
      (r : Run) (n : RunNode)
      → IsClosed digest r n
      → (closeout_with digest r (some n)).allowed ≡ true
  IsClosed-closeout r n c =
      rw
        (
          c.business,
          c.reviewed,
          evidence_reasons-clear r r.snapshot.integration_review_evidence c.valid c.cleared,
          ring_clear r.snapshot c.ring,
        )
        refl

  module _ (r : Run) (n : RunNode) (there : r.snapshot.integration ≡ some n) where
    evaluate-reconciling : r.reconciles ≡ true → (evaluate_v41_closeout digest r).allowed ≡ false
    unfolding evaluate_v41_closeout
    evaluate-reconciling e = rw (there, e) refl

    evaluate-closeout :
        r.reconciles ≡ false
        → (evaluate_v41_closeout digest r).allowed ≡ (closeout_with digest r (some n)).allowed
    unfolding evaluate_v41_closeout
    evaluate-closeout e = rw (there, e) refl

    allowed-IsClosed : (evaluate_v41_closeout digest r).allowed ≡ true → IsClosed digest r n
    allowed-IsClosed h = elim (Bool-cases r.reconciles) [
      | inl e ↦ absurd_eq (sym (evaluate-reconciling e) ∙ h)
      | inr e ↦ closeout-IsClosed r n e (sym (evaluate-closeout e) ∙ h)
    ]

    -- A run with an integration review is closed out just when no node asks for its workspace to be
    -- reconciled, every business node and the review are accepted, the evidence on file passes the
    -- checks against the current run with a clearance of zero, and, where the authorization asks for
    -- remote delivery, the ring is accepted with evidence that is current.
    pub evaluate_v41_closeout_iff :
        ((evaluate_v41_closeout digest r).allowed ≡ true) ↔ IsClosed digest r n
    evaluate_v41_closeout_iff =
        (allowed-IsClosed, λ c. evaluate-closeout c.reconciled ∙ IsClosed-closeout r n c)
