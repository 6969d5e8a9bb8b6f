-- ===== src/Delivery/Validate/Sound.antt =====
-- What the checks of vibe_guide/remote_delivery.py on stored evidence establish.
use vibe_guide_automation.Common.{
  String, Bool, true, false, Option, none, some, List, [], ◌∷◌, ◌≡◌, ◌↔◌, refl, ap, ◌∙◌, All,
  nat_eq, ◌==◌, or_else, arith, eq_iff, absurd_eq,
}
use vibe_guide_automation.Json.{has_text}
use vibe_guide_automation.Delivery.{
  Step, all_steps, Steps, get_step, DigestBinding, EvidenceStatus, Verification, Evidence, Snapshot,
}
use vibe_guide_automation.Delivery.Binding.{is_digest, is_sha}
use vibe_guide_automation.Delivery.Engine.{is_succeeded}
use vibe_guide_automation.Delivery.Validate.{
  Invalid, require, starts_with, first_missing, check_binding, check_verification, check_accepted,
  check_status, validate_remote_delivery_evidence,
}

-- The remote facts of a merge.
pub record IsMerged (e : Evidence) : Type 0 where
  pub head_sha : is_sha (or_else e.remote.head_sha "") ≡ true
  pub pr_url : starts_with (or_else e.remote.pr_url "") "http" ≡ true
  pub merge_commit : is_sha (or_else e.remote.merge_commit "") ≡ true
  pub verified :
      (v : Verification) × (e.remote_verification ≡ some v)
      × (v.verified ≡ true)
      × (is_sha v.main_head_sha ≡ true)
      × (v.merge_commit ≡ or_else e.remote.merge_commit "")
      × (v.pr_state ≡ "MERGED")

pub record IsSound (s : Snapshot) (e : Evidence) : Type 0 where
  pub schema_version : e.schema_version ≡ 1
  pub run : e.run_id ≡ s.run_id
  pub bound :
      (b : DigestBinding) × (e.binding ≡ some b)
      × (is_digest b.authorization_digest ≡ true)
      × (is_digest b.node_contract_digest ≡ true)
      × (is_digest b.integration_digest ≡ true)
  pub source : has_text (or_else e.remote.source_branch "") ≡ true
  pub target : or_else e.remote.target_branch "" ≡ "main"
  pub steps : All (λ a. is_succeeded (get_step e.steps a) ≡ true) all_steps
  pub merged : e.status ≡ EvidenceStatus.accepted → IsMerged e

require-none :
    (ok : Bool) (x : Invalid) (rest : Option Invalid)
    → (require ok x rest ≡ none)
    → (ok ≡ true) × (rest ≡ none)
require-none true x rest h = (refl, h)
require-none false x rest h = absurd (ground arith)

first_missing-none :
    (t : Steps) (steps : List Step) (rest : Option Invalid)
    → first_missing t steps rest ≡ none
    → All (λ a. is_succeeded (get_step t a) ≡ true) steps × (rest ≡ none)
first_missing-none t [] rest h = (tt, h)
first_missing-none t (a ∷ steps) rest h =
    let p = require-none (is_succeeded (get_step t a)) _ _ h in
    let q = first_missing-none t steps rest p.1 in ((p.0, q.0), q.1)

check_verification-none :
    (m : String) (o : Option Verification)
    → check_verification m o ≡ none
    → (v : Verification) × (o ≡ some v)
      × (v.verified ≡ true)
      × (is_sha v.main_head_sha ≡ true)
      × (v.merge_commit ≡ m)
      × (v.pr_state ≡ "MERGED")
check_verification-none m none h = absurd (ground arith)
check_verification-none m (some v) h =
    let p = require-none v.verified _ _ h in
    let q = require-none _ _ _ p.1 in
    let x = require-none _ _ _ q.1 in
    let y = require-none _ _ _ x.1 in
    (v, refl, p.0, q.0, (eq_iff v.merge_commit m).0 x.0, (eq_iff v.pr_state "MERGED").0 y.0)

require-pass :
    (ok : Bool) (x : Invalid) (rest : Option Invalid)
    → (ok ≡ true) × (rest ≡ none)
    → require ok x rest ≡ none
require-pass true x rest h = h.1
require-pass false x rest h = absurd_eq h.0

first_missing-pass :
    (t : Steps) (steps : List Step) (rest : Option Invalid)
    → All (λ a. is_succeeded (get_step t a) ≡ true) steps
    → rest ≡ none
    → first_missing t steps rest ≡ none
first_missing-pass t [] rest h r = r
first_missing-pass t (a ∷ steps) rest (p, h) r =
    require-pass (is_succeeded (get_step t a)) _ _ (p, first_missing-pass t steps rest h r)

eq_text : (a b : String) → a ≡ b → (a == b) ≡ true
eq_text a b e = (eq_iff a b).1 e

check_accepted_iff : (e : Evidence) → (check_accepted e ≡ none) ↔ IsMerged e
check_accepted_iff e = (
  λ h.
      let p = require-none (is_sha (or_else e.remote.head_sha "")) _ _ h in
      let q = require-none _ _ _ p.1 in
      let x = require-none _ _ _ q.1 in
      record {
        head_sha = p.0;
        pr_url = q.0;
        merge_commit = x.0;
        verified = check_verification-none _ e.remote_verification x.1;
      },
  λ m.
      let (v, o, a, b, c, d) = m.verified in
      let y : check_verification (or_else e.remote.merge_commit "") (some v) ≡ none =
        require-pass v.verified _ _ (
          a,
          require-pass (is_sha v.main_head_sha) _ _ (
            b,
            require-pass (v.merge_commit == or_else e.remote.merge_commit "") _ _ (
              eq_text v.merge_commit _ c,
              require-pass (v.pr_state == "MERGED") _ _ (eq_text v.pr_state _ d, refl),
            ),
          ),
        ) in
      require-pass (is_sha (or_else e.remote.head_sha "")) _ _ (
        m.head_sha,
        require-pass (starts_with (or_else e.remote.pr_url "") "http") _ _ (
          m.pr_url,
          require-pass (is_sha (or_else e.remote.merge_commit "")) _ _
              (m.merge_commit, ap (check_verification (or_else e.remote.merge_commit "")) o ∙ y),
        ),
      ),
)

check_status_iff :
    (a : EvidenceStatus) (x : Option Invalid) {P : Type 0}
    → ((x ≡ none) ↔ P)
    → (check_status a x ≡ none) ↔ (a ≡ EvidenceStatus.accepted → P)
check_status_iff EvidenceStatus.accepted x f = (λ h _. f.0 h, λ g. f.1 (g refl))
check_status_iff EvidenceStatus.in_progress x f = (λ h p. absurd (ground arith), λ g. refl)
check_status_iff EvidenceStatus.rework x f = (λ h p. absurd (ground arith), λ g. refl)
check_status_iff EvidenceStatus.blocked_unknown x f = (λ h p. absurd (ground arith), λ g. refl)

abbrev IsBound : Option DigestBinding → Type 0
IsBound o =
    (b : DigestBinding) × (o ≡ some b)
    × (is_digest b.authorization_digest ≡ true)
    × (is_digest b.node_contract_digest ≡ true)
    × (is_digest b.integration_digest ≡ true)

check_binding-none :
    (o : Option DigestBinding) (rest : Option Invalid)
    → check_binding o rest ≡ none
    → IsBound o × (rest ≡ none)
check_binding-none none rest h = absurd (ground arith)
check_binding-none (some b) rest h =
    let p = require-none (is_digest b.authorization_digest) _ _ h in
    let q = require-none _ _ _ p.1 in
    let x = require-none _ _ _ q.1 in ((b, refl, p.0, q.0, x.0), x.1)

check_binding-pass :
    (o : Option DigestBinding) (rest : Option Invalid)
    → IsBound o
    → rest ≡ none
    → check_binding o rest ≡ none
check_binding-pass o rest (b, e, p, q, x) r =
    ap (λ z. check_binding z rest) e
    ∙ require-pass (is_digest b.authorization_digest) _ _ (
      p,
      require-pass (is_digest b.node_contract_digest) _ _
          (q, require-pass (is_digest b.integration_digest) _ _ (x, r)),
    )

-- Evidence passes the checks exactly when it is sound: of this run, bound to digests, with every step
-- recorded as succeeded and, where it is accepted, with the remote facts of a merge.
pub validate_remote_delivery_evidence-IsSound :
    (s : Snapshot) (e : Evidence) → (validate_remote_delivery_evidence s e ≡ none) ↔ IsSound s e
unfolding validate_remote_delivery_evidence
validate_remote_delivery_evidence-IsSound s e = (
  λ h.
      let a = require-none (nat_eq e.schema_version 1) _ _ h in
      let b = require-none (e.run_id == s.run_id) _ _ a.1 in
      let c = check_binding-none e.binding _ b.1 in
      let d = require-none (has_text (or_else e.remote.source_branch "")) _ _ c.1 in
      let f = require-none (or_else e.remote.target_branch "" == "main") _ _ d.1 in
      let g = first_missing-none e.steps all_steps _ f.1 in
      record {
        schema_version = let v = a.0 in ground arith;
        run = (eq_iff e.run_id s.run_id).0 b.0;
        bound = c.0;
        source = d.0;
        target = (eq_iff (or_else e.remote.target_branch "") "main").0 f.0;
        steps = g.0;
        merged = (check_status_iff e.status (check_accepted e) (check_accepted_iff e)).0 g.1;
      },
  λ i. require-pass (nat_eq e.schema_version 1) _ _ (
    let v = i.schema_version in ground arith,
    require-pass (e.run_id == s.run_id) _ _ (
      eq_text e.run_id s.run_id i.run,
      check_binding-pass e.binding _ i.bound (
          require-pass (has_text (or_else e.remote.source_branch "")) _ _ (
            i.source,
            require-pass (or_else e.remote.target_branch "" == "main") _ _ (
              eq_text (or_else e.remote.target_branch "") "main" i.target,
              first_missing-pass e.steps all_steps _ i.steps (
                  (check_status_iff e.status (check_accepted e) (check_accepted_iff e)).1 i.merged),
            ),
          )),
    ),
  ),
)
