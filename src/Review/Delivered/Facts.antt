-- ===== src/Review/Delivered/Facts.antt =====
-- What delivery evidence stands for in vibe_guide/evidence.py.
use vibe_guide_automation.Common.{
  String, Bool, true, false, not, ◌&&◌, List, [], ◌∷◌, ◌++◌, ◌==◌, ◌≡◌, ◌↔◌, refl, sym, ap, ◌∙◌,
  inl, inr, Bool-cases, contains, all_of, is_empty, eq_iff, absurd_eq, and-both, if◌then◌else◌,
}
use vibe_guide_automation.Json.{Value}
use vibe_guide_automation.Review.Closeout.{reason_if}
use vibe_guide_automation.Review.Delivered.Blocked.{ClaimsBlock, blocked_iff}
use vibe_guide_automation.Review.Delivered.Meaning.{
  IsIdentified, IsIdentified-iff, IsHandedOver, IsHandedOver-iff, IsClassifiable,
  IsClassifiable-iff,
}
use vibe_guide_automation.Review.Delivered.{
  blocked_self_report_fields, DeliveryEvidence, format_names, is_unclassifiable, classified,
  unless_blocked, Delivery, is_delivered, has_task, has_host, has_place, has_cursor,
  identity_reasons, has_marker, has_path, has_thread, format_reasons, evaluate_delivery_evidence,
}

-- Whose delivery it is and from where, and what was handed over.
abbrev is_identified : Delivery → Bool
is_identified d = is_delivered d && (has_task d && (has_host d && (has_place d && has_cursor d)))

abbrev is_handed_over : (String → String) → Delivery → Bool
is_handed_over nfkc d = has_marker nfkc d && (has_path nfkc d && has_thread nfkc d)

-- The two lists over the facts that they are made of.
abbrev identity_list : Bool → Bool → Bool → Bool → Bool → List String
identity_list a b c d e =
    reason_if (not a) "canonical delivered state is missing"
    ++ (reason_if (not b) "task identity is missing"
        ++ (reason_if (not c) "host identity is missing"
            ++ (reason_if (not d) "worktree or branch is missing"
                ++ reason_if (not e) "current cursor is missing")))

abbrev format_list : Bool → Bool → Bool → List String
format_list a b c =
    reason_if (not a) "completion marker is missing"
    ++ (reason_if (not b) "delivery path is missing"
        ++ reason_if (not c) "terminal thread status is missing")

format_list-own : (a b c : Bool) → all_of (contains format_names) (format_list a b c) ≡ true
format_list-own true true true = refl
format_list-own true true false = refl
format_list-own true false true = refl
format_list-own true false false = refl
format_list-own false true true = refl
format_list-own false true false = refl
format_list-own false false true = refl
format_list-own false false false = refl

format_list-empty : (a b c : Bool) → is_empty (format_list a b c) ≡ (a && (b && c))
format_list-empty false b c = refl
format_list-empty true false c = refl
format_list-empty true true false = refl
format_list-empty true true true = refl

identity_list-own :
    (a b c d e : Bool) (rest : List String)
    → all_of (contains format_names) rest ≡ true
    → all_of (contains format_names) (identity_list a b c d e ++ rest)
      ≡ (a && (b && (c && (d && e))))
identity_list-own false b c d e rest h = refl
identity_list-own true false c d e rest h = refl
identity_list-own true true false d e rest h = refl
identity_list-own true true true false e rest h = refl
identity_list-own true true true true false rest h = refl
identity_list-own true true true true true rest h = h

identity_list-empty :
    (a b c d e : Bool) (rest : List String)
    → is_empty (identity_list a b c d e ++ rest) ≡ ((a && (b && (c && (d && e)))) && is_empty rest)
identity_list-empty false b c d e rest = refl
identity_list-empty true false c d e rest = refl
identity_list-empty true true false d e rest = refl
identity_list-empty true true true false e rest = refl
identity_list-empty true true true true false rest = refl
identity_list-empty true true true true true rest = refl

other_text : (a b : String) → (a == b) ≡ false → a ≡ b → ⊥
other_text a b n h = absurd_eq (sym n ∙ (eq_iff a b).1 h)

record Decided (artifacts : Value) (reasons : List String) : Type 0 where
  delivered : ((classified artifacts reasons).status ≡ "DELIVERED") ↔ (is_empty reasons ≡ true)
  rejected : ((classified artifacts reasons).classification ≡ "acceptance_rejected") ↔ (
      (is_empty reasons ≡ false)
      × (is_unclassifiable artifacts ≡ false)
      × (all_of (contains format_names) reasons ≡ true))

rejected-cases :
    (u f : Bool)
    → ◌≡◌ {A = String}
        (if not u && f then "acceptance_rejected" else "blocked_unknown")
        "acceptance_rejected"
      ↔ ((false ≡ false) × (u ≡ false) × (f ≡ true))
rejected-cases true f = (
  λ h. absurd (other_text "blocked_unknown" "acceptance_rejected" refl h),
  λ (x, y, z). absurd_eq (sym y),
)
rejected-cases false true = (λ h. (refl, refl, refl), λ h. refl)
rejected-cases false false = (
  λ h. absurd (other_text "blocked_unknown" "acceptance_rejected" refl h),
  λ (x, y, z). absurd_eq z,
)

classified-Decided : (artifacts : Value) (reasons : List String) → Decided artifacts reasons
classified-Decided artifacts [] = record {
  delivered = (λ h. refl, λ h. refl);
  rejected = (
    λ h. absurd (other_text "complete" "acceptance_rejected" refl h),
    λ (x, y, z). absurd_eq (sym x),
  );
}
classified-Decided artifacts (x ∷ xs) = record {
  delivered = (λ h. absurd (other_text "blocked_unknown" "DELIVERED" refl h), λ h. absurd_eq h);
  rejected = rejected-cases (is_unclassifiable artifacts) (all_of (contains format_names) (x ∷ xs));
}

not_nil : {x : String} {xs : List String} → x ∷ xs ≡ [] → ⊥
not_nil h = cc

left_over : (a b : Bool) → a ≡ true → (a && b) ≡ false → b ≡ false
left_over true b h i = i
left_over false b h i = absurd_eq h

unblocked :
    (blocked : List String) (e : DeliveryEvidence)
    → (((unless_blocked blocked e).status ≡ "DELIVERED")
        ↔ ((blocked ≡ []) × (e.status ≡ "DELIVERED")))
      × (((unless_blocked blocked e).classification ≡ "acceptance_rejected")
          ↔ ((blocked ≡ []) × (e.classification ≡ "acceptance_rejected")))
unblocked [] e = ((λ h. (refl, h), λ h. h.1), (λ h. (refl, h), λ h. h.1))
unblocked (x ∷ xs) e = (
  (λ h. absurd (other_text "blocked_unknown" "DELIVERED" refl h), λ h. absurd (not_nil h.0)),
  (
    λ h. absurd (other_text "blocked_unknown" "acceptance_rejected" refl h),
    λ h. absurd (not_nil h.0),
  ),
)

module _ (nfkc : String → String) (d : Delivery) where
  abbrev lacks : List String
  lacks = identity_reasons d ++ format_reasons nfkc d

  lacks-own : all_of (contains format_names) lacks ≡ is_identified d
  lacks-own =
      identity_list-own (is_delivered d) (has_task d) (has_host d) (has_place d) (has_cursor d)
        (format_reasons nfkc d)
        (format_list-own (has_marker nfkc d) (has_path nfkc d) (has_thread nfkc d))

  lacks-empty : is_empty lacks ≡ (is_identified d && is_handed_over nfkc d)
  lacks-empty =
      identity_list-empty (is_delivered d) (has_task d) (has_host d) (has_place d) (has_cursor d)
        (format_reasons nfkc d)
      ∙ ap (λ z. is_identified d && z)
          (format_list-empty (has_marker nfkc d) (has_path nfkc d) (has_thread nfkc d))

  -- Both answers by the checks that they are made of.
  evaluate_delivery_evidence-checks :
      (((evaluate_delivery_evidence nfkc d).status ≡ "DELIVERED") ↔ (
        (blocked_self_report_fields d.self_report ≡ [])
        × (is_identified d ≡ true)
        × (is_handed_over nfkc d ≡ true)))
      × (((evaluate_delivery_evidence nfkc d).classification ≡ "acceptance_rejected") ↔ (
          (blocked_self_report_fields d.self_report ≡ [])
          × (is_identified d ≡ true)
          × (is_handed_over nfkc d ≡ false)
          × (is_unclassifiable d.artifacts ≡ false)))
  unfolding evaluate_delivery_evidence
  evaluate_delivery_evidence-checks =
      let u = unblocked (blocked_self_report_fields d.self_report) (classified d.artifacts lacks) in
      let c = classified-Decided d.artifacts lacks in
      (
        (
          λ h.
              let (b, s) = u.0.0 h in
              let (x, y) = and-both _ _ (sym lacks-empty ∙ c.delivered.0 s) in (b, x, y),
          λ (b, x, y). u.0.1 (b, c.delivered.1 (lacks-empty ∙ rw (x, y) refl)),
        ),
        (
          λ h.
              let (b, s) = u.1.0 h in
              let (e, k, f) = c.rejected.0 s in
              let x = sym lacks-own ∙ f in (b, x, left_over _ _ x (sym lacks-empty ∙ e), k),
          λ (b, x, y, k). u.1.1 (b, c.rejected.1 (lacks-empty ∙ rw (x, y) refl, k, lacks-own ∙ x)),
        ),
      )

  not-IsHandedOver : (is_handed_over nfkc d ≡ false) ↔ (¬ IsHandedOver nfkc d)
  not-IsHandedOver =
      let e = IsHandedOver-iff nfkc d in
      (
        λ h s. absurd_eq (sym h ∙ e.1 s),
        λ n. elim (Bool-cases (is_handed_over nfkc d)) [ inl y ↦ absurd (n (e.0 y)) | inr y ↦ y ],
      )

  -- A node is delivered just when the worker's report claims no block, the delivery is identified, and
  -- the artifacts are handed over. A delivery is sent back for its format alone just when no block is
  -- claimed, it is identified, the artifacts are absent or a mapping, and something of them is missing.
  -- A report claims a block by a status that starts with blocked, a kind that starts with blocked_, or
  -- a completion that is false. A delivery is identified by a delivered node, a task, a host, a worktree
  -- and branch, and a cursor, of which a background session, with its proof, needs no host and no
  -- cursor, and a self-report, with its proof, no cursor. Handed over are a marker and a path that are
  -- filled in, and a thread status that is final.
  pub evaluate_delivery_evidence_iff :
      (((evaluate_delivery_evidence nfkc d).status ≡ "DELIVERED")
        ↔ ((¬ ClaimsBlock d.self_report) × IsIdentified d × IsHandedOver nfkc d))
      × (((evaluate_delivery_evidence nfkc d).classification ≡ "acceptance_rejected") ↔ (
          (¬ ClaimsBlock d.self_report)
          × IsIdentified d
          × (¬ IsHandedOver nfkc d)
          × IsClassifiable d.artifacts))
  evaluate_delivery_evidence_iff =
      let (delivered, rejected) = evaluate_delivery_evidence-checks in
      let b = blocked_iff d.self_report in
      let i = IsIdentified-iff d in
      let k = IsHandedOver-iff nfkc d in
      let c = IsClassifiable-iff d.artifacts in
      (
        (
          λ h. let (x, y, z) = delivered.0 h in (b.0 x, i.0 y, k.0 z),
          λ (x, y, z). delivered.1 (b.1 x, i.1 y, k.1 z),
        ),
        (
          λ h. let (x, y, z, w) = rejected.0 h in (b.0 x, i.0 y, not-IsHandedOver.0 z, c.0 w),
          λ (x, y, z, w). rejected.1 (b.1 x, i.1 y, not-IsHandedOver.1 z, c.1 w),
        ),
      )
