-- ===== src/Review/Delivered/Blocked.antt =====
-- What `blocked_self_report_fields` of vibe_guide/evidence.py reads off a worker's report.
use vibe_guide_automation.Common.{
  String, Bool, true, false, ◌||◌, Option, none, some, List, [], ◌∷◌, ◌++◌, ◌≡◌, ◌↔◌, inl, inr,
  refl, sym, ap, ◌∙◌, absurd_eq, Bool-cases, either_iff,
}
use vibe_guide_automation.Json.{Members, Value, object, text, bool, get_member}
use vibe_guide_automation.Review.Closeout.{reason_if}
use vibe_guide_automation.Review.Delivered.{
  starts_with, text_starts, is_false, blocked_self_report_fields,
}

-- The worker's report says that the work is blocked or not complete.
pub data ClaimsBlock (report : Value) : Type 0 where
  by_status :
      (r : Members) (s : String)
      → report ≡ object r
      → get_member r "status" ≡ some (text s)
      → starts_with "blocked" s ≡ true
      → ClaimsBlock report
  by_kind :
      (r : Members) (s : String)
      → report ≡ object r
      → get_member r "report_kind" ≡ some (text s)
      → starts_with "blocked_" s ≡ true
      → ClaimsBlock report
  not_implemented :
      (r : Members)
      → report ≡ object r
      → get_member r "implementation_complete" ≡ some (bool false)
      → ClaimsBlock report
  not_complete :
      (r : Members)
      → report ≡ object r
      → get_member r "issue_complete" ≡ some (bool false)
      → ClaimsBlock report

starts-some :
    (o : Option Value) (prefix : String)
    → text_starts o prefix ≡ true
    → (s : String) × (o ≡ some (text s)) × (starts_with prefix s ≡ true)
starts-some (some (text s)) prefix h = (s, refl, h)
starts-some none prefix h = absurd_eq h
starts-some (some v) prefix h = absurd_eq h

false-some : (o : Option Value) → is_false o ≡ true → o ≡ some (bool false)
false-some (some (bool false)) h = refl
false-some (some (bool true)) h = absurd_eq h
false-some none h = absurd_eq h
false-some (some v) h = absurd_eq h

abbrev says_block : Value → Bool
says_block (object r) =
    text_starts (get_member r "status") "blocked"
    || (text_starts (get_member r "report_kind") "blocked_"
        || (is_false (get_member r "implementation_complete")
            || is_false (get_member r "issue_complete")))
says_block _ = false

not_nil : {x : String} {xs : List String} → x ∷ xs ≡ [] → ⊥
not_nil h = cc

four_fields :
    (a b c d : Bool) (w x y z : String)
    → ((reason_if a w ++ reason_if b x ++ reason_if c y ++ reason_if d z) ≡ [])
      ↔ ((a || (b || (c || d))) ≡ false)
four_fields true b c d w x y z = (λ h. absurd (not_nil h), λ h. absurd_eq (sym h))
four_fields false true c d w x y z = (λ h. absurd (not_nil h), λ h. absurd_eq (sym h))
four_fields false false true d w x y z = (λ h. absurd (not_nil h), λ h. absurd_eq (sym h))
four_fields false false false true w x y z = (λ h. absurd (not_nil h), λ h. absurd_eq (sym h))
four_fields false false false false w x y z = (λ h. refl, λ h. refl)

fields_iff : (v : Value) → (blocked_self_report_fields v ≡ []) ↔ (says_block v ≡ false)
fields_iff (object r) = four_fields _ _ _ _ _ _ _ _
fields_iff v = (λ h. refl, λ h. refl)

says-ClaimsBlock : (v : Value) → says_block v ≡ true → ClaimsBlock v
says-ClaimsBlock (object r) h =
    let i = λ (a b : Bool).
      either_iff a b (λ (h : a ≡ true). h, λ (h : a ≡ true). h)
        (λ (h : b ≡ true). h, λ (h : b ≡ true). h) in
    elim ((i _ _).0 h) [
      | inl e ↦
          let (s, g, y) = starts-some (get_member r "status") "blocked" e in
          ClaimsBlock.by_status r s refl g y
      | inr h ↦ elim ((i _ _).0 h) [
        | inl e ↦
            let (s, g, y) = starts-some (get_member r "report_kind") "blocked_" e in
            ClaimsBlock.by_kind r s refl g y
        | inr h ↦ elim ((i _ _).0 h) [
          | inl e ↦ ClaimsBlock.not_implemented r refl (false-some _ e)
          | inr e ↦ ClaimsBlock.not_complete r refl (false-some _ e)
        ]
      ]
    ]
says-ClaimsBlock v h = absurd_eq h

or_second : (a b : Bool) → b ≡ true → (a || b) ≡ true
or_second true b h = refl
or_second false b h = h

or_first : (a b : Bool) → a ≡ true → (a || b) ≡ true
or_first true b h = refl
or_first false b h = absurd_eq h

ClaimsBlock-says : (v : Value) → ClaimsBlock v → says_block v ≡ true
ClaimsBlock-says v (ClaimsBlock.by_status r s e g h) =
    ap says_block e ∙ or_first _ _ (ap (λ o. text_starts o "blocked") g ∙ h)
ClaimsBlock-says v (ClaimsBlock.by_kind r s e g h) =
    ap says_block e ∙ or_second _ _ (or_first _ _ (ap (λ o. text_starts o "blocked_") g ∙ h))
ClaimsBlock-says v (ClaimsBlock.not_implemented r e g) =
    ap says_block e ∙ or_second _ _ (or_second _ _ (or_first _ _ (ap is_false g)))
ClaimsBlock-says v (ClaimsBlock.not_complete r e g) =
    ap says_block e
    ∙ or_second (text_starts (get_member r "status") "blocked") _ (
        or_second (text_starts (get_member r "report_kind") "blocked_") _
          (or_second (is_false (get_member r "implementation_complete")) _ (ap is_false g)))

pub blocked_iff : (v : Value) → (blocked_self_report_fields v ≡ []) ↔ (¬ ClaimsBlock v)
blocked_iff v = (
  λ h c. absurd_eq (sym ((fields_iff v).0 h) ∙ ClaimsBlock-says v c),
  λ n.
      (fields_iff v).1 (elim (Bool-cases (says_block v)) [
        | inl e ↦ absurd (n (says-ClaimsBlock v e))
        | inr e ↦ e
      ]),
)
