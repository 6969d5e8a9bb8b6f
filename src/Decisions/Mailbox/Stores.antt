-- ===== src/Decisions/Mailbox/Stores.antt =====
-- What `_store_record` of vibe_guide/decisions.py does where a request is on file already.
use vibe_guide_automation.Common.{
  ℕ, ◌≤◌, ◌<◌, String, true, false, Option, none, some, List, [], ◌∷◌, ◌≡◌, refl, sym, ap, ◌∙◌, inl,
  inr, leb, eq_iff, eq_refl, arith, and-both, absurd_eq, Bool-cases,
}
use vibe_guide_automation.Common.Dict.{get}
use vibe_guide_automation.Decisions.{Choice}
use vibe_guide_automation.Decisions.Mailbox.{
  Content, Request, Answer, Mailbox, same_choice, same_choices, same_recommendation, same_content,
  max_record_bytes, is_loadable, write_request, archive, archive_name, archive_result, store_record,
}
use vibe_guide_automation.Decisions.Mailbox.Consistent.{archive-get, put-here}

-- The same is asked.
pub record SameQuestion (a b : Content) : Type 0 where
  pub options : a.options ≡ b.options
  pub recommendation : a.recommendation ≡ b.recommendation
  pub category : a.category ≡ b.category

choice-eq : (a b : Choice) → same_choice a b ≡ true → a ≡ b
choice-eq a b h =
    let (x, h) = and-both _ _ h in
    let (y, z) = and-both _ _ h in
    ap (λ i. record { id = i; label = a.label; impact = a.impact }) ((eq_iff a.id b.id).0 x)
    ∙ ap (λ l. record { id = b.id; label = l; impact = a.impact }) ((eq_iff a.label b.label).0 y)
    ∙ ap (λ t. record { id = b.id; label = b.label; impact = t }) ((eq_iff a.impact b.impact).0 z)

choices-eq : (xs ys : List Choice) → same_choices xs ys ≡ true → xs ≡ ys
choices-eq [] [] h = refl
choices-eq [] (b ∷ ys) h = absurd_eq h
choices-eq (a ∷ xs) [] h = absurd_eq h
choices-eq (a ∷ xs) (b ∷ ys) h =
    let (x, y) = and-both _ _ h in
    ap (λ z. z ∷ xs) (choice-eq a b x) ∙ ap (λ zs. b ∷ zs) (choices-eq xs ys y)

choices_refl : (xs : List Choice) → same_choices xs xs ≡ true
choices_refl [] = refl
choices_refl (a ∷ xs) = rw (eq_refl a.id, eq_refl a.label, eq_refl a.impact) (choices_refl xs)

recommendation-eq : (a b : Option String) → same_recommendation a b ≡ true → a ≡ b
recommendation-eq none none h = refl
recommendation-eq none (some b) h = absurd_eq h
recommendation-eq (some a) none h = absurd_eq h
recommendation-eq (some a) (some b) h = ap some ((eq_iff a b).0 h)

recommendation_refl : (a : Option String) → same_recommendation a a ≡ true
recommendation_refl none = refl
recommendation_refl (some a) = eq_refl a

same_content-SameQuestion : (a b : Content) → same_content a b ≡ true → SameQuestion a b
same_content-SameQuestion a b h =
    let (x, h) = and-both _ _ h in
    let (y, z) = and-both _ _ h in
    record {
      options = choices-eq a.options b.options x;
      recommendation = recommendation-eq a.recommendation b.recommendation y;
      category = (eq_iff a.category b.category).0 z;
    }

SameQuestion-same_content : (a b : Content) → SameQuestion a b → same_content a b ≡ true
SameQuestion-same_content a b s =
    rw
      (
        ap (same_choices a.options) (sym s.options) ∙ choices_refl a.options,
        ap (same_recommendation a.recommendation) (sym s.recommendation)
            ∙ recommendation_refl a.recommendation,
        (eq_iff a.category b.category).1 s.category,
      )
      refl

other_question : (a b : Content) → same_content a b ≡ false → ¬ SameQuestion a b
other_question a b n s = absurd_eq (sym n ∙ SameQuestion-same_content a b s)

-- The first that is there.
abbrev pub either_of : Option Answer → Option Answer → Option Answer
either_of none b = b
either_of (some a) b = some a

module _ (digest : Content → String) (size : Request → ℕ) where
  abbrev pub new_request : Content → Request
  new_request c = record { content = c; request_digest = digest c }

  -- What asking for `c` comes to where `old` is on file.
  pub data Stores (c : Content) (old : Request) (m : Mailbox) : Option Mailbox → Type 0 where
    unreadable : is_loadable digest c.decision_id old ≡ false → Stores c old m none
    unchanged : SameQuestion old.content c → Stores c old m (some m)
    too_large :
        ¬ SameQuestion old.content c → max_record_bytes < size (new_request c) → Stores c old m none
    superseded :
        ¬ SameQuestion old.content c
        → size (new_request c) ≤ max_record_bytes
        → (m' : Mailbox) → get m'.results c.decision_id ≡ none
        → get m'.requests c.decision_id ≡ some (new_request c)
        → get m'.superseded (archive_name c.decision_id old)
          ≡ either_of
              (get m.results c.decision_id)
              (get m.superseded (archive_name c.decision_id old))
        → Stores c old m (some m')

  archive-superseded :
      (id : String) (old : Request) (m : Mailbox) (o : Option Answer)
      → get (archive digest id old m o).superseded (archive_name id old)
        ≡ either_of o (get m.superseded (archive_name id old))
  archive-superseded id old m none = refl
  archive-superseded id old m (some a) =
      put-here m.superseded (archive_name id old) _ a (eq_refl (archive_name id old))

  -- Where a request is on file under the id: asking for the same options, recommendation and category
  -- changes nothing; asking for others raises an error if the new record is over the size bound, and
  -- else leaves the new content on file with no answer, and archives the answer that was there. The
  -- call raises an error where the request on file cannot be loaded.
  pub store_record-Stores :
      (c : Content) (m : Mailbox) (old : Request)
      → get m.requests c.decision_id ≡ some old
      → Stores c old m (store_record digest size c m)
  unfolding store_record
  store_record-Stores c m old e = elim (Bool-cases (is_loadable digest c.decision_id old)) [
    | inr l ↦ rw (e, store_record, l) (unreadable l)
    | inl l ↦ elim (Bool-cases (same_content old.content c)) [
      | inl s ↦ rw (e, store_record, l, s) (unchanged (same_content-SameQuestion old.content c s))
      | inr s ↦
          let n = other_question old.content c s in
          elim (Bool-cases (leb (size (new_request c)) max_record_bytes)) [
            | inr b ↦ rw (e, store_record, l, s, b) (too_large n (ground arith))
            | inl b ↦
                let m1 = archive_result digest c.decision_id old m in
                let (none_left, q, k) =
                  archive-get digest c.decision_id old m (get m.results c.decision_id) refl in
                rw (e, store_record, l, s, b)
                  (superseded n (ground arith) (write_request digest c m1) none_left
                    (put-here m1.requests c.decision_id c.decision_id _ (eq_refl c.decision_id))
                    (archive-superseded c.decision_id old m (get m.results c.decision_id)))
          ]
    ]
  ]
