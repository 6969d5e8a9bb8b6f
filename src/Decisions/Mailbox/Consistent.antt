-- ===== src/Decisions/Mailbox/Consistent.antt =====
-- What the mailbox of vibe_guide/decisions.py keeps of its answers.
use vibe_guide_automation.Common.{
  String, true, false, ◌&&◌, Option, none, some, ◌≡◌, inl, inr, refl, sym, ap, ◌∙◌, subst, ◌==◌, ℕ,
  leb, contains, arith, eq_iff, eq_refl, Bool-cases, some-inj,
}
use vibe_guide_automation.Common.Dict.{Dict, get, put, pop, get-put, get-pop}
use vibe_guide_automation.Json.{has_text}
use vibe_guide_automation.Decisions.Mailbox.{
  store_on, answer_on, if_loadable, Content, Request, Answer, Mailbox, current_ids, same_content,
  load_request, is_loadable, write_request, archive, archive_result, write_within, max_record_bytes,
  store_over, store_record, is_valid_answer, new_answer, settle, answer,
}

pub no-some : {V : Type 0} {o : Option V} {v : V} → o ≡ none → o ≡ some v → ⊥
no-some x y = cc

-- The answer is to this request, and chooses one of its options.
abbrev pub Answers : Request → Answer → Type 0
Answers r a =
    (a.request_digest ≡ r.request_digest) × (contains (current_ids r.content) a.choice ≡ true)

-- Every answer on file is to the request on file under its id.
pub record IsConsistent (m : Mailbox) : Type 0 where
  pub answered :
      (id : String) (a : Answer)
      → get m.results id ≡ some a
      → (r : Request) × (get m.requests id ≡ some r) × Answers r a

module _ {V : Type 0} where
  pub put-here :
      (d : Dict V) (id x : String) (v : V) → (id == x) ≡ true → get (put d id v) x ≡ some v
  put-here d id x v y = rw (get-put id v d x, y) refl

  put-there :
      (d : Dict V) (id x : String) (v : V) → (id == x) ≡ false → get (put d id v) x ≡ get d x
  put-there d id x v y = rw (get-put id v d x, y) refl

  pop-here : (d : Dict V) (id x : String) → (id == x) ≡ true → get (pop d id) x ≡ none
  pop-here d id x y = rw (get-pop id d x, y) refl

  pop-there : (d : Dict V) (id x : String) → (id == x) ≡ false → get (pop d id) x ≡ get d x
  pop-there d id x y = rw (get-pop id d x, y) refl

module _ (digest : Content → String) where
  -- Archiving leaves no result under the id, and the others as they were.
  pub archive-get :
      (id : String) (old : Request) (m : Mailbox) (o : Option Answer)
      → get m.results id ≡ o
      → (get (archive digest id old m o).results id ≡ none)
        × ((archive digest id old m o).requests ≡ m.requests)
        × ((x : String) (a : Answer)
            → get (archive digest id old m o).results x ≡ some a
            → get m.results x ≡ some a)
  archive-get id old m none e = (e, refl, λ x a h. h)
  archive-get id old m (some b) e = (
    pop-here m.results id id (eq_refl id),
    refl,
    λ x a h. elim (Bool-cases (id == x)) [
      | inl y ↦ absurd (no-some (pop-here m.results id x y) h)
      | inr y ↦ sym (pop-there m.results id x y) ∙ h
    ],
  )

  -- A request is written where no result stands under its id.
  write_request-IsConsistent :
      (c : Content) (m : Mailbox)
      → get m.results c.decision_id ≡ none
      → IsConsistent m
      → IsConsistent (write_request digest c m)
  write_request-IsConsistent c m n w = record {
    answered = λ id a e. elim (Bool-cases (c.decision_id == id)) [
      | inl y ↦ absurd (no-some (sym (ap (get m.results) ((eq_iff c.decision_id id).0 y)) ∙ n) e)
      | inr y ↦
          let (r, g, h) = w.answered id a e in (r, put-there m.requests c.decision_id id _ y ∙ g, h)
    ];
  }

  unanswered :
      (c : Content) (m : Mailbox)
      → get m.requests c.decision_id ≡ none
      → IsConsistent m
      → (o : Option Answer) → get m.results c.decision_id ≡ o
      → get m.results c.decision_id ≡ none
  unanswered c m e w none q = q
  unanswered c m e w (some a) q =
      let (r, g, x) = w.answered c.decision_id a q in absurd (no-some e g)

  module _ (size : Request → ℕ) where
    write_within-IsConsistent :
        (c : Content) (m m' : Mailbox)
        → get m.results c.decision_id ≡ none
        → IsConsistent m
        → write_within digest size c m ≡ some m'
        → IsConsistent m'
    write_within-IsConsistent c m m' n w =
        elim (Bool-cases
          (leb (size (record { content = c; request_digest = digest c })) max_record_bytes)) [
            | inl y ↦
                rw y (λ h. subst IsConsistent (some-inj h) (write_request-IsConsistent c m n w))
            | inr y ↦ rw y (λ h. absurd (no-some refl h))
          ]

    store_over-IsConsistent :
        (c : Content) (old : Request) (m m' : Mailbox)
        → IsConsistent m
        → store_over digest size c old m ≡ some m'
        → IsConsistent m'
    store_over-IsConsistent c old m m' w = elim (Bool-cases (same_content old.content c)) [
      | inl y ↦ rw y (λ h. subst IsConsistent (some-inj h) w)
      | inr y ↦
          let (n, q, k) = archive-get c.decision_id old m (get m.results c.decision_id) refl in
          rw y (
            write_within-IsConsistent c (archive_result digest c.decision_id old m) m' n (record {
              answered = λ id a e.
                  let (r, g, h) = w.answered id a (k id a e) in (r, ap (λ d. get d id) q ∙ g, h);
            }))
    ]

    store_on-IsConsistent :
        (c : Content) (m m' : Mailbox) (o : Option Request)
        → get m.requests c.decision_id ≡ o
        → IsConsistent m
        → store_on digest size c m o ≡ some m'
        → IsConsistent m'
    store_on-IsConsistent c m m' none e w =
        write_within-IsConsistent c m m' (unanswered c m e w (get m.results c.decision_id) refl) w
    store_on-IsConsistent c m m' (some old) e w =
        elim (Bool-cases (is_loadable digest c.decision_id old)) [
          | inl y ↦ rw y (store_over-IsConsistent c old m m' w)
          | inr y ↦ rw y (λ h. absurd (no-some refl h))
        ]

    -- Asking keeps every answer on file an answer to the request on file.
    pub store_record-IsConsistent :
        (c : Content) (m m' : Mailbox)
        → IsConsistent m
        → store_record digest size c m ≡ some m'
        → IsConsistent m'
    unfolding store_record
    store_record-IsConsistent c m m' w h =
        store_on-IsConsistent c m m' (get m.requests c.decision_id) refl w h

  put_answer-IsConsistent :
      (id : String) (r : Request) (a : Answer) (m : Mailbox)
      → IsConsistent m
      → get m.requests id ≡ some r
      → Answers r a
      → IsConsistent (record m { results = put m.results id a })
  put_answer-IsConsistent id r a m w e x = record {
    answered = λ q b h. elim (Bool-cases (id == q)) [
      | inl y ↦ (
        r,
        sym (ap (get m.requests) ((eq_iff id q).0 y)) ∙ e,
        subst (Answers r) (some-inj (sym (put-here m.results id q a y) ∙ h)) x,
      )
      | inr y ↦ w.answered q b (sym (put-there m.results id q a y) ∙ h)
    ];
  }

  -- A settled answer chooses one of the options of its request.
  pub record Settled (id choice : String) (r : Request) (a : Answer) (m m' : Mailbox) : Type 0 where
    pub answers : Answers r a
    pub chosen : a.choice ≡ choice
    pub filed : get m'.results id ≡ some a
    pub consistent : IsConsistent m → IsConsistent m'
    pub same_requests : m'.requests ≡ m.requests

  valid-Answers :
      (id : String) (r : Request) (b : Answer) (choice : String)
      → (is_valid_answer digest id r b && b.choice == choice) ≡ true
      → Answers r b
  valid-Answers id r b choice y =
      ((eq_iff b.request_digest r.request_digest).0 (ground arith), ground arith)

  settle-Settled :
      (id choice via : String) (r : Request) (remark : Option String) (m : Mailbox)
      (o : Option Answer) (a : Answer) (m' : Mailbox)
      → get m.requests id ≡ some r
      → get m.results id ≡ o
      → settle digest id r choice via remark m o ≡ some (a, m')
      → Settled id choice r a m m'
  settle-Settled id choice via r remark m none a m' e q =
      elim (Bool-cases (contains (current_ids r.content) choice)) [
        | inl y ↦ rw y λ h.
            subst (λ (z : Answer × Mailbox). Settled id choice r z.0 m z.1) (some-inj h)
              (record {
                answers = (refl, y);
                chosen = refl;
                filed = put-here m.results id id _ (eq_refl id);
                consistent = λ w.
                    put_answer-IsConsistent id r (new_answer digest id r choice via remark) m w e
                      (refl, y);
                same_requests = refl;
              })
        | inr y ↦ rw y (λ h. absurd (no-some refl h))
      ]
  settle-Settled id choice via r remark m (some b) a m' e q =
      elim (Bool-cases (is_valid_answer digest id r b && b.choice == choice)) [
        | inl y ↦ rw y λ h.
            subst (λ (z : Answer × Mailbox). Settled id choice r z.0 m z.1) (some-inj h)
              (record {
                answers = valid-Answers id r b choice y;
                chosen = (eq_iff b.choice choice).0 (ground arith);
                filed = q;
                consistent = λ w. w;
                same_requests = refl;
              })
        | inr y ↦ rw y (λ h. absurd (no-some refl h))
      ]

  -- An accepted answer is to the request on file, under the digest that was given.
  pub record Accepted (id choice request_digest : String) (a : Answer) (m m' : Mailbox)
      : Type 0 where
    pub request : Request
    pub on_file : get m.requests id ≡ some request
    pub current : request_digest ≡ request.request_digest
    pub settled : Settled id choice request a m m'

  answer_on-Accepted :
      (id choice request_digest via : String) (remark : Option String) (m : Mailbox)
      (o : Option Request) (a : Answer) (m' : Mailbox)
      → get m.requests id ≡ o
      → answer_on digest id choice request_digest via remark m (if_loadable digest id o)
        ≡ some (a, m')
      → Accepted id choice request_digest a m m'
  answer_on-Accepted id choice d via remark m none a m' e = λ h. absurd (no-some refl h)
  answer_on-Accepted id choice d via remark m (some r) a m' e =
      elim (Bool-cases (is_loadable digest id r)) [
        | inl y ↦ rw y (elim (Bool-cases (d == r.request_digest)) [
          | inl x ↦ rw x λ h. record {
            request = r;
            on_file = e;
            current = (eq_iff d r.request_digest).0 x;
            settled = settle-Settled id choice via r remark m (get m.results id) a m' e refl h;
          }
          | inr x ↦ rw x (λ h. absurd (no-some refl h))
        ])
        | inr y ↦ rw y (λ h. absurd (no-some refl h))
      ]

  pub answer-Accepted :
      (id choice request_digest via : String) (remark : Option String) (m : Mailbox) (a : Answer)
      (m' : Mailbox)
      → answer digest id choice request_digest via remark m ≡ some (a, m')
      → Accepted id choice request_digest a m m'
  unfolding answer load_request
  answer-Accepted id choice d via remark m a m' = elim (Bool-cases (has_text d)) [
    | inl y ↦
        rw (y, answer) (answer_on-Accepted id choice d via remark m (get m.requests id) a m' refl)
    | inr y ↦ rw (y, answer) (λ h. absurd (no-some refl h))
  ]
