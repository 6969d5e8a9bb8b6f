-- ===== src/Decisions/Mailbox/Life.antt =====
-- The life of a request in the mailbox of vibe_guide/decisions.py.
use vibe_guide_automation.Common.{
  ℕ, String, Bool, true, false, ◌&&◌, Option, none, some, [], ◌≡◌, refl, ap, ◌∙◌, inl, inr, ◌==◌,
  arith, Bool-cases, if◌then◌else◌,
}
use vibe_guide_automation.Common.Dict.{get}
use vibe_guide_automation.Json.{has_text}
use vibe_guide_automation.Decisions.Mailbox.{
  Content, Request, Answer, Mailbox, Question, load_request, store_record, settle, answer_on,
  answer, build_record, is_valid_answer,
}
use vibe_guide_automation.Decisions.Mailbox.Consistent.{
  Answers, IsConsistent, store_record-IsConsistent, answer-Accepted,
}

module _ (digest : Content → String) (size : Request → ℕ)
    (name : String → String → String → String) where
  -- One call on the mailbox that raises no error.
  pub data Calls : Mailbox → Mailbox → Type 0 where
    asks :
        (q : Question) {c : Content} {m m' : Mailbox}
        → build_record name q ≡ some c
        → store_record digest size c m ≡ some m'
        → Calls m m'
    answers :
        (id choice request_digest via : String) (remark : Option String) {a : Answer}
        {m m' : Mailbox}
        → answer digest id choice request_digest via remark m ≡ some (a, m')
        → Calls m m'

  pub data Reachable : Mailbox → Type 0 where
    empty : Reachable (record { requests = []; results = []; superseded = [] })
    called : {m m' : Mailbox} → Reachable m → Calls m m' → Reachable m'

  Calls-IsConsistent : {m m' : Mailbox} → Calls m m' → IsConsistent m → IsConsistent m'
  Calls-IsConsistent (asks q {c = c} {m = m} {m' = m'} b s) w =
      store_record-IsConsistent digest size c m m' w s
  Calls-IsConsistent (answers id choice d via remark {a = a} {m = m} {m' = m'} h) w =
      let x = answer-Accepted digest id choice d via remark m a m' h in x.settled.consistent w

  -- After any sequence of requests and answers, every answer on file carries the digest of the request
  -- on file under its id and chooses one of its current options.
  pub Reachable-IsConsistent : (m : Mailbox) → Reachable m → IsConsistent m
  Reachable-IsConsistent _ empty = record { answered = λ id a e. absurd (ground arith) }
  Reachable-IsConsistent _ (called r c) = Calls-IsConsistent c (Reachable-IsConsistent _ r)

never : {A : Type 0} (b : Bool) (x : A) → (if b && false then some x else none) ≡ none
never true x = refl
never false x = refl

module _ (digest : Content → String) where
  -- An answer that is taken is on file, is the choice that was made, and is to the request on file under
  -- the digest that was given.
  pub answer-Answers :
      (id choice request_digest via : String) (remark : Option String) (m : Mailbox) (a : Answer)
      (m' : Mailbox)
      → answer digest id choice request_digest via remark m ≡ some (a, m')
      → (r : Request) × (get m'.requests id ≡ some r)
        × (request_digest ≡ r.request_digest)
        × (get m'.results id ≡ some a)
        × (a.choice ≡ choice)
        × Answers r a
  answer-Answers id choice d via remark m a m' h =
      let x = answer-Accepted digest id choice d via remark m a m' h in
      (
        x.request,
        ap (λ z. get z id) x.settled.same_requests ∙ x.on_file,
        x.current,
        x.settled.filed,
        x.settled.chosen,
        x.settled.answers,
      )

  answer_on-final :
      (id choice d via : String) (remark : Option String) (m : Mailbox) (a : Answer)
      (o : Option Request)
      → get m.results id ≡ some a
      → (a.choice == choice) ≡ false
      → answer_on digest id choice d via remark m o ≡ none
  answer_on-final id choice d via remark m a none e n = refl
  answer_on-final id choice d via remark m a (some r) e n =
      elim (Bool-cases (d == r.request_digest)) [
        | inl y ↦ rw (y, e) (settle-final r)
        | inr y ↦ rw y refl
      ]
    where
      settle-final : (r : Request) → settle digest id r choice via remark m (some a) ≡ none
      settle-final r = rw n (never (is_valid_answer digest id r a) (a, m))

  -- While an answer is on file, another choice is refused.
  pub answer-final :
      (id choice request_digest via : String) (remark : Option String) (m : Mailbox) (a : Answer)
      → get m.results id ≡ some a
      → (a.choice == choice) ≡ false
      → answer digest id choice request_digest via remark m ≡ none
  unfolding answer
  answer-final id choice d via remark m a e n = elim (Bool-cases (has_text d)) [
    | inl y ↦
        rw (y, answer) (answer_on-final id choice d via remark m a (load_request digest m id) e n)
    | inr y ↦ rw (y, answer) refl
  ]
