-- ===== src/Decisions/Mailbox.antt =====
-- The mailbox of vibe_guide/decisions.py: requests, results and superseded results as dictionaries.
-- `digest` stands for the canonical digest of a request without its own digest, `name` for the id made
-- of the run, the node and the question. A record without a category is read with the default one; one
-- with a scope, which another module writes, is left out, and so is the size bound of an answer's file
-- and of a file that is read. A call that raises gives no mailbox; in the source, one that raises for
-- the size of the new request has by then archived the old request's answer.
pub mod Consistent
pub mod Life
pub mod Stores
pub mod Samples
use Prim.Native.String
use vibe_guide_automation.Common.{
  ℕ, zero, suc, String, Bool, true, false, not, ◌&&◌, ◌||◌, Option, none, some, List, [], ◌∷◌, ltb,
  leb, length, ◌==◌, contains, is_some, or_else, if◌then◌else◌,
}
use vibe_guide_automation.Common.Dict.{Dict, get, put, pop}
use vibe_guide_automation.Json.{Value, has_text}
use vibe_guide_automation.Decisions.{
  ◌>>=◌, Choice, Raw, choice_ids, are_unique, offered, normalize_options,
  validate_boundary_category,
}

pub record Content : Type 0 where
  pub decision_id : String
  pub run_id : String
  pub node_id : String
  pub question : String
  pub category : String
  pub options : List Choice
  pub recommendation : Option String
  pub evidence : Value
  pub asked_at : ℕ

pub record Request : Type 0 where
  pub content : Content
  pub request_digest : String

pub record Answer : Type 0 where
  pub decision_id : String
  pub request_digest : String
  pub choice : String
  pub answered_via : String
  pub note : Option String

pub record Mailbox : Type 0 where
  pub requests : Dict Request
  pub results : Dict Answer
  pub superseded : Dict Answer

-- What is asked.
pub record Question : Type 0 where
  pub run_id : String
  pub node_id : String
  pub question : String
  pub options : List Raw
  pub recommendation : Option String
  pub evidence : Value
  pub asked_at : ℕ
  pub category : Option String

abbrev pub is_recommended : Option String → List Choice → Bool
is_recommended none cs = true
is_recommended (some id) cs = contains (choice_ids cs) id

abbrev pub category_of : Option String → Option String
category_of none = some "product_acceptance"
category_of (some c) = validate_boundary_category c

abbrev pub same_choice : Choice → Choice → Bool
same_choice a b = a.id == b.id && (a.label == b.label && a.impact == b.impact)

abbrev pub same_choices : List Choice → List Choice → Bool
same_choices [] [] = true
same_choices (a ∷ xs) (b ∷ ys) = same_choice a b && same_choices xs ys
same_choices _ _ = false

abbrev pub same_recommendation : Option String → Option String → Bool
same_recommendation none none = true
same_recommendation (some a) (some b) = a == b
same_recommendation _ _ = false

-- The stored options, read again.
abbrev pub stored_options : List Choice → List Raw
stored_options [] = []
stored_options (c ∷ cs) =
    Raw.described (some c.id) none (some c.label) (some c.impact) ∷ stored_options cs

abbrev pub current_ids : Content → List String
current_ids c = elim (normalize_options (stored_options c.options)) [
  | none ↦ []
  | some cs ↦ choice_ids cs
]

-- The identity keys of a request are the same.
abbrev pub same_content : Content → Content → Bool
same_content a b =
    same_choices a.options b.options
    && (same_recommendation a.recommendation b.recommendation && a.category == b.category)

-- _MAX_RECORD_BYTES
abbrev pub max_record_bytes : ℕ
max_record_bytes = 65536

abbrev pub first_characters : ℕ → String → String
first_characters zero s = ""
first_characters (suc n) String.[] = ""
first_characters (suc n) (String.◌∷◌ c s) = String.◌∷◌ c (first_characters n s)

abbrev pub archive_name : String → Request → String
archive_name id r = String.◌++◌ id (String.◌++◌ "-" (first_characters 16 r.request_digest))

module _ (name : String → String → String → String) where
  abbrev pub content_of : Question → List Choice → String → Content
  content_of q cs category = record {
    decision_id = name q.run_id q.node_id q.question;
    run_id = q.run_id;
    node_id = q.node_id;
    question = q.question;
    category = category;
    options = cs;
    recommendation = q.recommendation;
    evidence = q.evidence;
    asked_at = q.asked_at;
  }

  -- _build_record
  unfoldable pub build_record : Question → Option Content
  build_record q =
      if not (has_text q.run_id && (has_text q.node_id && has_text q.question)) then none else do
        cs ← normalize_options q.options
        c ← category_of q.category
        if is_recommended q.recommendation cs then some (content_of q cs c) else none

module _ (digest : Content → String) where
  abbrev pub is_loadable : String → Request → Bool
  is_loadable id r =
      r.content.decision_id == id
      && (r.request_digest == digest r.content
          && is_some (normalize_options (stored_options r.content.options)))

  abbrev pub if_loadable : String → Option Request → Option Request
  if_loadable id none = none
  if_loadable id (some r) = if is_loadable id r then some r else none

  -- _load_request
  unfoldable pub load_request : Mailbox → String → Option Request
  load_request m id = if_loadable id (get m.requests id)

  abbrev pub write_request : Content → Mailbox → Mailbox
  write_request c m = record m {
    requests = put m.requests c.decision_id (record { content = c; request_digest = digest c });
  }

  abbrev pub archive : String → Request → Mailbox → Option Answer → Mailbox
  archive id old m none = m
  archive id old m (some a) = record m {
    results = pop m.results id;
    superseded = put m.superseded (archive_name id old) a;
  }

  -- _archive_result
  abbrev pub archive_result : String → Request → Mailbox → Mailbox
  archive_result id old m = archive id old m (get m.results id)

  -- `size` stands for the length in bytes of a record's JSON text.
  module _ (size : Request → ℕ) where
    -- _atomic_json, which refuses a record over the bound
    abbrev pub write_within : Content → Mailbox → Option Mailbox
    write_within c m =
        if leb (size (record { content = c; request_digest = digest c })) max_record_bytes
        then some (write_request c m)
        else none

    abbrev pub store_over : Content → Request → Mailbox → Option Mailbox
    store_over c old m =
        if same_content old.content c
        then some m
        else write_within c (archive_result c.decision_id old m)

    -- The existing request is loaded first.
    abbrev pub store_on : Content → Mailbox → Option Request → Option Mailbox
    store_on c m none = write_within c m
    store_on c m (some old) = if is_loadable c.decision_id old then store_over c old m else none

    -- _store_record
    unfoldable pub store_record : Content → Mailbox → Option Mailbox
    store_record c m = store_on c m (get m.requests c.decision_id)

  abbrev pub is_valid_answer : String → Request → Answer → Bool
  is_valid_answer id r a =
      a.decision_id == id
      && (a.request_digest == r.request_digest
          && (contains (current_ids r.content) a.choice && has_text a.answered_via))

  abbrev pub new_answer : String → Request → String → String → Option String → Answer
  new_answer id r choice via remark = record {
    decision_id = id;
    request_digest = r.request_digest;
    choice = choice;
    answered_via = if via == "" then "cli" else via;
    note = remark;
  }

  abbrev pub settle :
      String
      → Request
      → String
      → String
      → Option String
      → Mailbox
      → Option Answer
      → Option (Answer × Mailbox)
  settle id r choice via remark m none =
      if contains (current_ids r.content) choice
      then some (
        new_answer id r choice via remark,
        record m { results = put m.results id (new_answer id r choice via remark) },
      )
      else none
  settle id r choice via remark m (some a) =
      if is_valid_answer id r a && a.choice == choice then some (a, m) else none

  abbrev pub answer_on :
      String
      → String
      → String
      → String
      → Option String
      → Mailbox
      → Option Request
      → Option (Answer × Mailbox)
  answer_on id choice request_digest via remark m none = none
  answer_on id choice request_digest via remark m (some r) =
      if request_digest == r.request_digest
      then settle id r choice via remark m (get m.results id)
      else none

  -- DecisionMailbox.answer; a missing `answered_via` is the empty text.
  unfoldable pub answer :
      String → String → String → String → Option String → Mailbox → Option (Answer × Mailbox)
  unfolding load_request
  answer id choice request_digest via remark m =
      if not (has_text request_digest)
      then none
      else answer_on id choice request_digest via remark m (load_request m id)
