-- ===== src/Decisions/Mailbox/Samples.antt =====
-- A request with two options, and the theorems about vibe_guide/decisions.py at it.
use vibe_guide_automation.Common.{ℕ, String, none, some, List, [], ◌∷◌, ◌≡◌, refl}
use vibe_guide_automation.Common.Dict.{get}
use vibe_guide_automation.Json.{null, has_text}
use vibe_guide_automation.Decisions.{Choice, plain, normalize_options, validate_boundary_category}
use vibe_guide_automation.Decisions.Mailbox.{
  Content, Request, Answer, Mailbox, Question, new_answer, archive_name, build_record, store_record,
  load_request, answer,
}
use vibe_guide_automation.Decisions.Mailbox.Consistent.{Answers, IsConsistent}
use vibe_guide_automation.Decisions.Mailbox.Life.{
  empty, called, asks, answers, Reachable-IsConsistent, answer-Answers, answer-final,
}
use vibe_guide_automation.Decisions.Mailbox.Stores.{Stores, store_record-Stores}

abbrev digest : Content → String
digest c = c.category

abbrev size : Request → ℕ
size r = 0

abbrev name : String → String → String → String
name run node question = "dec-1"

abbrev question : Question
question = record {
  run_id = "r";
  node_id = "n";
  question = "Which?";
  options = plain "a" ∷ plain " b " ∷ [];
  recommendation = some "b";
  evidence = null;
  asked_at = 0;
  category = some "deploy";
}

abbrev choices : List Choice
choices =
    record { id = "a"; label = "a"; impact = "" }
    ∷ record { id = "b"; label = " b "; impact = "" }
    ∷ []

abbrev content : Content
content = record {
  decision_id = "dec-1";
  run_id = "r";
  node_id = "n";
  question = "Which?";
  category = "external_authorization";
  options = choices;
  recommendation = some "b";
  evidence = null;
  asked_at = 0;
}

abbrev request : Request
request = record { content = content; request_digest = "external_authorization" }

abbrev asked : Mailbox
asked = record { requests = ("dec-1", request) ∷ []; results = []; superseded = [] }

abbrev chosen : Answer
chosen = new_answer digest "dec-1" request "b" "" none

abbrev answered : Mailbox
answered = record asked { results = ("dec-1", chosen) ∷ [] }

built : build_record name question ≡ some content
unfolding build_record normalize_options validate_boundary_category has_text
built = refl

Reachable-IsConsistent_example : IsConsistent answered
unfolding store_record answer load_request has_text normalize_options
Reachable-IsConsistent_example = Reachable-IsConsistent digest size name answered (
    called (called empty (asks question built refl))
      (answers "dec-1" "b" "external_authorization" "" none {a = chosen} refl))

answer-Answers_example :
    (r : Request) × (get answered.requests "dec-1" ≡ some r)
    × ("external_authorization" ≡ r.request_digest)
    × (get answered.results "dec-1" ≡ some chosen)
    × (chosen.choice ≡ "b")
    × Answers r chosen
unfolding answer load_request has_text normalize_options
answer-Answers_example =
    answer-Answers digest "dec-1" "b" "external_authorization" "" none asked chosen answered refl

answer-final_example : answer digest "dec-1" "a" "external_authorization" "" none answered ≡ none
answer-final_example =
    answer-final digest "dec-1" "a" "external_authorization" "" none answered chosen refl refl

abbrev other_content : Content
other_content = record content { recommendation = none }

store_record-Stores_example :
    Stores digest size other_content request answered
      (store_record digest size other_content answered)
store_record-Stores_example = store_record-Stores digest size other_content answered request refl

-- The answer to the old content is archived.
superseded :
    store_record digest size other_content answered
    ≡ some (record {
      requests =
          ("dec-1", record { content = other_content; request_digest = "external_authorization" })
          ∷ [];
      results = [];
      superseded = (archive_name "dec-1" request, chosen) ∷ [];
    })
unfolding store_record normalize_options
superseded = refl
