-- ===== src/Review.antt =====
-- vibe_guide/evidence.py: the integration review. What a reviewer may claim, the package that is made
-- of it, and the checks of a package. Packages and claims are JSON values. A run is the snapshot of
-- the delivery ring with the parts of the lineage that only the review reads.
pub mod Findings
pub mod Closeout
pub mod Delivered
pub mod Samples
use Prim.Native.Char.{code}
use Prim.Native.String
use vibe_guide_automation.Common.{
  ◌++◌, ℕ, zero, suc, ◌+◌, String, Bool, true, false, not, ◌&&◌, ◌||◌, Option, none, some, List, [],
  ◌∷◌, ◌==◌, leb, nat_eq, contains, all_of, any_of, is_empty, is_some, if◌then◌else◌,
}
use vibe_guide_automation.Json.{
  ℤ, pos, negsuc, Members, no_member, member, Elements, no_element, element, Value, object, array,
  text, int, bool, null, get_member, has_text, truthy,
}
use vibe_guide_automation.Delivery.{Snapshot, RunNode}

-- value.lower() == word, for a word in lower case
abbrev lower_code : ℕ → ℕ
lower_code c = if leb 65 c && leb c 90 then c + 32 else c

abbrev pub same_lower : String → String → Bool
same_lower String.[] String.[] = true
same_lower String.[] (String.◌∷◌ d t) = false
same_lower (String.◌∷◌ c s) String.[] = false
same_lower (String.◌∷◌ c s) (String.◌∷◌ d t) =
    nat_eq (lower_code (code c)) (code d) && same_lower s t

-- str(value).lower() == word, where only a text can be the word.
abbrev pub spelled : Option Value → String → Bool
spelled (some (text s)) word = same_lower s word
spelled _ word = false

pub data Severity : Type 0 where
  p0 p1 p2 observed : Severity

abbrev pub severity_of : Members → Option Severity
severity_of f =
    let v = get_member f "severity" in
    if spelled v "p0"
    then some p0
    else if spelled v "p1"
    then some p1
    else if spelled v "p2"
    then some p2
    else if spelled v "p3" || spelled v "p4"
    then some observed
    else none

-- finding.get("status", finding.get("resolution", ""))
abbrev pub status_of : Members → Option Value
status_of f = elim (get_member f "status") [ some v ↦ some v | none ↦ get_member f "resolution" ]

abbrev pub is_status : Option Value → Bool
is_status v = spelled v "open" || spelled v "resolved" || spelled v "accepted" || spelled v "waived"

pub record Counts : Type 0 where
  pub at_p0 : ℕ
  pub at_p1 : ℕ
  pub at_p2 : ℕ

pub data Counted : Type 0 where
  malformed : String → Counted
  counted : Counts → Counted

abbrev pub add : Severity → Counts → Counts
add p0 c = record c { at_p0 = suc c.at_p0 }
add p1 c = record c { at_p1 = suc c.at_p1 }
add p2 c = record c { at_p2 = suc c.at_p2 }
add observed c = c

abbrev pub count_over : Bool → Severity → Counted → Counted
count_over resolved s (malformed m) = malformed m
count_over true s (counted c) = counted c
count_over false s (counted c) = counted (add s c)

-- One turn of the loop, with the count of the findings after it.
abbrev pub count_finding : Members → Option Severity → Counted → Counted
count_finding f none rest = malformed "integration finding schema is invalid"
count_finding f (some s) rest =
    if is_status (status_of f)
    then count_over (spelled (status_of f) "resolved") s rest
    else malformed "integration finding status is invalid"

-- `_open_finding_counts`
pub open_finding_counts : Elements → Counted
open_finding_counts no_element = counted (record { at_p0 = 0; at_p1 = 0; at_p2 = 0 })
open_finding_counts (element (object f) fs) =
    count_finding f (severity_of f) (open_finding_counts fs)
open_finding_counts (element _ fs) = malformed "integration finding schema is invalid"

-- A snapshot with the plan's revision and digests, and whether a node asks for its workspace to be
-- reconciled.
pub record Run : Type 0 where
  pub snapshot : Snapshot
  pub plan_version : Option ℕ
  pub prd_digest : Option String
  pub spec_digest : Option String
  pub reconciles : Bool

-- evidence.get(key) == value
abbrev pub says : Option Value → String → Bool
says (some (text s)) expected = s == expected
says _ expected = false

abbrev pub numbers : Option Value → ℕ → Bool
numbers (some (int (pos n))) expected = nat_eq n expected
numbers (some (bool true)) expected = nat_eq 1 expected
numbers (some (bool false)) expected = nat_eq 0 expected
numbers _ expected = false

abbrev pub same_text : Option Value → Option String → Bool
same_text v none = false
same_text v (some expected) = says v expected

abbrev pub same_number : Option Value → Option ℕ → Bool
same_number v none = false
same_number v (some expected) = numbers v expected

-- `value not in (None, "")`
abbrev pub is_stated : Option String → Bool
is_stated none = false
is_stated (some s) = not (s == "")

-- The two checks of a key of the lineage: that the run has a value, and that the evidence has the same.
abbrev pub text_checks : Members → String → Option String → List (Bool × String)
text_checks e key value =
    (is_stated value, String.◌++◌ "integration current lineage " (String.◌++◌ key " is missing"))
    ∷ (
      same_text (get_member e key) value,
      String.◌++◌ "integration evidence " (String.◌++◌ key " mismatch"),
    )
    ∷ []

-- `_lineage_reasons`
abbrev pub lineage_checks : Run → Members → List (Bool × String)
lineage_checks r e =
    text_checks e "run_id" (some r.snapshot.run_id)
    ++ text_checks e "plan_id" (some r.snapshot.plan_id)
    ++ ((is_some r.plan_version, "integration current lineage plan_revision is missing")
        ∷ (
          same_number (get_member e "plan_revision") r.plan_version,
          "integration evidence plan_revision mismatch",
        )
        ∷ [])
    ++ text_checks e "authorization_digest" (some r.snapshot.authorization_digest)
    ++ text_checks e "node_contract_digest" (some r.snapshot.node_contract_digest)
    ++ text_checks e "prd_digest" r.prd_digest
    ++ text_checks e "spec_digest" r.spec_digest

-- _HEX_DIGEST
abbrev is_hex : ℕ → Bool
is_hex c = leb 48 c && leb c 57 || leb 97 c && leb c 102

abbrev hex_of_length : ℕ → String → Bool
hex_of_length zero String.[] = true
hex_of_length zero (String.◌∷◌ c s) = false
hex_of_length (suc n) String.[] = false
hex_of_length (suc n) (String.◌∷◌ c s) = is_hex (lower_code (code c)) && hex_of_length n s

abbrev pub is_hex_digest : Option Value → Bool
is_hex_digest (some (text s)) = hex_of_length 64 s
is_hex_digest _ = false

-- value.get(key) of an object.
abbrev pub get_in : Option Value → String → Option Value
get_in (some (object v)) key = get_member v key
get_in _ key = none

abbrev pub is_object : Option Value → Bool
is_object (some (object v)) = true
is_object _ = false

abbrev pub is_array : Option Value → Bool
is_array (some (array v)) = true
is_array _ = false

-- `bool(value.get(key))`
abbrev pub holds : Option Value → Bool
holds none = false
holds (some v) = truthy v

abbrev pub is_among : List String → Option Value → Bool
is_among words (some (text s)) = contains words s
is_among words _ = false

-- The nodes of the run that the reviewer was held to, in order.
abbrev pub scope_ids : List (String × RunNode) → List String
scope_ids [] = []
scope_ids ((id, node) ∷ nodes) = id ∷ scope_ids nodes

abbrev pub are_ids : Elements → List String → Bool
are_ids no_element [] = true
are_ids no_element (i ∷ is) = false
are_ids (element (text s) vs) (i ∷ is) = s == i && are_ids vs is
are_ids (element _ vs) _ = false

abbrev pub scoped : Option Value → List String → Bool
scoped (some (array vs)) nodes = are_ids vs nodes
scoped _ nodes = false

abbrev pub are_distinct : List String → Bool
are_distinct [] = true
are_distinct (i ∷ is) = not (contains is i) && are_distinct is

abbrev pub is_reference : Value → Bool
is_reference (text s) = true
is_reference (object v) = true
is_reference _ = false

abbrev pub are_references : Elements → Bool
are_references no_element = true
are_references (element v vs) = is_reference v && are_references vs

abbrev pub has_references : Option Value → Bool
has_references (some (array (element v vs))) = are_references (element v vs)
has_references _ = false

-- The checks in order: the text of the first one that fails.
abbrev pub first_failure : List (Bool × String) → Option String
first_failure [] = none
first_failure ((passes, message) ∷ checks) =
    let rest = first_failure checks in if passes then rest else some message

abbrev pub member_keys : Members → List String
member_keys no_member = []
member_keys (member k v ms) = k ∷ member_keys ms

abbrev pub has_keys : List String → Members → Bool
has_keys names e =
    all_of (contains (member_keys e)) names && all_of (contains names) (member_keys e)

abbrev pub package_keys : List String
package_keys =
    "schema_version" ∷ "run_id" ∷ "plan_id" ∷ "plan_revision" ∷ "prd_digest" ∷ "spec_digest"
    ∷ "authorization_digest" ∷ "node_contract_digest" ∷ "aggregated_scope"
    ∷ "iteration_compatibility" ∷ "agentsmd_acceptance_refs" ∷ "test_runtime_delivery"
    ∷ "unverified_or_excluded" ∷ "findings" ∷ "clearance" ∷ []

abbrev pub outdated : List String
outdated = "unknown" ∷ "expired" ∷ "stale" ∷ []

-- type(clearance[key]) is int and clearance[key] >= 0
abbrev pub is_count : Option Value → Bool
is_count (some (int (pos n))) = true
is_count _ = false

abbrev pub clearance_shaped : Option Value → Bool
clearance_shaped (some (object c)) =
    has_keys ("p0" ∷ "p1" ∷ "p2" ∷ []) c
    && is_count (get_member c "p0")
    && is_count (get_member c "p1")
    && is_count (get_member c "p2")
clearance_shaped _ = false

abbrev pub content_checks : Run → Members → List (Bool × String)
content_checks r e =
    let scope = get_member e "aggregated_scope" in
    let compatibility = get_member e "iteration_compatibility" in
    let runtime = get_member e "test_runtime_delivery" in
    let clearance = get_member e "clearance" in
    (is_hex_digest (get_member e "prd_digest"), "integration evidence prd_digest is invalid")
    ∷ (is_hex_digest (get_member e "spec_digest"), "integration evidence spec_digest is invalid")
    ∷ (
      is_hex_digest (get_member e "authorization_digest"),
      "integration evidence authorization_digest is invalid",
    )
    ∷ (
      is_hex_digest (get_member e "node_contract_digest"),
      "integration evidence node_contract_digest is invalid",
    )
    ∷ (is_array (get_in scope "nodes"), "integration aggregated scope is invalid")
    ∷ (
      scoped (get_in scope "nodes") (scope_ids r.snapshot.others)
          && are_distinct (scope_ids r.snapshot.others),
      "integration aggregated scope conflicts with run",
    )
    ∷ (
      not (holds (get_in scope "out_of_scope")),
      "integration aggregated scope contains out-of-scope changes",
    )
    ∷ (
      is_object compatibility && not (is_among outdated (get_in compatibility "status")),
      "integration compatibility evidence is unknown or expired",
    )
    ∷ (
      is_among ("verified" ∷ "compatible" ∷ "reviewed" ∷ []) (get_in compatibility "status"),
      "integration compatibility evidence is incomplete",
    )
    ∷ (holds (get_in compatibility "evidence"), "integration compatibility evidence is missing")
    ∷ (
      has_references (get_member e "agentsmd_acceptance_refs"),
      "integration AGENTS.md evidence is missing",
    )
    ∷ (
      is_object runtime && not (is_among outdated (get_in runtime "status")),
      "integration test/runtime evidence is unknown or expired",
    )
    ∷ (
      is_among ("verified" ∷ "reviewed" ∷ []) (get_in runtime "status")
          && holds (get_in runtime "evidence"),
      "integration test/runtime evidence is incomplete",
    )
    ∷ (
      is_array (get_member e "unverified_or_excluded"),
      "integration unverified/excluded field is invalid",
    )
    ∷ (is_array (get_member e "findings"), "integration findings field is invalid")
    ∷ (clearance_shaped clearance, "integration P0/P1/P2 clearance is invalid")
    ∷ []

abbrev pub shape_checks : Run → Members → List (Bool × String)
shape_checks r e =
    (
      has_keys package_keys e && numbers (get_member e "schema_version") 1,
      "integration review evidence schema is invalid",
    )
    ∷ (lineage_checks r e ++ content_checks r e)

abbrev pub findings_of : Option Value → Elements
findings_of (some (array fs)) = fs
findings_of _ = no_element

abbrev pub clearance_checks : Option Value → Counts → List (Bool × String)
clearance_checks clearance c =
    (numbers (get_in clearance "p0") c.at_p0, "P0 clearance does not match finding count")
    ∷ (numbers (get_in clearance "p1") c.at_p1, "P1 clearance does not match finding count")
    ∷ (numbers (get_in clearance "p2") c.at_p2, "P2 clearance does not match finding count")
    ∷ []

abbrev pub matches : Option Value → Counted → Option String
matches clearance (malformed m) = some m
matches clearance (counted c) = first_failure (clearance_checks clearance c)

-- The first of two errors.
abbrev pub or_error : Option String → Option String → Option String
or_error (some message) later = some message
or_error none later = later

-- `validate_integration_review_evidence`: the text of the error that it raises.
unfoldable pub review_error : Run → Members → Option String
unfolding open_finding_counts
review_error r e = or_error (first_failure (shape_checks r e)) (
    matches (get_member e "clearance")
      (open_finding_counts (findings_of (get_member e "findings"))))
