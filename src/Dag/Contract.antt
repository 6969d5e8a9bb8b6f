-- ===== src/Dag/Contract.antt =====
-- The contract checks of vibe_guide/dag.py: `_has_content`, `_has_value`, `_contract_error`.
use vibe_guide_automation.Common.{
  String, Bool, true, false, ◌&&◌, ◌||◌, Option, none, some, List, [], ◌∷◌, ◌++◌, any_of, ◌==◌,
  if◌then◌else◌,
}
use vibe_guide_automation.Json.{
  Value, null, bool, int, text, array, object, Elements, no_element, element, Members, no_member,
  member, get_member, has_text, truthy,
}

mutual
  pub has_content : Value → Bool
  has_content null = false
  has_content (bool b) = b
  has_content (int n) = truthy (int n)
  has_content (text s) = has_text s
  has_content (array no_element) = false
  has_content (array (element x xs)) = has_content x && elements_have_content xs
  has_content (object no_member) = false
  has_content (object (member k v ms)) = has_text k && has_content v && members_have_content ms

  pub elements_have_content : Elements → Bool
  elements_have_content no_element = true
  elements_have_content (element x xs) = has_content x && elements_have_content xs

  pub members_have_content : Members → Bool
  members_have_content no_member = true
  members_have_content (member k v ms) = has_text k && has_content v && members_have_content ms

-- any(name in contract and _has_content(contract[name]) for name in names)
pub has_value : Members → List String → Bool
has_value c names =
    any_of (λ name. elim (get_member c name) [ none ↦ false | some v ↦ has_content v ]) names

abbrev pub contract_fields : List (List String)
contract_fields =
    ("input" ∷ "inputs" ∷ [])
    ∷ ("output" ∷ "outputs" ∷ [])
    ∷ ("error_behavior" ∷ "errors" ∷ [])
    ∷ ("acceptance_example" ∷ "acceptance_examples" ∷ [])
    ∷ []

-- names[0]
abbrev first_name : List String → List String
first_name [] = []
first_name (name ∷ _) = name ∷ []

pub missing_fields : Members → List (List String) → List String
missing_fields c [] = []
missing_fields c (names ∷ rest) =
    if has_value c names then missing_fields c rest else first_name names ++ missing_fields c rest

-- The messages of `_contract_error`; the empty message is `none`.
pub data ContractError : Type 0 where
  not_a_mapping : ContractError
  blocked_by_design : ContractError
  missing : List String → ContractError

abbrev pub field_truthy : Members → String → Bool
field_truthy c k = elim (get_member c k) [ none ↦ false | some v ↦ truthy v ]

abbrev pub is_text : Value → String → Bool
is_text (text s) k = s == k
is_text _ k = false

abbrev pub field_is_text : Members → String → String → Bool
field_is_text c k s = elim (get_member c k) [ none ↦ false | some v ↦ is_text v s ]

abbrev missing_error : List String → Option ContractError
missing_error [] = none
missing_error (n ∷ ns) = some (missing (n ∷ ns))

unfoldable pub contract_error : Value → Option ContractError
unfolding missing_fields has_value has_content get_member truthy has_text
contract_error (object c) =
    if field_truthy c "design_change" || field_is_text c "status" "blocked_design"
    then some blocked_by_design
    else missing_error (missing_fields c contract_fields)
contract_error _ = some not_a_mapping
