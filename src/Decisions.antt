-- ===== src/Decisions.antt =====
-- vibe_guide/decisions.py: what a request for a decision has to be. Options and categories are texts,
-- as the command line hands them over.
pub mod Mailbox
use Prim.Native.String
use Prim.Native.Char.{code}
use vibe_guide_automation.Common.{
  ℕ, suc, String, Bool, true, false, not, ◌&&◌, ◌||◌, Option, none, some, List, [], ◌∷◌, ltb,
  length, ◌==◌, contains, is_some, or_else, if◌then◌else◌,
}
use vibe_guide_automation.Json.{Value, has_text, is_space}

-- A chain of steps of which each may raise.
infixl 1 ◌>>=◌
abbrev pub ◌>>=◌ {ℓ κ} : {A : Type ℓ} {B : Type κ} → Option A → (A → Option B) → Option B
none >>= f = none
(some a) >>= f = f a

-- s.strip()
abbrev pub strip_right : String → String
strip_right String.[] = ""
strip_right (String.◌∷◌ c s) =
    let rest = strip_right s in if rest == "" && is_space (code c) then "" else String.◌∷◌ c rest

abbrev pub strip : String → String
strip String.[] = ""
strip (String.◌∷◌ c s) =
    let rest = strip s in if is_space (code c) then rest else strip_right (String.◌∷◌ c s)

-- BOUNDARY_CATEGORY_ALIASES.get(value, value)
abbrev pub canonical_category : String → String
canonical_category value =
    if value == "product_design"
    then "product_acceptance"
    else if contains ("deploy" ∷ "credentials" ∷ "system_permission" ∷ "irreversible_action" ∷ [])
        value
    then "external_authorization"
    else value

-- `none` where the program raises ValueError, here and below.
unfoldable pub validate_boundary_category : String → Option String
validate_boundary_category category =
    let value = canonical_category (strip category) in
    if contains ("product_acceptance" ∷ "external_authorization" ∷ []) value
    then some value
    else none

pub record Choice : Type 0 where
  pub id : String
  pub label : String
  pub impact : String

-- An option as it is asked: a text, a mapping with some of its keys, or something else.
pub data Raw : Type 0 where
  plain : String → Raw
  described : (id key label impact : Option String) → Raw
  other : Raw

abbrev pub filled : Choice → Option Choice
filled c = if c.id == "" || c.label == "" then none else some c

abbrev pub normalize_option : Raw → Option Choice
normalize_option (plain s) = filled (record { id = strip s; label = s; impact = "" })
normalize_option (described id key label impact) =
    let name = strip (or_else id (or_else key "")) in
    filled (record { id = name; label = or_else label name; impact = or_else impact "" })
normalize_option other = none

abbrev pub normalize_all : List Raw → Option (List Choice)
normalize_all [] = some []
normalize_all (o ∷ options) =
    let rest = normalize_all options in
    elim (normalize_option o) [
      | none ↦ none
      | some c ↦ elim rest [ none ↦ none | some cs ↦ some (c ∷ cs) ]
    ]

abbrev pub choice_ids : List Choice → List String
choice_ids [] = []
choice_ids (c ∷ cs) = c.id ∷ choice_ids cs

-- len({item["id"] for item in normalized}) == len(normalized)
abbrev pub are_unique : List String → Bool
are_unique [] = true
are_unique (x ∷ xs) = not (contains xs x) && are_unique xs

-- len(normalized) < 2 or the ids are not unique
abbrev pub offered : List Choice → Bool
offered cs = ltb 1 (length cs) && are_unique (choice_ids cs)

unfoldable pub normalize_options : List Raw → Option (List Choice)
normalize_options options = elim (normalize_all options) [
  | none ↦ none
  | some cs ↦ if offered cs then some cs else none
]
