-- ===== src/Json.antt =====
-- The JSON values that the guide's contracts hold, with Python's truth test and `str.strip`.
-- Integers are exact; a floating-point number does not occur in a contract that is read here.
use Prim.Native.Char.{code}
use Prim.Native.String.{String}
use vibe_guide_automation.Common.{
  ℕ, Bool, true, false, not, ◌&&◌, ◌||◌, Option, none, some, leb, nat_eq, ◌==◌, if◌then◌else◌,
}

pub data ℤ : Type 0 where
  pos : ℕ → ℤ
  negsuc : ℕ → ℤ

mutual
  -- An object's members, in order; its keys are distinct.
  pub data Members : Type 0 where
    no_member : Members
    member : String → Value → Members → Members

  pub data Elements : Type 0 where
    no_element : Elements
    element : Value → Elements → Elements

  pub data Value : Type 0 where
    object : Members → Value
    array : Elements → Value
    text : String → Value
    int : ℤ → Value
    bool : Bool → Value
    null : Value

-- contract.get(key)
unfoldable pub get_member : Members → String → Option Value
get_member no_member key = none
get_member (member k v ms) key = if k == key then some v else get_member ms key

-- The characters that `str.strip` takes off.
abbrev pub is_space : ℕ → Bool
is_space c =
    leb 9 c && leb c 13
    || leb 28 c && leb c 32
    || nat_eq c 133
    || nat_eq c 160
    || nat_eq c 5760
    || leb 8192 c && leb c 8202
    || nat_eq c 8232
    || nat_eq c 8233
    || nat_eq c 8239
    || nat_eq c 8287
    || nat_eq c 12288

-- bool(s.strip())
unfoldable pub has_text : String → Bool
has_text String.[] = false
has_text (String.◌∷◌ c s) = not (is_space (code c)) || has_text s

-- bool(value)
unfoldable pub truthy : Value → Bool
truthy null = false
truthy (bool b) = b
truthy (int (pos ℕ.zero)) = false
truthy (int _) = true
truthy (text s) = not (s == "")
truthy (array no_element) = false
truthy (array (element _ _)) = true
truthy (object no_member) = false
truthy (object (member _ _ _)) = true
