-- ===== src/Common/Texts.antt =====
-- Texts that are compared whole, sets of texts as lists, and dictionaries as association lists.
use Prim.Native.String.{String}
use mathlib.Core.Path.{◌≡◌, refl}
use mathlib.Core.Logic.{◌⊎◌}
use mathlib.Core.Bool.{Bool, true, false, ◌||◌}
use mathlib.Core.List.{List, [], ◌∷◌, ◌++◌}
use native.Mathlib.Omega.{arith}
use text.Mathlib.Text
use text.Mathlib.TextEquality.{eq_iff}

infix 50 ◌==◌
abbrev pub ◌==◌ : String → String → Bool
s == t = Text.◌==◌ s t

-- `k in xs`
abbrev pub contains : List String → String → Bool
contains [] k = false
contains (x ∷ xs) k = x == k || contains xs k

infix 50 ◌∈◌
abbrev pub ◌∈◌ : String → List String → Type 0
k ∈ xs = contains xs k ≡ true

pub contains-append :
    (xs ys : List String) (k : String) → contains (xs ++ ys) k ≡ (contains xs k || contains ys k)
contains-append [] ys k = refl
contains-append (x ∷ xs) ys k = ground (arith, contains-append xs ys k)

-- A property of every element, read as a function.
pub contains-cons : (x k : String) (xs : List String) → k ∈ (x ∷ xs) → (k ≡ x) ⊎ (k ∈ xs)
contains-cons x k xs h = ground (arith, eq_iff x k)
