-- ===== src/Common/Dict.antt =====
-- Python's `dict` with text keys, in insertion order: writing an old key keeps its place.
use vibe_guide_automation.Common.{
  ◌≡◌, refl, Option, none, some, List, [], ◌∷◌, arith, eq_iff, contains, ◌||◌, if◌then◌else◌, ◌==◌,
}
use Prim.Native.String.{String}

abbrev pub Dict {ℓ} : Type ℓ → Type ℓ
Dict V = List (String × V)

module _ {ℓ} {V : Type ℓ} where
  -- d.get(key)
  abbrev pub get : Dict V → String → Option V
  get [] key = none
  get ((x, v) ∷ d) key = if x == key then some v else get d key

  -- d[key] = value
  abbrev pub put : Dict V → String → V → Dict V
  put [] key value = (key, value) ∷ []
  put ((x, v) ∷ d) key value = if x == key then (x, value) ∷ d else (x, v) ∷ put d key value

  -- d.pop(key, None)
  abbrev pub pop : Dict V → String → Dict V
  pop [] key = []
  pop ((x, v) ∷ d) key = let rest = pop d key in if x == key then rest else (x, v) ∷ rest

  abbrev pub keys : Dict V → List String
  keys [] = []
  keys ((x, v) ∷ d) = x ∷ keys d

module _ {ℓ} {V : Type ℓ} (key : String) where
  pub get-put :
      (value : V) (d : Dict V) (asked : String)
      → get (put d key value) asked ≡ (if key == asked then some value else get d asked)
  get-put value [] asked = refl
  get-put value ((x, v) ∷ d) asked =
      ground (arith, eq_iff x key, eq_iff x asked, eq_iff key asked, get-put value d asked)

  pub contains-keys-put :
      (value : V) (d : Dict V) (asked : String)
      → contains (keys (put d key value)) asked ≡ (key == asked || contains (keys d) asked)
  contains-keys-put value [] asked = refl
  contains-keys-put value ((x, v) ∷ d) asked =
      ground
        (arith, eq_iff x key, eq_iff x asked, eq_iff key asked, contains-keys-put value d asked)

  pub get-pop :
      (d : Dict V) (asked : String)
      → get (pop d key) asked ≡ (if key == asked then none else get d asked)
  get-pop [] asked = ground arith
  get-pop ((x, v) ∷ d) asked =
      ground (arith, eq_iff x key, eq_iff x asked, eq_iff key asked, get-pop d asked)
