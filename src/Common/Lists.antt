-- ===== src/Common/Lists.antt =====
-- Lists measured by native numbers, and Boolean quantifiers that run.
use Prim.Native.Nat.{ℕ, suc, ◌+◌}
use mathlib.Core.Path.{◌≡◌, refl, ap, sym, ◌∙◌, subst}
use mathlib.Core.Bool.{Bool, true, false, ◌&&◌, ◌||◌}
use mathlib.Core.List.{List, [], ◌∷◌, ◌++◌}
use mathlib.Core.List.{Memᴰ}
use mathlib.Core.Logic.{◌↔◌, inl, inr}
use native.Mathlib.Omega.{arith}
use vibe_guide_automation.Common.Tests.{if◌then◌else◌, Bool-cases}

module _ {ℓ} {A : Type ℓ} where
  abbrev pub length : List A → ℕ
  length [] = 0
  length (x ∷ xs) = suc (length xs)

  -- `all(p(x) for x in xs)` and `any(...)`
  abbrev pub all_of : (A → Bool) → List A → Bool
  all_of p [] = true
  all_of p (x ∷ xs) = p x && all_of p xs

  abbrev pub any_of : (A → Bool) → List A → Bool
  any_of p [] = false
  any_of p (x ∷ xs) = p x || any_of p xs

  abbrev pub is_empty : List A → Bool
  is_empty [] = true
  is_empty (x ∷ xs) = false

  abbrev pub All {κ} : (A → Type κ) → List A → Type κ
  All P [] = Unit
  All P (x ∷ xs) = P x × All P xs

  pub length-append : (xs ys : List A) → length (xs ++ ys) ≡ length xs + length ys
  length-append [] ys = omega arith
  length-append (x ∷ xs) ys = omega (arith, length-append xs ys)

  pub append-eq-nil : (xs ys : List A) → xs ++ ys ≡ [] → (xs ≡ []) × (ys ≡ [])
  append-eq-nil [] ys h = (refl, h)
  append-eq-nil (x ∷ xs) ys h = cc

module _ {ℓ} {A : Type ℓ} (p : A → Bool) where
  -- [x for x in xs if p(x)]
  abbrev pub keep : List A → List A
  keep [] = []
  keep (x ∷ xs) = if p x then x ∷ keep xs else keep xs

  keep_cons-mem :
      (x y : A) (xs ys : List A)
      → p y ≡ true
      → (Memᴰ x ys → Memᴰ x xs × (p x ≡ true))
      → Memᴰ x (y ∷ ys)
      → Memᴰ x (y ∷ xs) × (p x ≡ true)
  keep_cons-mem x y xs ys e ih (Memᴰ.head q) = (Memᴰ.head q, ap p q ∙ e)
  keep_cons-mem x y xs ys e ih (Memᴰ.tail i) = let (j, h) = ih i in (Memᴰ.tail j, h)

  mem-of-keep : (x : A) (xs : List A) → Memᴰ x (keep xs) → Memᴰ x xs × (p x ≡ true)
  mem-of-keep x [] = λ m. elim m [ ]
  mem-of-keep x (y ∷ xs) = elim (Bool-cases (p y)) [
    | inl e ↦ rw (e, keep) (keep_cons-mem x y xs (keep xs) e (mem-of-keep x xs))
    | inr e ↦ rw (e, keep) (λ m. let (j, h) = mem-of-keep x xs m in (Memᴰ.tail j, h))
  ]

  keep-of-mem : (x : A) (xs : List A) → Memᴰ x xs → p x ≡ true → Memᴰ x (keep xs)
  keep-of-mem x [] m h = m
  keep-of-mem x (y ∷ xs) (Memᴰ.head q) h = rw (sym (ap p q) ∙ h, keep) (Memᴰ.head q)
  keep-of-mem x (y ∷ xs) (Memᴰ.tail m) h = elim (Bool-cases (p y)) [
    | inl e ↦ rw (e, keep) (Memᴰ.tail (keep-of-mem x xs m h))
    | inr e ↦ rw (e, keep) (keep-of-mem x xs m h)
  ]

  pub mem-keep : (x : A) (xs : List A) → Memᴰ x (keep xs) ↔ (Memᴰ x xs × (p x ≡ true))
  mem-keep x xs = (mem-of-keep x xs, λ (m, h). keep-of-mem x xs m h)

pub All-mem {ℓ κ} :
    {A : Type ℓ} (P : A → Type κ) (xs : List A) → All P xs → (x : A) → Memᴰ x xs → P x
All-mem P [] h x m = elim m [ ]
All-mem P (y ∷ xs) h x (Memᴰ.head e) = subst P (sym e) h.0
All-mem P (y ∷ xs) h x (Memᴰ.tail m) = All-mem P xs h.1 x m
