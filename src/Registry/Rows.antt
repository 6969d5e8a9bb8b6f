-- ===== src/Registry/Rows.antt =====
-- What the registry files of vibe_guide/task_registry.py read as, and the rows of one run among all.
use vibe_guide_automation.Common.{
  String, Bool, true, false, ◌&&◌, Option, none, some, List, [], ◌∷◌, ◌++◌, ◌≡◌, inl, inr, refl,
  sym, ap, ◌∙◌, subst, all_of, keep, ◌==◌, arith, eq_iff, contains, or_else, Bool-cases, some-inj,
  absurd_eq, and-both, none-some, ◌||◌,
}
use vibe_guide_automation.Common.Dict.{get, put, keys, contains-keys-put}
use vibe_guide_automation.Decisions.{◌>>=◌}
use vibe_guide_automation.Registry.Lineage.{same_text_iff}
use vibe_guide_automation.Registry.{
  Binding, File, Files, is_of_run, checked, no_file, all_bindings, is_run_id,
}

pub bind-some {ℓ κ} :
    {A : Type ℓ} {B : Type κ} (o : Option A) (f : A → Option B) (b : B)
    → (o >>= f) ≡ some b
    → (a : A) × (o ≡ some a) × (f a ≡ some b)
bind-some none f b h = cc
bind-some (some a) f b h = (a, refl, h)

module _ {ℓ} {A : Type ℓ} where
  keep-append : (p : A → Bool) (xs ys : List A) → keep p (xs ++ ys) ≡ keep p xs ++ keep p ys
  keep-append p [] ys = refl
  keep-append p (x ∷ xs) ys = elim (Bool-cases (p x)) [
    | inl e ↦ rw (e, keep) (ap (λ z. x ∷ z) (keep-append p xs ys))
    | inr e ↦ rw (e, keep) (keep-append p xs ys)
  ]

  keep-same :
      (p q : A → Bool) (x : A) (xs : List A)
      → p x ≡ q x
      → keep p xs ≡ keep q xs
      → keep p (x ∷ xs) ≡ keep q (x ∷ xs)
  keep-same p q x xs e ih = elim (Bool-cases (q x)) [
    | inl h ↦ rw (e, h, keep) (ap (λ z. x ∷ z) ih)
    | inr h ↦ rw (e, h, keep) ih
  ]

  -- Tests that agree on the elements that a third one holds of.
  keep_agreeing :
      (p q r : A → Bool) (xs : List A)
      → ((x : A) → r x ≡ true → p x ≡ q x)
      → all_of r xs ≡ true
      → keep p xs ≡ keep q xs
  keep_agreeing p q r [] f h = refl
  keep_agreeing p q r (x ∷ xs) f h =
      let (here, there) = and-both _ _ h in
      keep-same p q x xs (f x here) (keep_agreeing p q r xs f there)

  append-nil : (xs : List A) → xs ++ [] ≡ xs
  append-nil [] = refl
  append-nil (x ∷ xs) = ap (λ z. x ∷ z) (append-nil xs)

  keep_nothing : (xs : List A) → keep (λ x. false) xs ≡ []
  keep_nothing [] = refl
  keep_nothing (x ∷ xs) = keep_nothing xs

abbrev pub rows_of : Files → String → List Binding
rows_of d run = let f = or_else (get d run) no_file in f.bindings

rows_of-here :
    (d : Files) (x run : String) (f : File)
    → (x == run) ≡ true
    → f.bindings ≡ rows_of ((x, f) ∷ d) run
rows_of-here d x run f e = rw (e, rows_of) refl

rows_of-there :
    (d : Files) (x run : String) (f : File)
    → (x == run) ≡ false
    → rows_of d run ≡ rows_of ((x, f) ∷ d) run
rows_of-there d x run f e = rw (e, rows_of) refl

abbrev pub IsDistinct : List String → Type 0
IsDistinct [] = Unit
IsDistinct (k ∷ ks) = (contains ks k ≡ false) × IsDistinct ks

or-left : (a b : Bool) → (a || b) ≡ false → a ≡ false
or-left true b h = sym (absurd_eq (sym h))
or-left false b h = refl

or-right : (a b : Bool) → (a || b) ≡ false → b ≡ false
or-right true b h = absurd_eq (sym h)
or-right false b h = h

is_of_run-other :
    (a b : String) (x : Binding) → (a == b) ≡ false → is_of_run a x ≡ true → is_of_run b x ≡ false
is_of_run-other a b x n h = elim (Bool-cases (is_of_run b x)) [
  | inl e ↦ absurd_eq (
      sym n
      ∙ (eq_iff a b).1 (
          some-inj
            (sym ((same_text_iff x.run_id (some a)).0 h) ∙ (same_text_iff x.run_id (some b)).0 e)))
  | inr e ↦ e
]

-- A file that is read is as it is on disk, under a run id, and every row is of that run.
pub record IsRead (run : String) (f g : File) : Type 0 where
  pub same : g ≡ f
  pub named : is_run_id run ≡ true
  pub own : all_of (is_of_run run) f.bindings ≡ true

pub checked-IsRead : (run : String) (f g : File) → checked run f ≡ some g → IsRead run f g
checked-IsRead run f g = elim (Bool-cases (is_run_id run && all_of (is_of_run run) f.bindings)) [
  | inl e ↦
      rw e
        (λ h. let (n, o) = and-both _ _ e in record { same = sym (some-inj h); named = n; own = o })
  | inr e ↦ rw e (λ h. none-some h)
]

pub record Splits (run : String) (f : File) (d : Files) (rows : List Binding) : Type 0 where
  pub read : IsRead run f f
  pub rest : List Binding
  pub others : all_bindings d ≡ some rest
  pub joined : f.bindings ++ rest ≡ rows

pub all_bindings-Splits :
    (run : String) (f : File) (d : Files) (rows : List Binding)
    → all_bindings ((run, f) ∷ d) ≡ some rows
    → Splits run f d rows
unfolding all_bindings
all_bindings-Splits run f d rows h =
    let (g, e, h) = bind-some (checked run f) _ rows h in
    let (rest, i, h) = bind-some (all_bindings d) _ rows h in
    let r = checked-IsRead run f g e in
    record {
      read = record { same = refl; named = r.named; own = r.own };
      rest = rest;
      others = i;
      joined = ap (λ (z : File). z.bindings ++ rest) (sym r.same) ∙ some-inj h;
    }

module _ (q : Binding → Bool) (run : String) where
  abbrev own_rows : List Binding → List Binding
  own_rows rows = keep (λ b. q b && is_of_run run b) rows

  own_rows-all :
      (rows : List Binding) → all_of (is_of_run run) rows ≡ true → own_rows rows ≡ keep q rows
  own_rows-all rows h = keep_agreeing _ q (is_of_run run) rows (λ x e. rw e (ground arith)) h

  own_rows-none :
      (other : String) (rows : List Binding)
      → (other == run) ≡ false
      → all_of (is_of_run other) rows ≡ true
      → own_rows rows ≡ []
  own_rows-none other rows n h =
      keep_agreeing _ (λ x. false) (is_of_run other) rows
        (λ x e. rw (is_of_run-other other run x n e) (ground arith)) h
      ∙ keep_nothing rows

  own_rows-absent :
      (d : Files) (rows : List Binding)
      → all_bindings d ≡ some rows
      → contains (keys d) run ≡ false
      → own_rows rows ≡ []
  unfolding all_bindings
  own_rows-absent [] rows h n = ap own_rows (sym (some-inj h))
  own_rows-absent ((x, f) ∷ d) rows h n =
      let s = all_bindings-Splits x f d rows h in
      ap own_rows (sym s.joined)
      ∙ keep-append _ f.bindings s.rest
      ∙ ap (λ z. z ++ own_rows s.rest) (own_rows-none x f.bindings (or-left _ _ n) s.read.own)
      ∙ own_rows-absent d s.rest s.others (or-right _ _ n)

  -- Of all rows, those of one run are the rows of its file.
  pub own_rows-file :
      (d : Files) (rows : List Binding)
      → IsDistinct (keys d)
      → all_bindings d ≡ some rows
      → own_rows rows ≡ keep q (rows_of d run)
  unfolding all_bindings
  own_rows-file [] rows u h = ap own_rows (sym (some-inj h))
  own_rows-file ((x, f) ∷ d) rows u h = elim (Bool-cases (x == run)) [
    | inl e ↦
        let s = all_bindings-Splits x f d rows h in
        let same = (eq_iff x run).0 e in
        ap own_rows (sym s.joined)
        ∙ keep-append _ f.bindings s.rest
        ∙ ap (λ z. z ++ own_rows s.rest)
            (own_rows-all f.bindings
              (subst (λ z. all_of (is_of_run z) f.bindings ≡ true) same s.read.own))
        ∙ ap (λ z. keep q f.bindings ++ z)
            (own_rows-absent d s.rest s.others (subst (λ z. contains (keys d) z ≡ false) same u.0))
        ∙ append-nil (keep q f.bindings)
        ∙ ap (keep q) (rows_of-here d x run f e)
    | inr e ↦
        let s = all_bindings-Splits x f d rows h in
        ap own_rows (sym s.joined)
        ∙ keep-append _ f.bindings s.rest
        ∙ ap (λ z. z ++ own_rows s.rest) (own_rows-none x f.bindings e s.read.own)
        ∙ own_rows-file d s.rest u.1 s.others
        ∙ ap (keep q) (rows_of-there d x run f e)
  ]

other_key : (run x : String) (b : Bool) → (x == run) ≡ false → b ≡ false → (run == x || b) ≡ false
other_key run x b n h = ground (arith, eq_iff run x, eq_iff x run)

-- Putting a file under a run keeps the names of the others apart.
pub IsDistinct-put :
    (d : Files) (run : String) (f : File) → IsDistinct (keys d) → IsDistinct (keys (put d run f))
IsDistinct-put [] run f u = (refl, tt)
IsDistinct-put ((x, g) ∷ d) run f u = elim (Bool-cases (x == run)) [
  | inl e ↦ rw e u
  | inr e ↦
      rw e ((contains-keys-put run f d x ∙ other_key run x _ e u.0), IsDistinct-put d run f u.1)
]
