-- ===== src/Lease/Scan.antt =====
-- What the scans of the lease directory in vibe_guide/state.py find.
use vibe_guide_automation.Common.{
  String, Bool, true, false, ◌&&◌, ◌||◌, Option, none, some, List, [], ◌∷◌, ◌≡◌, ◌↔◌, inl, inr,
  refl, sym, ap, ◌∙◌, subst, ◌==◌, contains, arith, eq_iff, Bool-cases, some-inj, if◌then◌else◌,
}
use vibe_guide_automation.Common.Dict.{get, pop, get-pop}
use mathlib.Core.Option
use vibe_guide_automation.Lease.{
  previous_files, is_elsewhere, same_lease, is_movable, Claim, Lease, Store, is_on, other_has,
  held_files, unlink_all,
}

pub is_on_iff :
    (node worktree : String) (l : Lease)
    → (is_on node worktree l ≡ true) ↔ ((l.node_id ≡ node) × (l.worktree ≡ worktree))
is_on_iff node worktree l = ground (arith, eq_iff l.node_id node, eq_iff l.worktree worktree)

get-first :
    (x q : String) (o : Option Lease) (s : Store) → (x == q) ≡ true → get ((x, o) ∷ s) q ≡ some o
get-first x q o s y = ground arith

get-later :
    (x q : String) (o : Option Lease) (s : Store) → (x == q) ≡ false → get ((x, o) ∷ s) q ≡ get s q
get-later x q o s y = ground arith

pub get-here :
    (x q : String) (m l : Lease) (s : Store)
    → (x == q) ≡ true
    → get ((x, some m) ∷ s) q ≡ some (some l)
    → m ≡ l
get-here x q m l s y e = some-inj (some-inj (sym (get-first x q (some m) s y) ∙ e))

pub get-there :
    (x q : String) (o : Option Lease) (s : Store) {a : Option (Option Lease)}
    → (x == q) ≡ false
    → get ((x, o) ∷ s) q ≡ a
    → get s q ≡ a
get-there x q o s y e = sym (get-later x q o s y) ∙ e

differ : (x q path : String) → (x == q) ≡ true → (path == q) ≡ false → (x == path) ≡ false
differ x q path y n = ground (arith, eq_iff x q, eq_iff x path, eq_iff path q)

module _ (p : Lease → Bool) (path x : String) (m : Lease) (s : Store) where
  other_has-here : (x == path) ≡ false → other_has p path ((x, some m) ∷ s) ≡ false → p m ≡ false
  other_has-here n h = ground arith

  other_has-there : other_has p path ((x, some m) ∷ s) ≡ false → other_has p path s ≡ false
  other_has-there h = ground arith

module _ (node worktree run x q : String) (m : Lease) (s : Store) where
  held_files-here :
      (x == q) ≡ true
      → contains (held_files node worktree run ((x, some m) ∷ s)) q ≡ false
      → (is_on node worktree m && m.run_id == run) ≡ false
  held_files-here y n = ground arith

  held_files-there :
      contains (held_files node worktree run ((x, some m) ∷ s)) q ≡ false
      → contains (held_files node worktree run s) q ≡ false
  held_files-there n = ground arith

-- A property that no other file has fails on what another name reads.
pub other_has-get :
    (p : Lease → Bool) (path : String) (s : Store) (q : String) (l : Lease)
    → other_has p path s ≡ false
    → (path == q) ≡ false
    → get s q ≡ some (some l)
    → p l ≡ false
other_has-get p path [] q l h n e = absurd (ground arith)
other_has-get p path ((x, none) ∷ s) q l h n e = ground (arith, other_has-get p path s q l)
other_has-get p path ((x, some m) ∷ s) q l h n e = elim (Bool-cases (x == q)) [
  | inl y ↦
      ap p (sym (get-here x q m l s y e)) ∙ other_has-here p path x m s (differ x q path y n) h
  | inr y ↦
      other_has-get p path s q l (other_has-there p path x m s h) n (get-there x q (some m) s y e)
]

scan-step :
    (a b : Bool) (x : String) (rest : Option (List String)) (files : List String)
    → (if a then rest else if b then Option.map (λ files. x ∷ files) rest else none) ≡ some files
    → ((a || b) ≡ true) × ((more : List String) × (rest ≡ some more))
scan-step true b x rest files h = (refl, (files, h))
scan-step false true x none files h = absurd (ground arith)
scan-step false true x (some more) files h = (refl, (more, refl))
scan-step false false x rest files h = absurd (ground arith)

-- What is left after unlinking was there before, and is none of the files.
pub unlink_all-get :
    (files : List String) (s : Store) (q : String) (o : Option Lease)
    → get (unlink_all files s) q ≡ some o
    → (get s q ≡ some o) × (contains files q ≡ false)
unlink_all-get [] s q o e = (e, refl)
unlink_all-get (x ∷ files) s q o e =
    let (h, n) = unlink_all-get files (pop s x) q o e in let g = get-pop x s q in ground arith

-- The files of the run on the place are all found.
pub held_files-get :
    (node worktree run : String) (s : Store) (q : String) (l : Lease)
    → get s q ≡ some (some l)
    → contains (held_files node worktree run s) q ≡ false
    → (is_on node worktree l && l.run_id == run) ≡ false
held_files-get node worktree run [] q l e n = absurd (ground arith)
held_files-get node worktree run ((x, none) ∷ s) q l e n =
    ground (arith, held_files-get node worktree run s q l)
held_files-get node worktree run ((x, some m) ∷ s) q l e n = elim (Bool-cases (x == q)) [
  | inl y ↦
      ap (λ z. is_on node worktree z && z.run_id == run) (sym (get-here x q m l s y e))
      ∙ held_files-here node worktree run x q m s y n
  | inr y ↦
      held_files-get node worktree run s q l (get-there x q (some m) s y e)
        (held_files-there node worktree run x q m s n)
]

-- What a scan that allows the move knows of every lease.
pub previous_files-get :
    (c : Claim) (previous : Option String) (status path : String) (new : Lease) (s : Store)
    (files : List String) (q : String) (l : Lease)
    → previous_files c previous status path new s ≡ some files
    → get s q ≡ some (some l)
    → ((is_elsewhere c l || q == path && same_lease l new) || is_movable c previous status l) ≡ true
previous_files-get c previous status path new [] files q l h e = absurd (ground arith)
previous_files-get c previous status path new ((x, none) ∷ s) files q l h e = absurd (ground arith)
previous_files-get c previous status path new ((x, some m) ∷ s) files q l h e =
    let (a, (more, b)) =
      scan-step (is_elsewhere c m || x == path && same_lease m new) (is_movable c previous status m)
        x (previous_files c previous status path new s) files h in
    elim (Bool-cases (x == q)) [
      | inl y ↦
          let same = get-here x q m l s y e in
          subst
            (λ z.
              ((is_elsewhere c z || q == path && same_lease z new)
                || is_movable c previous status z)
              ≡ true)
            same
            (subst
              (λ z.
                ((is_elsewhere c m || z == path && same_lease m new)
                  || is_movable c previous status m)
                ≡ true)
              ((eq_iff x q).0 y) a)
      | inr y ↦
          previous_files-get c previous status path new s more q l b (get-there x q (some m) s y e)
    ]
