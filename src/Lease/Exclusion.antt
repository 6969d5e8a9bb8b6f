-- ===== src/Lease/Exclusion.antt =====
-- Who holds a place, for the leases of vibe_guide/state.py.
use vibe_guide_automation.Common.{
  String, Bool, true, false, not, ◌&&◌, ◌||◌, Option, none, some, ◌≡◌, inl, inr, refl, sym, ap, ◌∙◌,
  subst, ◌==◌, arith, eq_iff, Bool-cases, absurd_eq, some-inj, if◌then◌else◌, is_some,
}
use vibe_guide_automation.Common.Dict.{get, put, get-put}
use vibe_guide_automation.Lease.{
  Lease, Store, Claim, PathKey, IdentityKey, path_key, payload, take, is_live, is_on, is_claimed,
  conflicts, is_held, other_has, acquire_writer_lease,
}
use vibe_guide_automation.Lease.Scan.{other_has-get}

-- Every live lease on the place is of the run.
abbrev pub Owns : Store → String → String → String → Type 0
Owns s node worktree run =
    (q : String) (l : Lease)
    → get s q ≡ some (some l)
    → is_on node worktree l ≡ true
    → is_live l ≡ true
    → l.run_id ≡ run

-- The live leases on one place are all of one run.
abbrev pub IsExclusive : Store → Type 0
IsExclusive s =
    (q q' : String) (l l' : Lease)
    → get s q ≡ some (some l)
    → get s q' ≡ some (some l')
    → l.node_id ≡ l'.node_id
    → l.worktree ≡ l'.worktree
    → is_live l ≡ true
    → is_live l' ≡ true
    → l.run_id ≡ l'.run_id

conflicts-false :
    (c : Claim) (l : Lease)
    → conflicts c l ≡ false
    → is_on c.node_id c.worktree l ≡ true
    → is_live l ≡ true
    → l.run_id ≡ c.run_id
conflicts-false c l h o v =
    (eq_iff l.run_id c.run_id).0
      (go (is_on c.node_id c.worktree l) (is_live l) (l.run_id == c.run_id) _ h o v)
  where
    go : (a b x y : Bool) → (a && (b && (not x || y))) ≡ false → a ≡ true → b ≡ true → x ≡ true
    go a b x y h o v = ground arith

is_claimed-run : (c : Claim) (l : Lease) → is_claimed c l ≡ true → l.run_id ≡ c.run_id
is_claimed-run c l h = (eq_iff l.run_id c.run_id).0 (ground arith)

pub put-here :
    (s : Store) (path q : String) (o : Option Lease)
    → (path == q) ≡ true
    → get (put s path o) q ≡ some o
put-here s path q o y = let g = get-put path o s q in ground arith

pub put-there :
    (s : Store) (path q : String) (o : Option Lease)
    → (path == q) ≡ false
    → get (put s path o) q ≡ get s q
put-there s path q o y = let g = get-put path o s q in ground arith

pub grant-chain :
    (a b : Bool) (s : Store) (t : Bool × Store)
    → (if a then (false, s) else if b then (false, s) else t).0 ≡ true
    → (a ≡ false) × (b ≡ false) × ((if a then (false, s) else if b then (false, s) else t) ≡ t)
grant-chain true b s t h = absurd_eq h
grant-chain false true s t h = absurd_eq h
grant-chain false false s t h = (refl, refl, refl)

refuse-chain :
    (a b : Bool) (s : Store) (t : Bool × Store)
    → (t.0 ≡ false → t.1 ≡ s)
    → (if a then (false, s) else if b then (false, s) else t).0 ≡ false
    → (if a then (false, s) else if b then (false, s) else t).1 ≡ s
refuse-chain true b s t f h = refl
refuse-chain false true s t f h = refl
refuse-chain false false s t f h = f h

module _ (name : PathKey → String) (identity : IdentityKey → String) where
  -- What a granted claim leaves: its lease is written to a new file, or stands there already.
  pub data Taken (c : Claim) (s : Store) : Store → Type 0 where
    written :
        get s (name (path_key c)) ≡ none
        → Taken c s (put s (name (path_key c)) (some (payload name identity c)))
    standing :
        (l : Lease)
        → get s (name (path_key c)) ≡ some (some l)
        → is_claimed c l ≡ true
        → Taken c s s

  take-Taken :
      (c : Claim) (s : Store) (o : Option (Option Lease))
      → get s (name (path_key c)) ≡ o
      → (take name identity c (name (path_key c)) s o).0 ≡ true
      → Taken c s (take name identity c (name (path_key c)) s o).1
  take-Taken c s none e h = written e
  take-Taken c s (some none) e h = absurd_eq h
  take-Taken c s (some (some l)) e h = standing l e h

  pub acquire_writer_lease-Taken :
      (c : Claim) (s : Store)
      → (acquire_writer_lease name identity c s).0 ≡ true
      → (other_has (conflicts c) (name (path_key c)) s ≡ false)
        × Taken c s (acquire_writer_lease name identity c s).1
  unfolding acquire_writer_lease
  acquire_writer_lease-Taken c s h =
      let path = name (path_key c) in
      let t = take name identity c path s (get s path) in
      let (a, b, e) =
        grant-chain (other_has (conflicts c) path s)
          (not (is_some c.intent_digest) && other_has (is_held c) path s) s t h in
      (
        a,
        subst (λ x. Taken c s x.1) (sym e)
            (take-Taken c s (get s path) refl (ap (λ x. x.0) (sym e) ∙ h)),
      )

  Taken-Owns :
      (c : Claim) (s s' : Store)
      → other_has (conflicts c) (name (path_key c)) s ≡ false
      → Taken c s s'
      → Owns s' c.node_id c.worktree c.run_id
  Taken-Owns c s _ n (written e) q l g o v = elim (Bool-cases (name (path_key c) == q)) [
    | inl y ↦
        ap (λ (z : Lease). z.run_id)
          (sym (some-inj (some-inj (sym (put-here s (name (path_key c)) q _ y) ∙ g))))
    | inr y ↦
        conflicts-false c l
          (other_has-get (conflicts c) (name (path_key c)) s q l n y
            (sym (put-there s (name (path_key c)) q _ y) ∙ g))
          o v
  ]
  Taken-Owns c s _ n (standing m e h) q l g o v = elim (Bool-cases (name (path_key c) == q)) [
    | inl y ↦
        subst (λ z. z.run_id ≡ c.run_id)
          (some-inj (some-inj (sym e ∙ ap (get s) ((eq_iff (name (path_key c)) q).0 y) ∙ g)))
          (is_claimed-run c m h)
    | inr y ↦ conflicts-false c l (other_has-get (conflicts c) (name (path_key c)) s q l n y g) o v
  ]

  -- A granted claim leaves its place to its run: every live lease on the node and worktree, under
  -- whatever intent, role or generation, is of that run.
  pub acquire_writer_lease-Owns :
      (c : Claim) (s : Store)
      → (acquire_writer_lease name identity c s).0 ≡ true
      → Owns (acquire_writer_lease name identity c s).1 c.node_id c.worktree c.run_id
  acquire_writer_lease-Owns c s h =
      let (n, t) = acquire_writer_lease-Taken c s h in Taken-Owns c s _ n t

  take-refused :
      (c : Claim) (s : Store) (path : String) (o : Option (Option Lease))
      → (take name identity c path s o).0 ≡ false
      → (take name identity c path s o).1 ≡ s
  take-refused c s path none h = absurd_eq (sym h)
  take-refused c s path (some none) h = refl
  take-refused c s path (some (some l)) h = refl

  -- A claim that is refused leaves the directory as it was.
  pub acquire_writer_lease-refused :
      (c : Claim) (s : Store)
      → (acquire_writer_lease name identity c s).0 ≡ false
      → (acquire_writer_lease name identity c s).1 ≡ s
  unfolding acquire_writer_lease
  acquire_writer_lease-refused c s =
      let path = name (path_key c) in
      refuse-chain (other_has (conflicts c) path s)
        (not (is_some c.intent_digest) && other_has (is_held c) path s) s
        (take name identity c path s (get s path)) (take-refused c s path (get s path))
