-- ===== src/Lease/Again.antt =====
-- Claiming twice and releasing, for the leases of vibe_guide/state.py.
use vibe_guide_automation.Common.{
  ℕ, String, Bool, true, false, not, ◌&&◌, ◌||◌, Option, none, some, [], ◌∷◌, ◌≡◌, refl, ap, ◌∙◌,
  ◌==◌, arith, eq_refl, if◌then◌else◌, is_some,
}
use vibe_guide_automation.Common.Dict.{get, put}
use vibe_guide_automation.Lease.{
  Lease, Store, Claim, PathKey, IdentityKey, path_key, payload, take, same_text, same_number, is_on,
  is_claimed, conflicts, is_held, other_has, acquire_writer_lease, release_writer_lease, held_files,
}
use vibe_guide_automation.Lease.Scan.{unlink_all-get, held_files-get}
use vibe_guide_automation.Lease.Exclusion.{
  Taken, written, standing, acquire_writer_lease-Taken, grant-chain, put-here,
}

-- Writing a file does not change what the scan of the others finds.
other_has-put :
    (p : Lease → Bool) (path : String) (o : Option Lease) (s : Store)
    → other_has p path (put s path o) ≡ other_has p path s
other_has-put p path none [] = refl
other_has-put p path (some l) [] = rw (eq_refl path) refl
other_has-put p path none ((x, none) ∷ s) = ground (arith, other_has-put p path none s)
other_has-put p path none ((x, some m) ∷ s) = ground (arith, other_has-put p path none s)
other_has-put p path (some l) ((x, none) ∷ s) = ground (arith, other_has-put p path (some l) s)
other_has-put p path (some l) ((x, some m) ∷ s) = ground (arith, other_has-put p path (some l) s)

pub same_text_refl : (o : Option String) → same_text o o ≡ true
same_text_refl none = refl
same_text_refl (some s) = eq_refl s

pub same_number_refl : (o : Option ℕ) → same_number o o ≡ true
same_number_refl none = refl
same_number_refl (some n) = ground arith

either : (a b : Bool) → ((not a || true) && (not b || true)) ≡ true
either a b = ground arith

pass-chain :
    (a b : Bool) (s : Store) (t : Bool × Store)
    → a ≡ false
    → b ≡ false
    → (if a then (false, s) else if b then (false, s) else t) ≡ t
pass-chain a b s t x y = ground arith

module _ (name : PathKey → String) (identity : IdentityKey → String) where
  payload-IsClaimed : (c : Claim) → is_claimed c (payload name identity c) ≡ true
  payload-IsClaimed c =
      rw
        (
          eq_refl c.run_id,
          eq_refl c.node_id,
          eq_refl c.worktree,
          same_text_refl c.intent_digest,
          same_text_refl c.role,
          same_number_refl c.generation,
        )
        (either (is_some c.role) (is_some c.generation))

  -- Neither scan stands in the way of the claim.
  record IsFree (c : Claim) (s : Store) : Type 0 where
    unopposed : other_has (conflicts c) (name (path_key c)) s ≡ false
    unseen : (not (is_some c.intent_digest) && other_has (is_held c) (name (path_key c)) s) ≡ false

  acquire_writer_lease-IsFree :
      (c : Claim) (s : Store) → (acquire_writer_lease name identity c s).0 ≡ true → IsFree c s
  unfolding acquire_writer_lease
  acquire_writer_lease-IsFree c s h =
      let path = name (path_key c) in
      let (a, b, e) =
        grant-chain (other_has (conflicts c) path s)
          (not (is_some c.intent_digest) && other_has (is_held c) path s) s
          (take name identity c path s (get s path)) h in
      record { unopposed = a; unseen = b }

  acquire_writer_lease-take :
      (c : Claim) (s : Store)
      → IsFree c s
      → acquire_writer_lease name identity c s
        ≡ take name identity c (name (path_key c)) s (get s (name (path_key c)))
  unfolding acquire_writer_lease
  acquire_writer_lease-take c s f =
      let path = name (path_key c) in
      pass-chain (other_has (conflicts c) path s)
        (not (is_some c.intent_digest) && other_has (is_held c) path s) s _ f.unopposed f.unseen

  Taken-again :
      (c : Claim) (s s' : Store)
      → IsFree c s
      → Taken name identity c s s'
      → acquire_writer_lease name identity c s' ≡ (true, s')
  Taken-again c s _ f (written e) =
      let path = name (path_key c) in
      let new = payload name identity c in
      let free : IsFree c (put s path (some new)) = record {
        unopposed = other_has-put (conflicts c) path (some new) s ∙ f.unopposed;
        unseen =
            ap (λ z. not (is_some c.intent_digest) && z)
              (other_has-put (is_held c) path (some new) s)
            ∙ f.unseen;
      } in
      acquire_writer_lease-take c (put s path (some new)) free
      ∙ ap (take name identity c path (put s path (some new)))
          (put-here s path path (some new) (eq_refl path))
      ∙ ap (λ z. (z, put s path (some new))) (payload-IsClaimed c)
  Taken-again c s _ f (standing l e x) =
      acquire_writer_lease-take c s f
      ∙ ap (take name identity c (name (path_key c)) s) e
      ∙ ap (λ z. (z, s)) x

  -- A claim that has been granted is granted again, and the second time nothing is written.
  pub acquire_writer_lease_again :
      (c : Claim) (s : Store)
      → (acquire_writer_lease name identity c s).0 ≡ true
      → acquire_writer_lease name identity c (acquire_writer_lease name identity c s).1
        ≡ (true, (acquire_writer_lease name identity c s).1)
  acquire_writer_lease_again c s h =
      Taken-again c s _ (acquire_writer_lease-IsFree c s h)
        (acquire_writer_lease-Taken name identity c s h).1

module _ (name : PathKey → String) where
  -- Where no lease is kept under the name without an intent, a release leaves no lease of the run on
  -- the node and worktree.
  pub release_writer_lease_clears :
      (node worktree run : String) (s : Store)
      → get s (name (PathKey.legacy node worktree)) ≡ none
      → (q : String) (l : Lease)
      → get (release_writer_lease name node worktree run s).1 q ≡ some (some l)
      → (is_on node worktree l && l.run_id == run) ≡ false
  unfolding release_writer_lease
  release_writer_lease_clears node worktree run s e q l =
      rw (e, release_writer_lease)
        λ g.
          let (h, n) = unlink_all-get (held_files node worktree run s) s q (some l) g in
          held_files-get node worktree run s q l h n
