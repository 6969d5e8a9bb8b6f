-- ===== src/Lease.antt =====
-- The writer leases of vibe_guide/state.py. The directory `.vibe/leases` is a dictionary from file
-- names to leases, `none` where a file cannot be read; each function holds the interprocess lock, so
-- it is one step. `archive_run_leases` and `unarchive_run`, which also change the directory, are left
-- out. `name` and `identity` stand for SHA-256 of the joined key, `redact` for
-- `redact_provider_text`. Run ids have passed `validate_run_id`.
pub mod Scan
pub mod Exclusion
pub mod Again
pub mod Read
pub mod Reach
pub mod Samples
use vibe_guide_automation.Common.{
  ℕ, String, Bool, true, false, not, ◌&&◌, ◌||◌, Option, none, some, List, [], ◌∷◌, nat_eq, ltb,
  ◌==◌, is_some, is_empty, length, if◌then◌else◌,
}
use mathlib.Core.Option
use vibe_guide_automation.Common.Dict.{Dict, get, put, pop}

pub record Lease : Type 0 where
  pub schema_version : ℕ
  pub node_id : String
  pub worktree : String
  pub run_id : String
  pub lease_id : String
  pub role : Option String
  pub generation : Option ℕ
  pub intent_digest : Option String
  pub status : String
  pub reason : Option String

abbrev pub Store : Type 0
Store = Dict (Option Lease)

-- The arguments that a lease is asked with.
pub record Claim : Type 0 where
  pub node_id : String
  pub worktree : String
  pub run_id : String
  pub intent_digest : Option String
  pub role : Option String
  pub generation : Option ℕ

-- The parts that are joined for a file name, and for a lease id.
pub data PathKey : Type 0 where
  legacy : String → String → PathKey
  bound : String → String → Option String → Option ℕ → String → PathKey

pub data IdentityKey : Type 0 where
  plain : String → String → String → IdentityKey
  full : String → String → String → Option String → Option ℕ → Option String → IdentityKey

-- `role if role`
abbrev pub non_empty_text : Option String → Option String
non_empty_text none = none
non_empty_text (some s) = if s == "" then none else some s

abbrev pub path_key : Claim → PathKey
path_key c = elim (non_empty_text c.intent_digest) [
  | none ↦ legacy c.node_id c.worktree
  | some intent ↦ bound c.node_id c.worktree (non_empty_text c.role) c.generation intent
]

abbrev pub identity_key : Claim → IdentityKey
identity_key c =
    if is_some c.role || is_some c.generation || is_some c.intent_digest
    then full c.node_id c.worktree c.run_id (non_empty_text c.role) c.generation
        (non_empty_text c.intent_digest)
    else plain c.node_id c.worktree c.run_id

abbrev pub same_text : Option String → Option String → Bool
same_text none none = true
same_text (some a) (some b) = a == b
same_text _ _ = false

abbrev pub same_number : Option ℕ → Option ℕ → Bool
same_number none none = true
same_number (some a) (some b) = nat_eq a b
same_number _ _ = false

-- status in {"active", "quarantined"}
abbrev pub is_live : Lease → Bool
is_live l = l.status == "active" || l.status == "quarantined"

abbrev pub is_on : String → String → Lease → Bool
is_on node worktree l = l.node_id == node && l.worktree == worktree

-- The lease stands in the way of the claim.
abbrev pub conflicts : Claim → Lease → Bool
conflicts c l =
    is_on c.node_id c.worktree l
    && (is_live l
        && (not (l.run_id == c.run_id)
            || is_some c.role
              && (is_some c.generation
                  && (same_text l.role c.role
                      && (same_number l.generation c.generation
                          && not (same_text l.intent_digest c.intent_digest))))))

-- A caller without an intent must see any lease that is held.
abbrev pub is_held : Claim → Lease → Bool
is_held c l = is_on c.node_id c.worktree l && is_live l

-- The lease is the claimed one.
abbrev pub is_claimed : Claim → Lease → Bool
is_claimed c l =
    nat_eq l.schema_version 1
    && (l.run_id == c.run_id
        && (l.node_id == c.node_id
            && (l.worktree == c.worktree
                && (same_text l.intent_digest c.intent_digest
                    && ((not (is_some c.role) || same_text l.role c.role)
                        && (not (is_some c.generation)
                            || same_number l.generation c.generation))))))

-- A readable file other than `path` holds a lease with the property.
abbrev pub other_has : (Lease → Bool) → String → Store → Bool
other_has p path [] = false
other_has p path ((q, none) ∷ s) = other_has p path s
other_has p path ((q, some l) ∷ s) = not (q == path) && p l || other_has p path s

module _ (name : PathKey → String) (identity : IdentityKey → String) where
  abbrev pub payload : Claim → Lease
  payload c = record {
    schema_version = 1;
    node_id = c.node_id;
    worktree = c.worktree;
    run_id = c.run_id;
    lease_id = identity (identity_key c);
    role = c.role;
    generation = c.generation;
    intent_digest = c.intent_digest;
    status = "active";
    reason = none;
  }

  -- if lease_path.exists(): ...
  abbrev pub take : Claim → String → Store → Option (Option Lease) → Bool × Store
  take c path s none = (true, put s path (some (payload c)))
  take c path s (some none) = (false, s)
  take c path s (some (some l)) = (is_claimed c l, s)

  unfoldable pub acquire_writer_lease : Claim → Store → Bool × Store
  acquire_writer_lease c s =
      let path = name (path_key c) in
      if other_has (conflicts c) path s
      then (false, s)
      else if not (is_some c.intent_digest) && other_has (is_held c) path s
      then (false, s)
      else take c path s (get s path)

-- The first readable lease of the run on the place.
abbrev pub first_of : String → String → String → Store → Option String
first_of node worktree run [] = none
first_of node worktree run ((q, none) ∷ s) = first_of node worktree run s
first_of node worktree run ((q, some l) ∷ s) =
    let rest = first_of node worktree run s in
    if is_on node worktree l && l.run_id == run then some q else rest

module _ (name : PathKey → String) (redact : String → String) where
  -- lease_path, or where it is missing the first file of the run
  abbrev pub quarantine_path : String → String → String → Store → String
  quarantine_path node worktree run s =
      let path = name (legacy node worktree) in
      elim (get s path) [
        | some _ ↦ path
        | none ↦ elim (first_of node worktree run s) [ some q ↦ q | none ↦ path ]
      ]

  abbrev pub mark : String → String → String → Store → Option (Option Lease) → Bool × Store
  mark path run reason s (some (some l)) =
      if l.run_id == run
      then (
        true,
        put s path (some (record l { status = "quarantined"; reason = some (redact reason) })),
      )
      else (false, s)
  mark path run reason s _ = (false, s)

  unfoldable pub quarantine_writer_lease : String → String → String → String → Store → Bool × Store
  quarantine_writer_lease node worktree run reason s =
      let path = quarantine_path node worktree run s in mark path run reason s (get s path)

-- The files that hold a lease of the run on the place.
abbrev pub held_files : String → String → String → Store → List String
held_files node worktree run [] = []
held_files node worktree run ((q, none) ∷ s) = held_files node worktree run s
held_files node worktree run ((q, some l) ∷ s) =
    let rest = held_files node worktree run s in
    if is_on node worktree l && l.run_id == run then q ∷ rest else rest

-- candidate.unlink() for each
abbrev pub unlink_all : List String → Store → Store
unlink_all [] s = s
unlink_all (q ∷ files) s = unlink_all files (pop s q)

abbrev pub release_all : String → String → String → Store → Bool × Store
release_all node worktree run s =
    let files = held_files node worktree run s in (not (is_empty files), unlink_all files s)

abbrev pub release_one : String → String → String → String → Store → Option Lease → Bool × Store
release_one path node worktree run s none = (false, s)
release_one path node worktree run s (some l) =
    if is_on node worktree l && l.run_id == run then (true, pop s path) else (false, s)

module _ (name : PathKey → String) where
  unfoldable pub release_writer_lease : String → String → String → Store → Bool × Store
  release_writer_lease node worktree run s =
      let path = name (legacy node worktree) in
      elim (get s path) [
        | none ↦ release_all node worktree run s
        | some o ↦ release_one path node worktree run s o
      ]

-- `probe == payload`
abbrev pub same_lease : Lease → Lease → Bool
same_lease a b =
    nat_eq a.schema_version b.schema_version
    && (a.node_id == b.node_id
        && (a.worktree == b.worktree
            && (a.run_id == b.run_id
                && (a.lease_id == b.lease_id
                    && (same_text a.role b.role
                        && (same_number a.generation b.generation
                            && (same_text a.intent_digest b.intent_digest
                                && (a.status == b.status && same_text a.reason b.reason))))))))

-- The lease that a rebinding moves: `previous` is the old intent, `status` the status it must have.
abbrev pub is_movable : Claim → Option String → String → Lease → Bool
is_movable c previous status l =
    is_on c.node_id c.worktree l
    && (l.run_id == c.run_id
        && (same_text l.role c.role
            && (same_number l.generation c.generation
                && ((same_text l.intent_digest previous
                      || not (is_some previous) && not (same_text l.intent_digest c.intent_digest))
                    && l.status == status))))

-- Held neither on the node nor in the worktree.
abbrev pub is_elsewhere : Claim → Lease → Bool
is_elsewhere c l = not (is_live l) || not (l.node_id == c.node_id) && not (l.worktree == c.worktree)

-- The files that the move takes away; `none` where the scan refuses.
abbrev pub previous_files :
    Claim → Option String → String → String → Lease → Store → Option (List String)
previous_files c previous status path new [] = some []
previous_files c previous status path new ((q, none) ∷ s) = none
previous_files c previous status path new ((q, some l) ∷ s) =
    let rest = previous_files c previous status path new s in
    if is_elsewhere c l || q == path && same_lease l new
    then rest
    else if is_movable c previous status l
    then Option.map (λ files. q ∷ files) rest
    else none

abbrev pub without : String → List String → List String
without path [] = []
without path (q ∷ files) = let rest = without path files in if q == path then rest else q ∷ rest

module _ (name : PathKey → String) (identity : IdentityKey → String) where
  abbrev pub move : String → Lease → Store → Option (List String) → Bool × Store
  move path new s none = (false, s)
  move path new s (some files) =
      if ltb 1 (length files) || is_empty files && not (is_some (get s path))
      then (false, s)
      else (true, unlink_all (without path files) (put s path (some new)))

  unfoldable pub rebind_writer_lease : Claim → Option String → String → Store → Bool × Store
  rebind_writer_lease c previous status s =
      let path = name (path_key c) in
      let new = payload name identity c in
      move path new s (previous_files c previous status path new s)
