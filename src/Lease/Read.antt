-- ===== src/Lease/Read.antt =====
-- `read_writer_lease` of vibe_guide/state.py, and the checks that its observation makes in
-- vibe_guide/models.py. The run of the claim that is read with plays no part.
use Prim.Native.Char.{code}
use vibe_guide_automation.Common.{
  ℕ, String, Bool, true, false, not, ◌&&◌, ◌||◌, Option, none, some, [], ◌∷◌, ◌≡◌, refl, sym, ap,
  ◌∙◌, ◌⊎◌, absurd_eq, and-both, eq_iff, inl, inr, nat_eq, nat_eq_iff, ◌==◌, arith, eq_refl,
  Bool-cases, some-inj, is_some, if◌then◌else◌,
}
use vibe_guide_automation.Common.Dict.{get}
use vibe_guide_automation.Json.{has_text}
use vibe_guide_automation.Lease.{
  Lease, Store, Claim, PathKey, IdentityKey, plain, path_key, identity_key, payload, is_on,
  same_text, same_number, acquire_writer_lease,
}
use vibe_guide_automation.Lease.Again.{same_text_refl, same_number_refl}
use vibe_guide_automation.Lease.Exclusion.{
  Taken, written, standing, acquire_writer_lease-Taken, put-here,
}

pub record Observation : Type 0 where
  pub schema_version : ℕ
  pub node_id : String
  pub worktree : String
  pub run_id : String
  pub lease_id : String

-- "\x00" not in value
abbrev has_no_nul : String → Bool
has_no_nul String.[] = true
has_no_nul (String.◌∷◌ c s) = not (nat_eq (code c) 0) && has_no_nul s

-- _binding_text
abbrev pub is_binding_text : String → Bool
is_binding_text s = has_text s && has_no_nul s

-- The first readable active lease on the place.
abbrev pub first_active : String → String → Store → Option Lease
first_active node worktree [] = none
first_active node worktree ((q, none) ∷ s) = first_active node worktree s
first_active node worktree ((q, some l) ∷ s) =
    let rest = first_active node worktree s in
    if is_on node worktree l && l.status == "active" then some l else rest

abbrev pub is_legacy : Claim → Bool
is_legacy c = not (is_some c.intent_digest || is_some c.role || is_some c.generation)

-- The lease that is read: the file's, or for a claim without an intent the first active one.
abbrev pub found : Claim → Store → Option (Option Lease) → Option Lease
found c s (some (some l)) = some l
found c s _ = if is_legacy c then first_active c.node_id c.worktree s else none

all_three :
    (a b c : Bool) → ((not a || true) && ((not b || true) && ((not c || true) && true))) ≡ true
all_three a b c = ground arith

apart : {A : Type 0} {o : Option A} {a : A} → o ≡ none → o ≡ some a → ⊥
apart x y = cc

passed : {A : Type 0} (b : Bool) (x o : A) → (if b then some x else none) ≡ some o → o ≡ x
passed true x o h = sym (some-inj h)
passed false x o h = absurd (apart refl h)

-- A part that is not asked for, or is asked for and the same.
abbrev pub Asked : {A : Type 0} → Option A → Option A → Type 0
Asked asked held = (asked ≡ none) ⊎ (held ≡ asked)

asked_text : (a b : Option String) → (not (is_some a) || same_text b a) ≡ true → Asked a b
asked_text none b h = inl refl
asked_text (some a) none h = absurd_eq h
asked_text (some a) (some b) h = inr (ap some ((eq_iff b a).0 h))

asked_number : (a b : Option ℕ) → (not (is_some a) || same_number b a) ≡ true → Asked a b
asked_number none b h = inl refl
asked_number (some a) none h = absurd_eq h
asked_number (some a) (some b) h = inr (ap some ((nat_eq_iff b a).0 h))

module _ (name : PathKey → String) (identity : IdentityKey → String) where
  -- observed["active"]
  abbrev pub is_active : Claim → Lease → Bool
  is_active c l =
      nat_eq l.schema_version 1
      && (l.node_id == c.node_id
          && (l.worktree == c.worktree
              && ((not (is_some c.intent_digest) || same_text l.intent_digest c.intent_digest)
                  && ((not (is_some c.role) || same_text l.role c.role)
                      && ((not (is_some c.generation) || same_number l.generation c.generation)
                          && (l.lease_id
                                == identity (
                                    identity_key (record {
                                      node_id = c.node_id;
                                      worktree = c.worktree;
                                      run_id = l.run_id;
                                      intent_digest = l.intent_digest;
                                      role = l.role;
                                      generation = l.generation;
                                    }))
                              && l.status == "active"))))))

  abbrev pub observation : Lease → Observation
  observation l = record {
    schema_version = l.schema_version;
    node_id = l.node_id;
    worktree = l.worktree;
    run_id = l.run_id;
    lease_id = identity (plain l.node_id l.worktree l.run_id);
  }

  -- SupervisorLeaseObservation._from_read
  abbrev pub from_read : Observation → Option Observation
  from_read o =
      if is_binding_text o.node_id
        && (is_binding_text o.worktree && (is_binding_text o.run_id && is_binding_text o.lease_id))
      then some o
      else none

  abbrev pub observe : Claim → Option Lease → Option Observation
  observe c none = none
  observe c (some l) = if is_active c l then from_read (observation l) else none

  unfoldable pub read_writer_lease : Claim → Store → Option Observation
  read_writer_lease c s = observe c (found c s (get s (name (path_key c))))

  payload-IsActive : (c : Claim) → is_active c (payload name identity c) ≡ true
  payload-IsActive c =
      rw
        (
          eq_refl c.node_id,
          eq_refl c.worktree,
          same_text_refl c.intent_digest,
          same_text_refl c.role,
          same_number_refl c.generation,
          eq_refl (identity (identity_key c)),
        )
        (all_three (is_some c.intent_digest) (is_some c.role) (is_some c.generation))

  Taken-get :
      (c : Claim) (s s' : Store)
      → get s (name (path_key c)) ≡ none
      → Taken name identity c s s'
      → get s' (name (path_key c)) ≡ some (some (payload name identity c))
  Taken-get c s _ n (written e) =
      put-here s (name (path_key c)) (name (path_key c)) _ (eq_refl (name (path_key c)))
  Taken-get c s _ n (standing l e x) = absurd (apart n e)

  -- A claim that is newly written is read back as an active lease of its run, where its texts are such
  -- as an observation takes.
  pub read_writer_lease-acquire :
      (c : Claim) (s : Store)
      → get s (name (path_key c)) ≡ none
      → (acquire_writer_lease name identity c s).0 ≡ true
      → read_writer_lease c (acquire_writer_lease name identity c s).1
        ≡ from_read (observation (payload name identity c))
  unfolding read_writer_lease
  read_writer_lease-acquire c s n h =
      let s' = (acquire_writer_lease name identity c s).1 in
      let g = Taken-get c s s' n (acquire_writer_lease-Taken name identity c s h).1 in
      ap (λ z. observe c (found c s' z)) g
      ∙ ap (λ b. if b then from_read (observation (payload name identity c)) else none)
          (payload-IsActive c)

  from_read-some : (x o : Observation) → from_read x ≡ some o → o ≡ x
  from_read-some x o =
      passed
        (is_binding_text x.node_id
          && (is_binding_text x.worktree
              && (is_binding_text x.run_id && is_binding_text x.lease_id)))
        x o

  observe-some :
      (c : Claim) (l : Lease) (o : Observation)
      → observe c (some l) ≡ some o
      → (is_active c l ≡ true) × (o ≡ observation l)
  observe-some c l o = elim (Bool-cases (is_active c l)) [
    | inl y ↦ rw y (λ h. (refl, from_read-some (observation l) o h))
    | inr y ↦ rw y (λ h. absurd (apart refl h))
  ]

  -- The lease is active, of the claim's place, and of its intent, role and generation as far as they
  -- are asked for; its id is made of its own parts.
  pub record IsHeldFor (c : Claim) (l : Lease) : Type 0 where
    pub status : l.status ≡ "active"
    pub version : l.schema_version ≡ 1
    pub node : l.node_id ≡ c.node_id
    pub worktree : l.worktree ≡ c.worktree
    pub intent : Asked c.intent_digest l.intent_digest
    pub role : Asked c.role l.role
    pub generation : Asked c.generation l.generation
    pub identified :
        l.lease_id
        ≡ identity (
            identity_key (record {
              node_id = l.node_id;
              worktree = l.worktree;
              run_id = l.run_id;
              intent_digest = l.intent_digest;
              role = l.role;
              generation = l.generation;
            }))

  is_active-IsHeldFor : (c : Claim) (l : Lease) → is_active c l ≡ true → IsHeldFor c l
  is_active-IsHeldFor c l h =
      let (version, h) = and-both _ _ h in
      let (node, h) = and-both _ _ h in
      let (worktree, h) = and-both _ _ h in
      let (intent, h) = and-both _ _ h in
      let (role, h) = and-both _ _ h in
      let (generation, h) = and-both _ _ h in
      let (identified, status) = and-both _ _ h in
      let node = (eq_iff l.node_id c.node_id).0 node in
      let worktree = (eq_iff l.worktree c.worktree).0 worktree in
      record {
        status = (eq_iff l.status "active").0 status;
        version = (nat_eq_iff l.schema_version 1).0 version;
        node = node;
        worktree = worktree;
        intent = asked_text c.intent_digest l.intent_digest intent;
        role = asked_text c.role l.role role;
        generation = asked_number c.generation l.generation generation;
        identified = (eq_iff l.lease_id _).0 identified ∙ rw (node, worktree) refl;
      }

  -- The observation carries the lease's own parts, and the id made of its three texts.
  pub record IsSeen (l : Lease) (o : Observation) : Type 0 where
    pub version : o.schema_version ≡ l.schema_version
    pub node : o.node_id ≡ l.node_id
    pub worktree : o.worktree ≡ l.worktree
    pub run : o.run_id ≡ l.run_id
    pub lease_id : o.lease_id ≡ identity (plain l.node_id l.worktree l.run_id)

  -- Where the claim's own file is readable and something is observed, the file's lease is active and of
  -- the claim's place, of its intent, role and generation as far as they are asked for, and carries the
  -- id made of its own parts; the observation has its version, node, worktree and run, and the id made
  -- of these without the optional parts.
  pub read_writer_lease-IsHeldFor :
      (c : Claim) (s : Store) (l : Lease) (o : Observation)
      → get s (name (path_key c)) ≡ some (some l)
      → read_writer_lease c s ≡ some o
      → IsHeldFor c l × IsSeen l o
  unfolding read_writer_lease
  read_writer_lease-IsHeldFor c s l o e h =
      let (active, seen) = observe-some c l o (sym (ap (λ z. observe c (found c s z)) e) ∙ h) in
      (
        is_active-IsHeldFor c l active,
        record {
          version = ap (λ (z : Observation). z.schema_version) seen;
          node = ap (λ (z : Observation). z.node_id) seen;
          worktree = ap (λ (z : Observation). z.worktree) seen;
          run = ap (λ (z : Observation). z.run_id) seen;
          lease_id = ap (λ (z : Observation). z.lease_id) seen;
        },
      )
