-- ===== src/Registry/Verify.antt =====
-- The gates on a binding: `validate_binding` of vibe_guide/task_registry.py compares what the
-- supervisor intends with what it observes, `verify_binding` of vibe_guide/binding_lifecycle.py a
-- policy with what the provider shows. The lease id that belongs to a lease is a parameter.
pub mod Facts
pub mod Means
pub mod Agree
pub mod Samples
use vibe_guide_automation.Common.{
  ℕ, String, Bool, true, false, not, ◌&&◌, ◌||◌, Option, none, some, List, [], ◌∷◌, ◌++◌, ◌==◌,
  nat_eq, contains, is_empty, is_some, if◌then◌else◌,
}
use vibe_guide_automation.Registry.{same_text}

-- SupervisorLeaseObservation
pub record SupervisorLease : Type 0 where
  pub active : Bool
  pub schema_version : ℕ
  pub node_id : String
  pub worktree : String
  pub run_id : String
  pub lease_id : String
  pub status : String

-- BindingIntent. `lease` is the comparison with a lease's dictionary that it asks for.
pub record BindingIntent : Type 0 where
  pub project_id : String
  pub task_id : String
  pub host_id : String
  pub worktree : String
  pub managed_root : String
  pub branch : String
  pub base_sha : String
  pub node_id : Option String
  pub lease_id : Option String
  pub cursor : Option String
  pub head_sha : Option String
  pub clean : Option Bool
  pub lease : Option (SupervisorLease → Bool)

-- WaitThreadsCursorObservation
pub record CursorObservation : Type 0 where
  pub task_id : String
  pub host_id : String
  pub cursor : String
  pub lineage : String

-- BindingObservation. A `lease` that is no evidence of the reader is none.
pub record BindingObservation : Type 0 where
  pub project_id : String
  pub task_id : String
  pub host_id : String
  pub worktree : String
  pub managed_root : String
  pub branch : String
  pub base_sha : String
  pub head_sha : String
  pub clean : Bool
  pub lease : Option SupervisorLease
  pub cursor : Option String
  pub source : String
  pub node_id : Option String
  pub cursor_source : Option String
  pub cursor_task_id : Option String
  pub cursor_host_id : Option String
  pub cursor_lineage : Option String
  pub cursor_observation : Option CursorObservation

-- BindingVerification
pub record BindingVerification : Type 0 where
  pub binding_state : String
  pub verified : Bool
  pub missing : List String
  pub conflicts : List String

-- `value in (None, "")`
abbrev pub is_blank : Option String → Bool
is_blank none = true
is_blank (some s) = s == ""

abbrev pub if_only : Bool → String → List String
if_only true name = name ∷ []
if_only false name = []

-- What is missing and what conflicts.
abbrev pub Lists : Type 0
Lists = List String × List String

infixr 30 ◌⊕◌
abbrev pub ◌⊕◌ : Lists → Lists → Lists
(m, c) ⊕ (n, e) = (m ++ n, c ++ e)

abbrev pub missing_if : Bool → String → Lists
missing_if b name = (if_only b name, [])

abbrev pub conflict_if : Bool → String → Lists
conflict_if b name = ([], if_only b name)

-- The loop over the fields that the intent has to state.
abbrev pub unstated : BindingIntent → Lists
unstated i =
    missing_if (is_blank i.node_id) "node_id"
    ⊕ missing_if (is_blank i.lease_id) "lease_id"
    ⊕ missing_if (is_blank i.head_sha) "head_sha"
    ⊕ missing_if (not (is_some i.clean)) "clean"
    ⊕ missing_if (is_blank i.cursor) "cursor"

-- One turn of the loop over the compared fields.
abbrev pub compared : String → Option String → Option String → Lists
compared name observed expected =
    if is_blank observed
    then missing_if true name
    else conflict_if (not (same_text observed expected)) name

abbrev pub fields : BindingIntent → BindingObservation → Lists
fields i o =
    compared "project_id" (some o.project_id) (some i.project_id)
    ⊕ compared "task_id" (some o.task_id) (some i.task_id)
    ⊕ compared "node_id" o.node_id i.node_id
    ⊕ compared "host_id" (some o.host_id) (some i.host_id)
    ⊕ compared "worktree" (some o.worktree) (some i.worktree)
    ⊕ compared "managed_root" (some o.managed_root) (some i.managed_root)
    ⊕ compared "branch" (some o.branch) (some i.branch)
    ⊕ compared "base_sha" (some o.base_sha) (some i.base_sha)

-- `expected is not None and observed != expected`
abbrev pub unlike : String → Option String → Bool
unlike observed none = false
unlike observed (some expected) = not (observed == expected)

abbrev pub is_unclean : Bool → Option Bool → Bool
is_unclean false expected = true
is_unclean true none = false
is_unclean true (some expected) = not expected

abbrev pub head : BindingIntent → BindingObservation → Lists
head i o =
    (if o.head_sha == ""
      then missing_if true "head_sha"
      else conflict_if (unlike o.head_sha i.head_sha) "head_sha")
    ⊕ conflict_if (is_unclean o.clean i.clean) "clean"

abbrev pub unequal_lease : Option (SupervisorLease → Bool) → SupervisorLease → Bool
unequal_lease none l = false
unequal_lease (some test) l = not (test l)

-- list(dict.fromkeys(xs))
unfoldable pub without_repeats : List String → List String → List String
without_repeats seen [] = []
without_repeats seen (x ∷ xs) = elim (contains seen x) [
  | true ↦ without_repeats seen xs
  | false ↦ x ∷ without_repeats (x ∷ seen) xs
]

abbrev pub verdict : Lists → BindingVerification
verdict (m, c) =
    let verified = is_empty m && is_empty c in
    record {
      binding_state = if verified then "binding_verified" else "blocked_unknown";
      verified = verified;
      missing = m;
      conflicts = c;
    }

-- The wait_threads observation is the one that the cursor is from.
abbrev pub is_sourced : BindingObservation → CursorObservation → Bool
is_sourced o c =
    same_text o.cursor_source (some "codex_app__wait_threads")
    && same_text o.cursor_task_id (some o.task_id)
    && same_text o.cursor_host_id (some o.host_id)
    && same_text o.cursor_lineage (some c.lineage)
    && c.task_id == o.task_id
    && c.host_id == o.host_id
    && same_text (some c.cursor) o.cursor

abbrev pub cursor_conflicts : BindingIntent → BindingObservation → Option CursorObservation → Bool
cursor_conflicts i o none = true
cursor_conflicts i o (some c) = not (is_sourced o c) || not (same_text o.cursor i.cursor)

abbrev pub cursor_lists : BindingIntent → BindingObservation → Lists
cursor_lists i o =
    if is_blank o.cursor
    then missing_if true "cursor"
    else conflict_if
        (not (o.source == "codex_app__wait_threads") || cursor_conflicts i o o.cursor_observation)
        "cursor"

module _ (supervisor_lease_id : String → String → String → String) where
  -- The lease is an active one of the intended node and worktree, with the id that belongs to it.
  abbrev pub is_intended : BindingIntent → SupervisorLease → Bool
  is_intended i l =
      l.active
      && l.status == "active"
      && nat_eq l.schema_version 1
      && same_text (some l.node_id) i.node_id
      && l.worktree == i.worktree
      && l.lease_id == supervisor_lease_id l.node_id l.worktree l.run_id

  abbrev pub lease_lists : BindingIntent → Option SupervisorLease → Lists
  lease_lists i none = missing_if true "lease"
  lease_lists i (some l) =
      conflict_if (not (is_intended i l)) "lease"
      ⊕ conflict_if (unlike l.lease_id i.lease_id) "lease"
      ⊕ conflict_if (unequal_lease i.lease l) "lease"

  unfoldable pub validate_binding : BindingIntent → BindingObservation → BindingVerification
  unfolding without_repeats
  validate_binding i o =
      let (m, c) = unstated i ⊕ fields i o ⊕ head i o ⊕ lease_lists i o.lease ⊕ cursor_lists i o in
      verdict (without_repeats [] m, without_repeats [] c)
