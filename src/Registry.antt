-- ===== src/Registry.antt =====
-- vibe_guide/task_registry.py: the rows of the run registries and `save_task_binding`. A row is a
-- binding in its persistence form. The registry files are a dictionary from run ids, which the lock
-- hands to one call at a time; whether a run is complete is a function of its id.
pub mod Lineage
pub mod Rows
pub mod Save
pub mod Reach
pub mod Apart
pub mod Elsewhere
pub mod Load
pub mod Verify
pub mod Policy
pub mod Samples
use Prim.Native.Char.{code}
use vibe_guide_automation.Common.{
  ℕ, suc, String, Bool, true, false, not, ◌&&◌, ◌||◌, Option, none, some, List, [], ◌∷◌, ◌++◌, leb,
  ltb, nat_eq, all_of, any_of, is_empty, keep, ◌==◌, contains, is_some, or_else, if◌then◌else◌,
}
use vibe_guide_automation.Common.Dict.{Dict, get, put}
use vibe_guide_automation.Decisions.{◌>>=◌}

-- TaskBinding, less the binding gate's own evidence and the legacy fields.
pub record Binding : Type 0 where
  pub provider : String
  pub mode : String
  pub issue_id : String
  pub role : String
  pub task_id : Option String
  pub host : Option String
  pub worktree : String
  pub branch : String
  pub status_file : String
  pub handoff_file : String
  pub cursor : Option String
  pub run_id : Option String
  pub status : String
  pub limitations : List String
  pub topology : String
  pub continuation_digest : Option String
  pub generation : ℕ
  pub allowlist : List String
  pub route_digest : Option String
  pub model : Option String
  pub reasoning : Option String
  pub capability_contract_digest : Option String
  pub successor_of : Option String
  pub handoff_from_provider : Option String

-- The contents of one tasks.json.
pub record File : Type 0 where
  pub revision : ℕ
  pub bindings : List Binding

abbrev pub Files : Type 0
Files = Dict File

-- `==` on optional texts and on lists of texts.
abbrev pub same_text : Option String → Option String → Bool
same_text none none = true
same_text none (some b) = false
same_text (some a) none = false
same_text (some a) (some b) = a == b

abbrev pub same_texts : List String → List String → Bool
same_texts [] [] = true
same_texts [] (b ∷ ys) = false
same_texts (a ∷ xs) [] = false
same_texts (a ∷ xs) (b ∷ ys) = a == b && same_texts xs ys

abbrev is_word : ℕ → Bool
is_word c = leb 48 c && leb c 57 || leb 65 c && leb c 90 || leb 97 c && leb c 122

abbrev are_run_characters : String → Bool
are_run_characters String.[] = true
are_run_characters (String.◌∷◌ c s) =
    let k = code c in
    (is_word k || nat_eq k 95 || nat_eq k 46 || nat_eq k 45) && are_run_characters s

-- _RUN_ID.fullmatch(run_id)
abbrev pub is_run_id : String → Bool
is_run_id String.[] = false
is_run_id (String.◌∷◌ c s) = is_word (code c) && are_run_characters s

-- status in {"stopped", "failed", "archived"}
abbrev pub is_stopped : Binding → Bool
is_stopped b = contains ("stopped" ∷ "failed" ∷ "archived" ∷ []) b.status

-- status in _TERMINAL_STATUSES
abbrev pub is_terminal : Binding → Bool
is_terminal b = contains ("archived" ∷ "blocked_design" ∷ "failed" ∷ "stopped" ∷ []) b.status

-- composite_identity == composite_identity
abbrev pub same_identity : Binding → Binding → Bool
same_identity a b =
    a.provider == b.provider
    && a.mode == b.mode
    && a.issue_id == b.issue_id
    && a.role == b.role
    && same_text a.task_id b.task_id
    && same_text a.host b.host
    && a.worktree == b.worktree
    && a.branch == b.branch

abbrev pub has_role : String → String → Binding → Bool
has_role issue role b = b.issue_id == issue && b.role == role

abbrev pub is_of_run : String → Binding → Bool
is_of_run run b = same_text b.run_id (some run)

-- A file that is read for a run holds rows of that run only.
abbrev pub checked : String → File → Option File
checked run f = if is_run_id run && all_of (is_of_run run) f.bindings then some f else none

abbrev pub no_file : File
no_file = record { revision = 0; bindings = [] }

-- `_read_registry`
pub read_registry : Files → String → Option File
read_registry d run = checked run (or_else (get d run) no_file)

-- `_all_bindings`
pub all_bindings : Files → Option (List Binding)
all_bindings [] = some []
all_bindings ((run, f) ∷ d) =
    checked run f >>= λ f. all_bindings d >>= λ rest. some (f.bindings ++ rest)

-- What `save_task_binding` finds for the new row: `matched` is the first row of `same_role` with the
-- same identity, `same_role` the rows of its issue, role and run.
abbrev pub same_role_of : String → Binding → List Binding → List Binding
same_role_of run p existing = keep (λ b. has_role p.issue_id p.role b && is_of_run run b) existing

pub first_match : Binding → List Binding → Option Binding
first_match p [] = none
first_match p (b ∷ bs) = if same_identity b p then some b else first_match p bs

abbrev pub later : Binding → Binding → Binding
later a b = if leb a.generation b.generation then b else a

-- `sorted(same_role, key=lambda item: item.generation)[-1]`, from the first row on.
pub latest : Binding → List Binding → Binding
latest best [] = best
latest best (b ∷ bs) = latest (later best b) bs

abbrev pub is_handoff : Binding → Binding → Bool
is_handoff last p =
    is_some p.handoff_from_provider && same_text p.handoff_from_provider (some last.provider)

-- `all(getattr(latest, key) == getattr(persistent, key) for key in pinned)`
abbrev pub is_pinned : Binding → Binding → Bool
is_pinned last p =
    if is_handoff last p
    then last.worktree == p.worktree && last.branch == p.branch
    else last.provider == p.provider
      && last.mode == p.mode
      && same_text last.host p.host
      && last.worktree == p.worktree
      && last.branch == p.branch
      && last.topology == p.topology
      && same_texts last.allowlist p.allowlist
      && same_text last.capability_contract_digest p.capability_contract_digest

-- `successor`
pub is_successor : List Binding → Binding → Binding → Bool
is_successor same p last =
    same_text p.successor_of last.task_id
    && not (same_text p.task_id last.task_id)
    && not (any_of (λ b. same_text b.task_id p.task_id) same)
    && ltb last.generation p.generation
    && all_of is_stopped same
    && is_pinned last p
    && (not (is_handoff last p) || all_of (contains p.allowlist) last.allowlist)

-- The checks of a row that replaces `m`.
pub may_replace : List Binding → Binding → Binding → Bool
may_replace same p m =
    same_text m.successor_of p.successor_of
    && same_text m.handoff_from_provider p.handoff_from_provider
    && leb m.generation p.generation
    && (not (any_of (λ b. same_text b.successor_of m.task_id) same)
        || nat_eq p.generation m.generation)
    && (is_stopped p
        || not (
            any_of
              (λ b.
                not (same_text b.task_id p.task_id)
                && (ltb p.generation b.generation || same_text b.successor_of p.task_id))
              same))

-- The checks on `same_role`: of a first row, a successor and a replaced row.
abbrev pub fits_none : List Binding → Binding → Bool
fits_none [] p = true
fits_none (b ∷ bs) p = is_successor (b ∷ bs) p (latest b bs)

abbrev pub fits : List Binding → Binding → Option Binding → Bool
fits same p none = fits_none same p
fits same p (some m) = may_replace same p m

-- `_behind_platform_handoff`
abbrev pub behind_platform_handoff : Binding → Binding → List Binding → Bool
behind_platform_handoff current p same =
    same_text current.run_id p.run_id
    && is_stopped current
    && ltb current.generation p.generation
    && any_of
        (λ b.
          is_some b.handoff_from_provider
          && ltb current.generation b.generation
          && leb b.generation p.generation)
        (same ++ p ∷ [])

-- `_run_is_complete`, from what the state file of a run says.
abbrev pub is_complete : (String → Bool) → Option String → Bool
is_complete complete none = false
is_complete complete (some run) = not (run == "") && complete run

-- A row of the same run, or one that is live in a run that is not complete.
abbrev pub counts_against : (String → Bool) → Binding → Binding → Bool
counts_against complete p current =
    same_text current.run_id p.run_id
    || not (is_terminal current) && not (is_complete complete current.run_id)

-- A row may share its role with another of the same run where one of the two is history.
abbrev pub is_history : Option Binding → List Binding → Binding → Binding → Bool
is_history matched same p current =
    same_text current.run_id p.run_id
    && (is_some matched || not (is_empty same))
    && (is_stopped current
        || is_some matched
          && is_stopped p
          && (ltb p.generation current.generation || same_text current.successor_of p.task_id))

-- `bool(task_id)` with the equality of the two.
abbrev pub shares_task : Binding → Binding → Bool
shares_task current p =
    not (same_text current.task_id none)
    && not (same_text current.task_id (some ""))
    && same_text current.task_id p.task_id

-- The body of the loop over `existing`: whether it raises on `current`.
pub obstructs : (String → Bool) → Option Binding → List Binding → Binding → Binding → Bool
obstructs complete matched same p current =
    current.issue_id == p.issue_id
    && ((current.topology == "visible-sdd" || p.topology == "visible-sdd")
          && (p.role == "reviewer" || current.role == "reviewer")
        || (if current.role == p.role
            then not (current.topology == p.topology)
                && not (behind_platform_handoff current p same)
                && counts_against complete p current
              || not (same_identity current p)
                && not (is_history matched same p current)
                && counts_against complete p current
            else shares_task current p))

abbrev pub is_expected : Option (Binding → Bool) → Option Binding → Bool
is_expected none matched = true
is_expected (some expects) none = false
is_expected (some expects) (some m) = expects m

-- All checks of `save_task_binding`. `expects` is what `expected_binding` asks of the row it was
-- read from.
pub admits :
    (String → Bool) → Option (Binding → Bool) → List Binding → List Binding → Binding → Bool
unfolding first_match
admits complete expects existing same p =
    let matched = first_match p same in
    is_expected expects matched
    && fits same p matched
    && not (any_of (obstructs complete matched same p) existing)

-- The loop over `destination_values`.
pub replace_or_append : Binding → List Binding → List Binding
replace_or_append p [] = p ∷ []
replace_or_append p (b ∷ bs) =
    let rest = replace_or_append p bs in if same_identity b p then p ∷ bs else b ∷ rest

abbrev pub next_file : Binding → File → File
next_file p f = record { revision = suc f.revision; bindings = replace_or_append p f.bindings }

abbrev pub written : Binding → Files → String → File → Files
written p d run f = put d run (next_file p f)

-- `none` where the program raises ValueError, here and below.
pub may_write : (String → Bool) → Option (Binding → Bool) → List Binding → String → Binding → Bool
unfolding admits
may_write complete expects existing run p =
    not (p.worktree == "")
    && not (p.branch == "")
    && is_run_id run
    && admits complete expects existing (same_role_of run p existing) p

unfoldable pub save_task_binding :
    (String → Bool) → Option (Binding → Bool) → Binding → Files → Option Files
unfolding read_registry all_bindings may_write replace_or_append
save_task_binding complete expects p d = do
  run ← p.run_id
  existing ← all_bindings d
  f ← read_registry d run
  if may_write complete expects existing run p then some (written p d run f) else none
