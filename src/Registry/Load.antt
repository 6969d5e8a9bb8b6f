-- ===== src/Registry/Load.antt =====
-- The readers of vibe_guide/task_registry.py: `load_task_binding` and `load_historical_task_binding`.
-- The files are read in the order of the dictionary, which stands for the order of the run directories'
-- names in the source.
pub mod Ancestry
pub mod Ends
pub mod Again
use vibe_guide_automation.Common.{
  ℕ, zero, suc, String, Bool, true, false, not, ◌&&◌, ◌||◌, Option, none, some, List, [], ◌∷◌, keep,
  ◌==◌, contains, length, is_some, nat_eq, or_else,
}
use vibe_guide_automation.Common.Dict.{Dict, get, put, keys}
use vibe_guide_automation.Decisions.{◌>>=◌}
use vibe_guide_automation.Registry.{
  Binding, Files, File, same_text, has_role, is_terminal, latest, read_registry, all_bindings,
}

-- The dictionary `by_id`, whose later entries overwrite the earlier ones.
abbrev pub add_id : Option String → Binding → Dict Binding → Dict Binding
add_id none b d = d
add_id (some id) b d = elim (id == "") [ true ↦ d | false ↦ put d id b ]

pub by_id : Dict Binding → List Binding → Dict Binding
by_id d [] = d
by_id d (b ∷ bs) = by_id (add_id b.task_id b d) bs

-- One turn, at a predecessor's id.
abbrev pub turn :
    (List String → Binding → Option Bool)
    → Dict Binding
    → List String
    → Binding
    → Option String
    → Option Bool
turn call d seen cursor none = some false
turn call d seen cursor (some id) = elim (id == "") [
  | true ↦ some false
  | false ↦ elim (contains seen id || same_text (some id) cursor.task_id) [
    | true ↦ some true
    | false ↦ elim (get d id) [ none ↦ some false | some next ↦ call (id ∷ seen) next ]
  ]
]

-- `while cursor.successor_of`: whether the ancestry returns to itself, `none` on running out of
-- fuel.
pub walk : Dict Binding → ℕ → List String → Binding → Option Bool
walk d zero seen cursor = none
walk d (suc n) seen cursor = turn (walk d n) d seen cursor cursor.successor_of

-- `for item in matches`
pub any_recursive : Dict Binding → ℕ → List Binding → Option Bool
unfolding walk
any_recursive d n [] = some false
any_recursive d n (b ∷ bs) = elim (walk d n [] b) [
  | none ↦ none
  | some true ↦ some true
  | some false ↦ any_recursive d n bs
]

-- What a load comes to: a row, or one of the two errors it raises of the ancestry and of a missing
-- row, or that of an unreadable registry or role.
pub data Loaded : Type 0 where
  current : Binding → Loaded
  recursive : Loaded
  missing : Loaded
  unreadable : Loaded
  unfinished : Loaded

abbrev pub outcome : Binding → Option Bool → Loaded
outcome b none = unfinished
outcome b (some true) = recursive
outcome b (some false) = current b

pub load_from : List Binding → Loaded
unfolding by_id any_recursive latest
load_from [] = missing
load_from (b ∷ bs) =
    let d = by_id [] (b ∷ bs) in
    outcome (latest b bs) (any_recursive d (suc (length (keys d))) (b ∷ bs))

-- The rows to look among: those of one run or of all.
abbrev pub candidates : Files → Option String → Option (List Binding)
candidates d none = all_bindings d
candidates d (some run) = read_registry d run >>= λ (f : File). some f.bindings

abbrev pub load_among : String → String → Option (List Binding) → Loaded
load_among issue role none = unreadable
load_among issue role (some rows) = load_from (keep (has_role issue role) rows)

unfoldable pub load_task_binding : Files → String → String → Option String → Loaded
unfolding load_from read_registry all_bindings
load_task_binding d issue role run = elim (contains ("developer" ∷ "reviewer" ∷ []) role) [
  | false ↦ unreadable
  | true ↦ load_among issue role (candidates d run)
]

abbrev pub only : List Binding → Option Binding
only [] = none
only (b ∷ []) = some b
only (b ∷ c ∷ bs) = none

unfoldable pub load_historical_task_binding :
    Files → String → String → String → Option String → Option Binding
unfolding read_registry
load_historical_task_binding d run issue role task = do
  f ← read_registry d run
  only (keep (λ b. has_role issue role b && same_text b.task_id task) f.bindings)
