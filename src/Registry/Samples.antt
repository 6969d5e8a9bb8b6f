-- ===== src/Registry/Samples.antt =====
-- A developer task, its successor and a reviewer in two runs, and the theorems about the registries of
-- vibe_guide/task_registry.py there.
use vibe_guide_automation.Common.{
  ℕ, String, Bool, false, Option, none, some, [], ◌∷◌, ◌≡◌, ◌≢◌, ◌≤◌, refl, sym, ap, absurd_eq, All,
  keep, length, or_else,
}
use mathlib.Core.List.{Memᴰ}
use vibe_guide_automation.Common.Dict.{get}
use vibe_guide_automation.Registry.{
  Binding, Files, has_role, same_text, save_task_binding, may_replace, obstructs, is_successor,
  latest,
}
use vibe_guide_automation.Registry.Lineage.{Lineage}
use vibe_guide_automation.Registry.Rows.{rows_of}
use vibe_guide_automation.Registry.Reach.{
  Reachable, none_saved, saved, live_rows, Reachable-Lineage,
}
use vibe_guide_automation.Registry.Apart.{Apart, Reachable-Apart}
use vibe_guide_automation.Registry.Elsewhere.{StandsBeside, save_task_binding-elsewhere}
use vibe_guide_automation.Registry.Load.{
  current, recursive, unfinished, load_task_binding, load_historical_task_binding,
}
use vibe_guide_automation.Registry.Load.Ends.{load_task_binding-ends}
use vibe_guide_automation.Registry.Load.Again.{LoadsAs, load_task_binding-LoadsAs}

abbrev row : String → String → String → String → ℕ → Option String → Binding
row run role task status generation successor_of = record {
  provider = "codex-app-visible";
  mode = "visible";
  issue_id = "I1";
  role = role;
  task_id = some task;
  host = some "h";
  worktree = "/w";
  branch = "b";
  status_file = "";
  handoff_file = "";
  cursor = none;
  run_id = some run;
  status = status;
  limitations = [];
  topology = "dual-visible";
  continuation_digest = none;
  generation = generation;
  allowlist = [];
  route_digest = none;
  model = none;
  reasoning = none;
  capability_contract_digest = none;
  successor_of = successor_of;
  handoff_from_provider = none;
}

abbrev never : String → Bool
never run = false

abbrev save : Binding → Files → Files
save p d = or_else (save_task_binding never none p d) []

abbrev running : Binding
running = row "r1" "developer" "t1" "running" 0 none

abbrev stopped : Binding
stopped = row "r1" "developer" "t1" "stopped" 0 none

abbrev successor : Binding
successor = row "r1" "developer" "t2" "running" 1 (some "t1")

abbrev reviewer : Binding
reviewer = row "r1" "reviewer" "t3" "running" 0 none

abbrev started : Files
started = save running []

abbrev ended : Files
ended = save stopped started

abbrev reviewed : Files
reviewed = save reviewer ended

abbrev continued : Files
continued = save successor reviewed

reached : Reachable reviewed
unfolding save_task_binding may_replace obstructs is_successor latest
reached =
    saved never none reviewer
      (saved never none stopped (saved never none running none_saved refl) refl) refl

all_reached : Reachable continued
unfolding save_task_binding may_replace obstructs is_successor latest
all_reached = saved never none successor reached refl

Reachable-Lineage_example :
    Lineage (keep (has_role "I1" "developer") (rows_of continued "r1"))
    × (length (live_rows (keep (has_role "I1" "developer") (rows_of continued "r1"))) ≤ 1)
Reachable-Lineage_example = Reachable-Lineage continued "r1" "I1" "developer" all_reached

-- A second live developer is refused.
refused :
    save_task_binding never none (row "r1" "developer" "t2" "running" 1 (some "t1")) started ≡ none
unfolding save_task_binding may_replace obstructs is_successor latest
refused = refl

Reachable-Apart_example : Apart reviewer successor
unfolding save_task_binding may_replace obstructs is_successor latest
Reachable-Apart_example =
    Reachable-Apart continued "r1" "r1" reviewer successor all_reached (Memᴰ.tail (Memᴰ.head refl))
      (Memᴰ.tail (Memᴰ.tail (Memᴰ.head refl))) refl (λ e. cc)

load_task_binding-LoadsAs_example :
    (load_historical_task_binding continued "r1" "I1" "developer" (some "t2") ≡ some successor)
    × LoadsAs successor
        (keep (has_role "I1" "developer") (rows_of continued "r1"))
        (load_task_binding continued "I1" "developer" (some "r1"))
unfolding save_task_binding may_replace obstructs is_successor latest
load_task_binding-LoadsAs_example =
    load_task_binding-LoadsAs never none successor reviewed continued "r1" reached refl refl refl
      refl

-- No ancestry returns there.
continued_load : load_task_binding continued "I1" "developer" (some "r1") ≡ current successor
unfolding save_task_binding may_replace obstructs is_successor latest load_task_binding
continued_load = refl

-- Two rows that name each other.
abbrev entwined : Files
entwined =
    (
      "r1",
      record {
        revision = 1;
        bindings =
            row "r1" "developer" "t1" "stopped" 0 (some "t2")
            ∷ row "r1" "developer" "t2" "running" 1 (some "t1")
            ∷ [];
      },
    )
    ∷ []

entwined_load : load_task_binding entwined "I1" "developer" (some "r1") ≡ recursive
unfolding load_task_binding
entwined_load = refl

load_task_binding-ends_example : load_task_binding entwined "I1" "developer" none ≢ unfinished
load_task_binding-ends_example = load_task_binding-ends entwined "I1" "developer" none

-- A row of another run that has the identity of a live one.
abbrev moved : Binding
moved = row "r2" "developer" "t2" "running" 1 none

save_task_binding-elsewhere_example :
    (get (save moved continued) "r1" ≡ get continued "r1")
    × All (StandsBeside never moved) (rows_of continued "r1")
unfolding save_task_binding may_replace obstructs is_successor latest
save_task_binding-elsewhere_example =
    save_task_binding-elsewhere never none moved continued (save moved continued) "r1" refl
      (λ e. absurd_eq (sym (ap (λ z. same_text z (some "r2")) e)))
