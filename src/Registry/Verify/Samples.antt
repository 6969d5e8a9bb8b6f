-- ===== src/Registry/Verify/Samples.antt =====
-- A binding that is verified, and the theorem about `validate_binding` of vibe_guide/task_registry.py
-- there.
use vibe_guide_automation.Common.{String, true, false, none, some, [], ◌∷◌, ◌≡◌, ◌↔◌, refl}
use vibe_guide_automation.Registry.Verify.{
  SupervisorLease, BindingIntent, BindingObservation, validate_binding,
}
use vibe_guide_automation.Registry.Verify.Agree.{Agrees, validate_binding-Agrees}

abbrev lease_id : String → String → String → String
lease_id node worktree run = "id"

abbrev intent : BindingIntent
intent = record {
  project_id = "p";
  task_id = "t";
  host_id = "h";
  worktree = "/w";
  managed_root = "/m";
  branch = "b";
  base_sha = "0";
  node_id = some "n";
  lease_id = some "id";
  cursor = some "c";
  head_sha = some "1";
  clean = some true;
  lease = none;
}

abbrev lease : SupervisorLease
lease = record {
  active = true;
  schema_version = 1;
  node_id = "n";
  worktree = "/w";
  run_id = "r";
  lease_id = "id";
  status = "active";
}

abbrev observed : BindingObservation
observed = record {
  project_id = "p";
  task_id = "t";
  host_id = "h";
  worktree = "/w";
  managed_root = "/m";
  branch = "b";
  base_sha = "0";
  head_sha = "1";
  clean = true;
  lease = some lease;
  cursor = some "c";
  source = "codex_app__wait_threads";
  node_id = some "n";
  cursor_source = some "codex_app__wait_threads";
  cursor_task_id = some "t";
  cursor_host_id = some "h";
  cursor_lineage = some "l";
  cursor_observation = some (record { task_id = "t"; host_id = "h"; cursor = "c"; lineage = "l" });
}

verified : (validate_binding lease_id intent observed).verified ≡ true
unfolding validate_binding
verified = refl

validate_binding-Agrees_example :
    ((validate_binding lease_id intent observed).verified ≡ true) ↔ Agrees lease_id intent observed
validate_binding-Agrees_example = validate_binding-Agrees lease_id intent observed

-- A dirty tree and a wrong branch.
dirty :
    (validate_binding lease_id intent (record observed { clean = false; branch = "c" })).conflicts
    ≡ "branch" ∷ "clean" ∷ []
unfolding validate_binding
dirty = refl
