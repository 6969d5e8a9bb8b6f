-- ===== src/Registry/Policy/Samples.antt =====
-- A task that is bound as its policy says, and the theorem about vibe_guide/binding_lifecycle.py there.
use vibe_guide_automation.Common.{true, none, some, [], ◌∷◌, ◌≡◌, ◌↔◌, refl}
use vibe_guide_automation.Registry.Policy.{
  RequestedBindingPolicy, ProviderRuntimeBinding, verify_binding,
}
use vibe_guide_automation.Registry.Policy.Agree.{IsBound, verify_binding_iff}

abbrev policy : RequestedBindingPolicy
policy = record {
  developer_task = "d";
  reviewer_task = "v";
  project_root = "/p";
  mode = "visible";
  worktree = "/w";
  branch = "b";
  base_sha = "0";
  allowlist = "src" ∷ [];
}

abbrev shown : ProviderRuntimeBinding
shown = record {
  task_id = some "t";
  host = some "h";
  mode = some "visible";
  project_root = some "/p";
  checkout_worktree = some "/w";
  branch = some "b";
  base_sha = some "0";
  head_sha = some "1";
  allowlist = "src" ∷ [];
  developer_task_id = some "d";
  reviewer_task_id = some "v";
  lease = some "l";
  cursor = some "c";
}

bound : (verify_binding policy (some shown) none).business_write_allowed ≡ true
unfolding verify_binding
bound = refl

verify_binding_iff_example :
    ((verify_binding policy (some shown) (some "t")).business_write_allowed ≡ true)
    ↔ IsBound policy shown (some "t")
verify_binding_iff_example = verify_binding_iff policy shown (some "t")

-- An allowlist that is not shown is not compared.
unscoped :
    (verify_binding policy (some (record shown { allowlist = [] })) none).business_write_allowed
    ≡ true
unfolding verify_binding
unscoped = refl

drifted :
    (verify_binding policy (some (record shown { branch = some "c" })) none).status
    ≡ "binding_drift"
unfolding verify_binding
drifted = refl
