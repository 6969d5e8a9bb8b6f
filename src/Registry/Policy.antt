-- ===== src/Registry/Policy.antt =====
-- `verify_binding` of vibe_guide/binding_lifecycle.py: what a provider shows of a task, against the
-- policy that was frozen before its dispatch.
pub mod Agree
pub mod Samples
use vibe_guide_automation.Common.{
  String, Bool, true, false, not, ◌&&◌, ◌||◌, Option, none, some, List, [], ◌∷◌, ◌++◌, ◌==◌,
  contains, is_empty, is_some, if◌then◌else◌,
}
use vibe_guide_automation.Registry.{same_text, same_texts}
use vibe_guide_automation.Registry.Verify.{is_blank, if_only, without_repeats}

-- RequestedBindingPolicy, as far as it is compared.
pub record RequestedBindingPolicy : Type 0 where
  pub developer_task : String
  pub reviewer_task : String
  pub project_root : String
  pub mode : String
  pub worktree : String
  pub branch : String
  pub base_sha : String
  pub allowlist : List String

-- ProviderRuntimeBinding
pub record ProviderRuntimeBinding : Type 0 where
  pub task_id : Option String
  pub host : Option String
  pub mode : Option String
  pub project_root : Option String
  pub checkout_worktree : Option String
  pub branch : Option String
  pub base_sha : Option String
  pub head_sha : Option String
  pub allowlist : List String
  pub developer_task_id : Option String
  pub reviewer_task_id : Option String
  pub lease : Option String
  pub cursor : Option String

-- BindingVerificationResult
pub record BindingVerificationResult : Type 0 where
  pub status : String
  pub business_write_allowed : Bool
  pub missing : List String
  pub conflicts : List String

-- The loop over `required`.
abbrev pub absent_fields : ProviderRuntimeBinding → List String
absent_fields o =
    if_only (is_blank o.task_id) "task_id"
    ++ (if_only (is_blank o.host) "host"
        ++ (if_only (is_blank o.mode) "mode"
            ++ (if_only (is_blank o.project_root) "project_root"
                ++ (if_only (is_blank o.checkout_worktree) "checkout_worktree"
                    ++ (if_only (is_blank o.branch) "branch"
                        ++ (if_only (is_blank o.base_sha) "base_sha"
                            ++ (if_only (is_blank o.head_sha) "head_sha"
                                ++ (if_only (is_blank o.lease) "lease"
                                    ++ if_only (is_blank o.cursor) "cursor"))))))))

-- A task that was dispatched before is still the one that is observed.
abbrev pub is_other_task : Option String → Option String → Bool
is_other_task prior task = not (is_blank prior) && (is_some task && not (same_text task prior))

-- `value not in (None, "") and value != expected`
abbrev pub strays : Option String → String → Bool
strays value expected = not (is_blank value) && not (same_text value (some expected))

-- `value not in (None, expected)`
abbrev pub is_other : Option String → String → Bool
is_other value expected = is_some value && not (same_text value (some expected))

abbrev pub is_other_scope : List String → List String → Bool
is_other_scope observed expected = not (is_empty observed) && not (same_texts observed expected)

abbrev pub is_unseparated : ProviderRuntimeBinding → Bool
is_unseparated o =
    not (is_blank o.developer_task_id) && same_text o.developer_task_id o.reviewer_task_id

abbrev pub is_detached : Option String → Bool
is_detached branch = same_text branch (some "detached")

-- The conflicts but the first, of the task.
abbrev pub other_conflicts : RequestedBindingPolicy → ProviderRuntimeBinding → List String
other_conflicts p o =
    if_only (strays o.mode p.mode) "mode"
    ++ (if_only (strays o.project_root p.project_root) "project_root"
        ++ (if_only (strays o.branch p.branch) "branch"
            ++ (if_only (strays o.base_sha p.base_sha) "base_sha"
                ++ (if_only (strays o.checkout_worktree p.worktree) "checkout_worktree"
                    ++ (if_only (is_other_scope o.allowlist p.allowlist) "allowlist"
                        ++ (if_only (is_other o.developer_task_id p.developer_task)
                              "developer_task_id"
                            ++ (if_only (is_other o.reviewer_task_id p.reviewer_task)
                                  "reviewer_task_id"
                                ++ (if_only (is_unseparated o) "developer_reviewer_separation"
                                    ++ if_only (is_detached o.branch) "branch"))))))))

abbrev pub concluded : List String → List String → BindingVerificationResult
concluded missing conflicts =
    if contains conflicts "task_id" || not (is_empty missing)
    then record {
      status = "blocked_unknown";
      business_write_allowed = false;
      missing = missing;
      conflicts = conflicts;
    }
    else if not (is_empty conflicts)
    then record {
      status = "binding_drift";
      business_write_allowed = false;
      missing = [];
      conflicts = conflicts;
    }
    else record {
      status = "binding_verified";
      business_write_allowed = true;
      missing = [];
      conflicts = [];
    }

unfoldable pub verify_binding :
    RequestedBindingPolicy
    → Option ProviderRuntimeBinding
    → Option String
    → BindingVerificationResult
unfolding without_repeats
verify_binding p none prior = record {
  status = "dispatch_pending";
  business_write_allowed = false;
  missing = [];
  conflicts = [];
}
verify_binding p (some o) prior =
    concluded (without_repeats [] (absent_fields o)) (
      without_repeats [] (if_only (is_other_task prior o.task_id) "task_id" ++ other_conflicts p o))
