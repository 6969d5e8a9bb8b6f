-- ===== src/Registry/Policy/Agree.antt =====
-- `verify_binding` of vibe_guide/binding_lifecycle.py allows business writes for just the tasks that
-- are bound as the policy says.
use vibe_guide_automation.Common.{
  String, Bool, true, false, not, ◌&&◌, Option, none, some, List, [], ◌∷◌, ◌++◌, ◌≡◌, ◌≢◌, ◌↔◌,
  refl, sym, ◌∙◌, inl, inr, contains, is_empty, is_some, absurd_eq, and-both, Bool-cases,
}
use vibe_guide_automation.Registry.{same_text, same_texts}
use vibe_guide_automation.Registry.Lineage.{same_text_iff}
use vibe_guide_automation.Registry.Verify.{is_blank, if_only, without_repeats}
use vibe_guide_automation.Registry.Verify.Facts.{IsStated, is_blank_iff}
use vibe_guide_automation.Registry.Verify.Means.{
  IsGiven, is_empty-without_repeats, unequal_iff, is_not_iff,
}
use vibe_guide_automation.Registry.Policy.{
  RequestedBindingPolicy, ProviderRuntimeBinding, absent_fields, is_other_task, strays, is_other,
  is_other_scope, is_unseparated, is_detached, other_conflicts, concluded, verify_binding,
}

-- The task is the one dispatched before, if there was one; everything the provider has to show is
-- there; the mode, project, worktree, branch and base are the policy's, and so are the allowlist and
-- the two tasks as far as they are shown; the two tasks differ, and the branch is not detached.
pub record IsBound (p : RequestedBindingPolicy) (o : ProviderRuntimeBinding) (prior : Option String)
    : Type 0 where
  pub task : IsStated o.task_id
  pub kept : is_blank prior ≡ false → o.task_id ≡ prior
  pub host : IsStated o.host
  pub head : IsStated o.head_sha
  pub lease : IsStated o.lease
  pub cursor : IsStated o.cursor
  pub mode : IsGiven o.mode (some p.mode)
  pub project : IsGiven o.project_root (some p.project_root)
  pub worktree : IsGiven o.checkout_worktree (some p.worktree)
  pub branch : IsGiven o.branch (some p.branch)
  pub base : IsGiven o.base_sha (some p.base_sha)
  pub allowlist : is_empty o.allowlist ≡ false → same_texts o.allowlist p.allowlist ≡ true
  pub developer : is_some o.developer_task_id ≡ true → o.developer_task_id ≡ some p.developer_task
  pub reviewer : is_some o.reviewer_task_id ≡ true → o.reviewer_task_id ≡ some p.reviewer_task
  pub separate : is_blank o.developer_task_id ≡ false → o.developer_task_id ≢ o.reviewer_task_id
  pub attached : o.branch ≢ some "detached"

-- A list that is empty just when something holds.
record Means {ℓ} (xs : List String) (P : Type ℓ) : Type ℓ where
  iff : (is_empty xs ≡ true) ↔ P

item : (b : Bool) (name : String) → Means (if_only b name) (b ≡ false)
item true name = record { iff = (λ h. absurd_eq h, λ h. absurd_eq (sym h)) }
item false name = record { iff = (λ h. refl, λ h. refl) }

is_empty-append : (xs ys : List String) → is_empty (xs ++ ys) ≡ (is_empty xs && is_empty ys)
is_empty-append [] ys = refl
is_empty-append (x ∷ xs) ys = refl

then_also {ℓ κ} :
    {P : Type ℓ} {Q : Type κ} {xs ys : List String}
    → Means xs P
    → Means ys Q
    → Means (xs ++ ys) (P × Q)
then_also {xs = xs} {ys = ys} p q =
    let e = is_empty-append xs ys in
    record {
      iff = (
        λ h.
            let (x, y) = and-both (is_empty xs) (is_empty ys) (sym e ∙ h) in (p.iff.0 x, q.iff.0 y),
        λ h. e ∙ rw (p.iff.1 h.0, q.iff.1 h.1) refl,
      );
    }

-- A guarded test fails just where the guard's truth refutes the test.
guarded : (a b : Bool) → ((not a && b) ≡ false) ↔ (a ≡ false → b ≡ false)
guarded true b = (λ h e. absurd_eq (sym e), λ h. refl)
guarded false b = (λ h e. h, λ h. h refl)

guarded_yes : (a b : Bool) → ((a && b) ≡ false) ↔ (a ≡ true → b ≡ false)
guarded_yes true b = (λ h e. h, λ h. h refl)
guarded_yes false b = (λ h e. absurd_eq e, λ h. refl)

exactly {ℓ κ} : {P : Type ℓ} {Q : Type κ} {xs : List String} → Means xs P → (P ↔ Q) → Means xs Q
exactly m e = record { iff = (λ h. e.0 (m.iff.0 h), λ q. m.iff.1 (e.1 q)) }

implies {ℓ κ μ} : {A : Type ℓ} {P : Type κ} {Q : Type μ} → (P ↔ Q) → (A → P) ↔ (A → Q)
implies e = (λ f a. e.0 (f a), λ f a. e.1 (f a))

compose {ℓ κ μ} : {P : Type ℓ} {Q : Type κ} {R : Type μ} → (P ↔ Q) → (Q ↔ R) → (P ↔ R)
compose a b = (λ p. b.0 (a.0 p), λ r. a.1 (b.1 r))

strays_iff :
    (v : Option String) (e name : String)
    → Means (if_only (strays v e) name) (is_blank v ≡ false → v ≡ some e)
strays_iff v e name =
    exactly (item (strays v e) name)
      (compose (guarded (is_blank v) _) (implies (unequal_iff v (some e))))

is_other_iff :
    (v : Option String) (e name : String)
    → Means (if_only (is_other v e) name) (is_some v ≡ true → v ≡ some e)
is_other_iff v e name =
    exactly (item (is_other v e) name)
      (compose (guarded_yes (is_some v) _) (implies (unequal_iff v (some e))))

differ_iff : (a b : Option String) → (same_text a b ≡ false) ↔ (a ≢ b)
differ_iff a b =
    let i = same_text_iff a b in
    (
      λ h e. absurd_eq (sym h ∙ i.1 e),
      λ n. elim (Bool-cases (same_text a b)) [ inl e ↦ absurd (n (i.0 e)) | inr e ↦ e ],
    )

kept_iff :
    (prior task : Option String)
    → is_blank task ≡ false
    → (is_other_task prior task ≡ false) ↔ (is_blank prior ≡ false → task ≡ prior)
kept_iff prior none h = absurd_eq (sym h)
kept_iff prior (some t) h =
    compose (guarded (is_blank prior) _) (implies (unequal_iff (some t) prior))

kept_item :
    (prior task : Option String)
    → is_blank task ≡ false
    → Means (if_only (is_other_task prior task) "task_id") (is_blank prior ≡ false → task ≡ prior)
kept_item prior task h = exactly (item (is_other_task prior task) "task_id") (kept_iff prior task h)

scope_item :
    (observed expected : List String)
    → Means
        (if_only (is_other_scope observed expected) "allowlist")
        (is_empty observed ≡ false → same_texts observed expected ≡ true)
scope_item observed expected =
    exactly (item (is_other_scope observed expected) "allowlist") (
      compose (guarded (is_empty observed) _) (implies (is_not_iff (same_texts observed expected))))

record Shown (o : ProviderRuntimeBinding) : Type 0 where
  task : is_blank o.task_id ≡ false
  host : is_blank o.host ≡ false
  mode : is_blank o.mode ≡ false
  project : is_blank o.project_root ≡ false
  worktree : is_blank o.checkout_worktree ≡ false
  branch : is_blank o.branch ≡ false
  base : is_blank o.base_sha ≡ false
  head : is_blank o.head_sha ≡ false
  lease : is_blank o.lease ≡ false
  cursor : is_blank o.cursor ≡ false

shows : (o : ProviderRuntimeBinding) → Means (absent_fields o) (Shown o)
shows o =
    exactly
      (then_also (item (is_blank o.task_id) "task_id") (
        then_also (item (is_blank o.host) "host") (
          then_also (item (is_blank o.mode) "mode") (
            then_also (item (is_blank o.project_root) "project_root") (
              then_also (item (is_blank o.checkout_worktree) "checkout_worktree") (
                then_also (item (is_blank o.branch) "branch") (
                  then_also (item (is_blank o.base_sha) "base_sha") (
                    then_also (item (is_blank o.head_sha) "head_sha") (
                      then_also (item (is_blank o.lease) "lease")
                        (item (is_blank o.cursor) "cursor"))))))))))
      (
        λ (a, (b, (c, (d, (e, (f, (g, (h, (i, j))))))))). record {
          task = a;
          host = b;
          mode = c;
          project = d;
          worktree = e;
          branch = f;
          base = g;
          head = h;
          lease = i;
          cursor = j;
        },
        λ s. (
          s.task,
          (
            s.host,
            (
              s.mode,
              (s.project, (s.worktree, (s.branch, (s.base, (s.head, (s.lease, s.cursor)))))),
            ),
          ),
        ),
      )

record Matching (p : RequestedBindingPolicy) (o : ProviderRuntimeBinding) : Type 0 where
  mode : is_blank o.mode ≡ false → o.mode ≡ some p.mode
  project : is_blank o.project_root ≡ false → o.project_root ≡ some p.project_root
  branch : is_blank o.branch ≡ false → o.branch ≡ some p.branch
  base : is_blank o.base_sha ≡ false → o.base_sha ≡ some p.base_sha
  worktree : is_blank o.checkout_worktree ≡ false → o.checkout_worktree ≡ some p.worktree
  allowlist : is_empty o.allowlist ≡ false → same_texts o.allowlist p.allowlist ≡ true
  developer : is_some o.developer_task_id ≡ true → o.developer_task_id ≡ some p.developer_task
  reviewer : is_some o.reviewer_task_id ≡ true → o.reviewer_task_id ≡ some p.reviewer_task
  separate : is_blank o.developer_task_id ≡ false → o.developer_task_id ≢ o.reviewer_task_id
  attached : o.branch ≢ some "detached"

matches_policy :
    (p : RequestedBindingPolicy) (o : ProviderRuntimeBinding)
    → Means (other_conflicts p o) (Matching p o)
matches_policy p o =
    exactly
      (then_also (strays_iff o.mode p.mode "mode") (
        then_also (strays_iff o.project_root p.project_root "project_root") (
          then_also (strays_iff o.branch p.branch "branch") (
            then_also (strays_iff o.base_sha p.base_sha "base_sha") (
              then_also (strays_iff o.checkout_worktree p.worktree "checkout_worktree") (
                then_also (scope_item o.allowlist p.allowlist) (
                  then_also (is_other_iff o.developer_task_id p.developer_task "developer_task_id")
                    (then_also (is_other_iff o.reviewer_task_id p.reviewer_task "reviewer_task_id")
                      (then_also
                        (exactly (item (is_unseparated o) "developer_reviewer_separation") (
                          compose (guarded (is_blank o.developer_task_id) _)
                            (implies (differ_iff o.developer_task_id o.reviewer_task_id))))
                        (exactly (item (is_detached o.branch) "branch")
                          (differ_iff o.branch (some "detached"))))))))))))
      (
        λ (a, (b, (c, (d, (e, (f, (g, (h, (i, j))))))))). record {
          mode = a;
          project = b;
          branch = c;
          base = d;
          worktree = e;
          allowlist = f;
          developer = g;
          reviewer = h;
          separate = i;
          attached = j;
        },
        λ s. (
          s.mode,
          (
            s.project,
            (
              s.branch,
              (
                s.base,
                (s.worktree, (s.allowlist, (s.developer, (s.reviewer, (s.separate, s.attached))))),
              ),
            ),
          ),
        ),
      )

concluded-allowed :
    (m c : List String) → (concluded m c).business_write_allowed ≡ (is_empty m && is_empty c)
concluded-allowed [] [] = refl
concluded-allowed [] (x ∷ c) = elim (Bool-cases (contains (x ∷ c) "task_id")) [
  | inl e ↦ rw e refl
  | inr e ↦ rw e refl
]
concluded-allowed (y ∷ m) c = elim (Bool-cases (contains c "task_id")) [
  | inl e ↦ rw e refl
  | inr e ↦ rw e refl
]

module _ (p : RequestedBindingPolicy) (o : ProviderRuntimeBinding) (prior : Option String) where
  abbrev all_conflicts : List String
  all_conflicts = if_only (is_other_task prior o.task_id) "task_id" ++ other_conflicts p o

  verify_binding-allowed :
      (verify_binding p (some o) prior).business_write_allowed
      ≡ (is_empty (absent_fields o) && is_empty all_conflicts)
  unfolding verify_binding
  verify_binding-allowed =
      concluded-allowed (without_repeats [] (absent_fields o)) (without_repeats [] all_conflicts)
      ∙ rw (is_empty-without_repeats (absent_fields o), is_empty-without_repeats all_conflicts) refl

  allowed-IsBound :
      (verify_binding p (some o) prior).business_write_allowed ≡ true → IsBound p o prior
  allowed-IsBound h =
      let (m, c) =
        and-both (is_empty (absent_fields o)) (is_empty all_conflicts)
          (sym verify_binding-allowed ∙ h) in
      let s = (shows o).iff.0 m in
      let (k, t) = (then_also (kept_item prior o.task_id s.task) (matches_policy p o)).iff.0 c in
      record {
        task = (is_blank_iff o.task_id).0 s.task;
        kept = k;
        host = (is_blank_iff o.host).0 s.host;
        head = (is_blank_iff o.head_sha).0 s.head;
        lease = (is_blank_iff o.lease).0 s.lease;
        cursor = (is_blank_iff o.cursor).0 s.cursor;
        mode = record { stated = (is_blank_iff o.mode).0 s.mode; same = t.mode s.mode };
        project = record {
          stated = (is_blank_iff o.project_root).0 s.project;
          same = t.project s.project;
        };
        worktree = record {
          stated = (is_blank_iff o.checkout_worktree).0 s.worktree;
          same = t.worktree s.worktree;
        };
        branch = record { stated = (is_blank_iff o.branch).0 s.branch; same = t.branch s.branch };
        base = record { stated = (is_blank_iff o.base_sha).0 s.base; same = t.base s.base };
        allowlist = t.allowlist;
        developer = t.developer;
        reviewer = t.reviewer;
        separate = t.separate;
        attached = t.attached;
      }

  IsBound-allowed :
      IsBound p o prior → (verify_binding p (some o) prior).business_write_allowed ≡ true
  IsBound-allowed b =
      let s : Shown o = record {
        task = (is_blank_iff o.task_id).1 b.task;
        host = (is_blank_iff o.host).1 b.host;
        mode = (is_blank_iff o.mode).1 b.mode.stated;
        project = (is_blank_iff o.project_root).1 b.project.stated;
        worktree = (is_blank_iff o.checkout_worktree).1 b.worktree.stated;
        branch = (is_blank_iff o.branch).1 b.branch.stated;
        base = (is_blank_iff o.base_sha).1 b.base.stated;
        head = (is_blank_iff o.head_sha).1 b.head;
        lease = (is_blank_iff o.lease).1 b.lease;
        cursor = (is_blank_iff o.cursor).1 b.cursor;
      } in
      let t : Matching p o = record {
        mode = λ e. b.mode.same;
        project = λ e. b.project.same;
        branch = λ e. b.branch.same;
        base = λ e. b.base.same;
        worktree = λ e. b.worktree.same;
        allowlist = b.allowlist;
        developer = b.developer;
        reviewer = b.reviewer;
        separate = b.separate;
        attached = b.attached;
      } in
      verify_binding-allowed
      ∙ rw
          (
            (shows o).iff.1 s,
            (then_also (kept_item prior o.task_id s.task) (matches_policy p o)).iff.1 (b.kept, t),
          )
          refl

  -- A provider's task may write just when it is bound: the task is the one dispatched before, if
  -- there was one; the host, the head, the lease and the cursor are there; the mode, project, worktree,
  -- branch and base are the policy's, and so are the allowlist and the two task ids as far as they are
  -- shown; the two task ids differ, and the branch is not detached.
  pub verify_binding_iff :
      ((verify_binding p (some o) prior).business_write_allowed ≡ true) ↔ IsBound p o prior
  verify_binding_iff = (allowed-IsBound, IsBound-allowed)
