-- ===== src/Registry/Save.antt =====
-- What a call of `save_task_binding` in vibe_guide/task_registry.py that raises nothing has checked
-- and written.
use vibe_guide_automation.Common.{
  String, Bool, true, false, not, Option, none, some, List, ◌≡◌, ◌≢◌, inl, inr, refl, sym, subst,
  any_of, all_of, keep, ◌==◌, arith, eq_iff, or_else, Bool-cases, some-inj, absurd_eq,
  if◌then◌else◌, and-both, none-some,
}
use vibe_guide_automation.Common.Dict.{get}
use vibe_guide_automation.Registry.{
  Binding, File, Files, has_role, is_of_run, no_file, read_registry, all_bindings, is_run_id,
  first_match, fits, same_role_of, obstructs, admits, may_write, written, save_task_binding,
}
use vibe_guide_automation.Registry.Rows.{bind-some, rows_of, checked-IsRead}

-- The rows of the binding's issue, role and run.
abbrev pub peers : Files → String → Binding → List Binding
peers d run p = keep (has_role p.issue_id p.role) (rows_of d run)

pub record Saved (complete : String → Bool) (p : Binding) (d d' : Files) : Type 0 where
  pub run : String
  pub of_run : p.run_id ≡ some run
  pub existing : List Binding
  pub read : all_bindings d ≡ some existing
  pub file : File
  pub on_disk : file ≡ or_else (get d run) no_file
  pub readable : (is_run_id run ≡ true) × (all_of (is_of_run run) file.bindings ≡ true)
  pub placed : (p.worktree ≢ "") × (p.branch ≢ "")
  pub fitting :
      fits (same_role_of run p existing) p (first_match p (same_role_of run p existing)) ≡ true
  pub clear :
      any_of
        (obstructs complete
          (first_match p (same_role_of run p existing))
          (same_role_of run p existing)
          p)
        existing
      ≡ false
  pub result : d' ≡ written p d run file

not_empty : (s : String) → not (s == "") ≡ true → s ≢ ""
not_empty s h = λ e. absurd (ground (arith, eq_iff s ""))

not-false : (b : Bool) → not b ≡ true → b ≡ false
not-false true h = absurd_eq h
not-false false h = refl

module _ (complete : String → Bool) (expects : Option (Binding → Bool)) (p : Binding)
    (d d' : Files) where
  checks-Saved :
      (run : String) (existing : List Binding) (f : File)
      → p.run_id ≡ some run
      → all_bindings d ≡ some existing
      → read_registry d run ≡ some f
      → (if may_write complete expects existing run p then some (written p d run f) else none)
        ≡ some d'
      → Saved complete p d d'
  unfolding may_write admits read_registry
  checks-Saved run existing f r b g =
      elim (Bool-cases (may_write complete expects existing run p)) [
        | inl e ↦ rw e (λ h.
            let (e, admitted) = and-both _ _ e in
            let (e, named) = and-both _ _ e in
            let (w, b') = and-both _ _ e in
            let (fit, clear) = and-both _ _ admitted in
            let (expected, fitting) = and-both _ _ fit in
            record {
              run = run;
              of_run = r;
              existing = existing;
              read = b;
              file = f;
              on_disk = let i = checked-IsRead run _ f g in i.same;
              readable =
                  let i = checked-IsRead run _ f g in
                  (
                    i.named,
                    subst (λ (z : File). all_of (is_of_run run) z.bindings ≡ true) (sym i.same)
                        i.own,
                  );
              placed = (not_empty p.worktree w, not_empty p.branch b');
              fitting = fitting;
              clear = not-false _ clear;
              result = sym (some-inj h);
            })
        | inr e ↦ rw e (λ h. none-some h)
      ]

  pub save_task_binding-Saved :
      save_task_binding complete expects p d ≡ some d' → Saved complete p d d'
  unfolding save_task_binding
  save_task_binding-Saved h =
      let (run, r, h) = bind-some p.run_id _ d' h in
      let (existing, b, h) = bind-some (all_bindings d) _ d' h in
      let (f, g, h) = bind-some (read_registry d run) _ d' h in checks-Saved run existing f r b g h
