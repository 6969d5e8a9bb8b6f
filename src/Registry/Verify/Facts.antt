-- ===== src/Registry/Verify/Facts.antt =====
-- What a lease and a wait_threads observation have to show for `validate_binding` of
-- vibe_guide/task_registry.py.
use vibe_guide_automation.Common.{
  String, Bool, true, false, Option, none, some, ◌==◌, nat_eq_iff, ◌≡◌, ◌≢◌, ◌∙◌, ap, Bool-cases,
  ◌↔◌, ◌⊎◌, inl, inr, refl, sym, subst, absurd_eq, eq_iff, both_iff, some-inj, arith, none-some,
}
use vibe_guide_automation.Registry.Lineage.{same_text_iff}
use vibe_guide_automation.Registry.Verify.{
  SupervisorLease, BindingIntent, CursorObservation, BindingObservation, unequal_lease, is_intended,
  is_sourced, is_blank,
}

module _ (supervisor_lease_id : String → String → String → String) where
  -- An active lease of the intended node and worktree, with the id that belongs to it.
  pub record IsIntended (i : BindingIntent) (l : SupervisorLease) : Type 0 where
    pub active : l.active ≡ true
    pub status : l.status ≡ "active"
    pub version : l.schema_version ≡ 1
    pub node : some l.node_id ≡ i.node_id
    pub worktree : l.worktree ≡ i.worktree
    pub identified : l.lease_id ≡ supervisor_lease_id l.node_id l.worktree l.run_id

  -- It is also the lease that the intent names, and passes the comparison that the intent asks for.
  pub record HasLease (i : BindingIntent) (l : SupervisorLease) : Type 0 where
    pub intended : IsIntended i l
    pub named : i.lease_id ≡ some l.lease_id
    pub equal :
        (i.lease ≡ none)
        ⊎ ((test : SupervisorLease → Bool) × (i.lease ≡ some test) × (test l ≡ true))

-- The wait_threads observation is of the observed task and host, and the cursor is from it.
pub record IsSourced (o : BindingObservation) (c : CursorObservation) : Type 0 where
  pub source : o.cursor_source ≡ some "codex_app__wait_threads"
  pub cursor_task : o.cursor_task_id ≡ some o.task_id
  pub cursor_host : o.cursor_host_id ≡ some o.host_id
  pub lineage : o.cursor_lineage ≡ some c.lineage
  pub task : c.task_id ≡ o.task_id
  pub host : c.host_id ≡ o.host_id
  pub cursor : some c.cursor ≡ o.cursor

-- A text that is there and is not empty.
pub record IsStated (o : Option String) : Type 0 where
  pub present : o ≢ none
  pub nonempty : o ≢ some ""

pub is_blank_iff : (o : Option String) → (is_blank o ≡ false) ↔ IsStated o
is_blank_iff none = (λ h. absurd_eq (sym h), λ h. absurd (h.present refl))
is_blank_iff (some s) = (
  λ h. record {
    present = λ e. none-some (sym e);
    nonempty = λ e. absurd_eq (sym h ∙ (eq_iff s "").1 (some-inj e));
  },
  λ h. elim (Bool-cases (s == "")) [
    | inl e ↦ absurd (h.nonempty (ap some ((eq_iff s "").0 e)))
    | inr e ↦ e
  ],
)

pub is_intended_iff :
    (identity : String → String → String → String) (i : BindingIntent) (l : SupervisorLease)
    → (is_intended identity i l ≡ true) ↔ IsIntended identity i l
is_intended_iff identity i l =
    let e =
      both_iff _ _
        (both_iff _ _
          (both_iff _ _
            (both_iff _ _ (both_iff l.active _ (λ h. h, λ h. h) (eq_iff l.status "active"))
              (nat_eq_iff l.schema_version 1))
            (same_text_iff (some l.node_id) i.node_id))
          (eq_iff l.worktree i.worktree))
        (eq_iff l.lease_id (identity l.node_id l.worktree l.run_id)) in
    (
      λ h.
          let (((((a, b), c), d), f), g) = e.0 h in
          record { active = a; status = b; version = c; node = d; worktree = f; identified = g },
      λ s. e.1 (((((s.active, s.status), s.version), s.node), s.worktree), s.identified),
    )

pub is_sourced_iff :
    (o : BindingObservation) (c : CursorObservation) → (is_sourced o c ≡ true) ↔ IsSourced o c
is_sourced_iff o c =
    let e =
      both_iff _ _
        (both_iff _ _
          (both_iff _ _
            (both_iff _ _
              (both_iff _ _
                (both_iff _ _ (same_text_iff o.cursor_source (some "codex_app__wait_threads"))
                  (same_text_iff o.cursor_task_id (some o.task_id)))
                (same_text_iff o.cursor_host_id (some o.host_id)))
              (same_text_iff o.cursor_lineage (some c.lineage)))
            (eq_iff c.task_id o.task_id))
          (eq_iff c.host_id o.host_id))
        (same_text_iff (some c.cursor) o.cursor) in
    (
      λ h.
          let ((((((a, b), d), f), g), k), m) = e.0 h in
          record {
            source = a;
            cursor_task = b;
            cursor_host = d;
            lineage = f;
            task = g;
            host = k;
            cursor = m;
          },
      λ s.
          e.1
            ((((((s.source, s.cursor_task), s.cursor_host), s.lineage), s.task), s.host), s.cursor),
    )

pub unequal_lease_iff :
    (asked : Option (SupervisorLease → Bool)) (l : SupervisorLease)
    → (unequal_lease asked l ≡ false)
      ↔ ((asked ≡ none) ⊎ ((test : SupervisorLease → Bool) × (asked ≡ some test) × (test l ≡ true)))
unequal_lease_iff none l = (λ h. inl refl, λ h. refl)
unequal_lease_iff (some test) l = (
  λ h. inr (test, refl, ground arith),
  λ h. elim h [
    | inl e ↦ none-some (sym e)
    | inr (t, e, y) ↦
        rw (subst (λ (z : SupervisorLease → Bool). z l ≡ true) (sym (some-inj e)) y) refl
  ],
)
