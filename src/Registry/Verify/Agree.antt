-- ===== src/Registry/Verify/Agree.antt =====
-- `validate_binding` of vibe_guide/task_registry.py verifies just the observations that agree with the
-- intent.
use vibe_guide_automation.Common.{
  String, true, false, ◌&&◌, Option, some, [], is_empty, is_some, ◌≡◌, ◌↔◌, refl, sym, ap, ◌∙◌,
  subst, and-both,
}
use vibe_guide_automation.Registry.Verify.{
  SupervisorLease, BindingIntent, CursorObservation, BindingObservation, is_blank, Lists, ◌⊕◌,
  unstated, fields, head, lease_lists, cursor_lists, without_repeats, validate_binding,
}
use vibe_guide_automation.Registry.Verify.Facts.{HasLease, IsSourced, IsStated, is_blank_iff}
use vibe_guide_automation.Registry.Verify.Means.{
  IsGiven, is_clear, is_clear-join, is_empty-without_repeats, Means, join, Stated, Compared, states,
  compares_all, heads, leases, Waited, cursors,
}

module _ (supervisor_lease_id : String → String → String → String) where
  -- The observation agrees with the intent, which states everything it has to.
  pub record Agrees (i : BindingIntent) (o : BindingObservation) : Type 0 where
    pub project : IsGiven (some o.project_id) (some i.project_id)
    pub task : IsGiven (some o.task_id) (some i.task_id)
    pub node : IsGiven o.node_id i.node_id
    pub host : IsGiven (some o.host_id) (some i.host_id)
    pub worktree : IsGiven (some o.worktree) (some i.worktree)
    pub managed_root : IsGiven (some o.managed_root) (some i.managed_root)
    pub branch : IsGiven (some o.branch) (some i.branch)
    pub base : IsGiven (some o.base_sha) (some i.base_sha)
    pub head : IsGiven (some o.head_sha) i.head_sha
    pub clean : (o.clean ≡ true) × (i.clean ≡ some true)
    pub lease :
        IsStated i.lease_id
        × ((l : SupervisorLease) × (o.lease ≡ some l) × HasLease supervisor_lease_id i l)
    pub cursor : IsGiven o.cursor i.cursor
    pub source : o.source ≡ "codex_app__wait_threads"
    pub wait : (c : CursorObservation) × (o.cursor_observation ≡ some c) × IsSourced o c

cleared :
    (x : Lists)
    → (is_empty (without_repeats [] x.0) && is_empty (without_repeats [] x.1)) ≡ is_clear x
cleared (m, c) = rw (is_empty-without_repeats m, is_empty-without_repeats c) refl

is_blank-same : (a b : Option String) → IsGiven a b → is_blank b ≡ false
is_blank-same a b g = subst (λ z. is_blank z ≡ false) g.same ((is_blank_iff a).1 g.stated)

module _ (identity : String → String → String → String) (i : BindingIntent)
    (o : BindingObservation) where
  abbrev rest : Lists
  rest = fields i o ⊕ head i o ⊕ lease_lists identity i o.lease ⊕ cursor_lists i o

  validate_binding-clear :
      (validate_binding identity i o).verified ≡ (is_clear (unstated i) && is_clear rest)
  unfolding validate_binding
  validate_binding-clear = cleared (unstated i ⊕ rest) ∙ is_clear-join (unstated i) rest

  rests :
      (s : Stated i)
      → Means rest (
          Compared i o
          × ((IsGiven (some o.head_sha) i.head_sha × ((o.clean ≡ true) × (i.clean ≡ some true)))
              × (((l : SupervisorLease) × (o.lease ≡ some l) × HasLease identity i l)
                  × ((is_blank o.cursor ≡ false)
                      × ((o.source ≡ "codex_app__wait_threads")
                          × (Waited o o.cursor_observation × (o.cursor ≡ i.cursor)))))))
  rests s =
      join (compares_all i o)
        (join (heads i o s) (join (leases identity i o.lease s) (cursors i o)))

  Agrees-Stated : Agrees identity i o → Stated i
  Agrees-Stated g = record {
    node = is_blank-same o.node_id i.node_id g.node;
    lease = (is_blank_iff i.lease_id).1 g.lease.0;
    head = is_blank-same (some o.head_sha) i.head_sha g.head;
    clean = ap is_some g.clean.1;
    cursor = is_blank-same o.cursor i.cursor g.cursor;
  }

  verified-Agrees : (validate_binding identity i o).verified ≡ true → Agrees identity i o
  verified-Agrees h =
      let (u, r) =
        and-both (is_clear (unstated i)) (is_clear rest) (sym validate_binding-clear ∙ h) in
      let s = (states i).iff.0 u in
      let (c, ((g, f), (l, (b, (src, (w, q)))))) = (rests s).iff.0 r in
      record {
        project = c.project;
        task = c.task;
        node = c.node;
        host = c.host;
        worktree = c.worktree;
        managed_root = c.managed_root;
        branch = c.branch;
        base = c.base;
        head = g;
        clean = f;
        lease = ((is_blank_iff i.lease_id).0 s.lease, l);
        cursor = record { stated = (is_blank_iff o.cursor).0 b; same = q };
        source = src;
        wait = w;
      }

  Agrees-verified : Agrees identity i o → (validate_binding identity i o).verified ≡ true
  Agrees-verified g =
      let s = Agrees-Stated g in
      let c : Compared i o = record {
        project = g.project;
        task = g.task;
        node = g.node;
        host = g.host;
        worktree = g.worktree;
        managed_root = g.managed_root;
        branch = g.branch;
        base = g.base;
      } in
      let r = (rests s).iff.1 (
        c,
        (
          (g.head, g.clean),
          (
            g.lease.1,
            ((is_blank_iff o.cursor).1 g.cursor.stated, (g.source, (g.wait, g.cursor.same))),
          ),
        ),
      ) in
      validate_binding-clear ∙ rw ((states i).iff.1 s, r) refl

  -- A binding is verified just when the observation agrees with the intent: the intent states the node,
  -- the lease, the commit, a clean tree and the cursor; every compared field is stated and the same on
  -- both sides; the lease is an active one, of schema version 1, of the intended node and
  -- worktree, with the id that belongs to it and the one intended, and passes the comparison that the
  -- intent asks for; and the cursor is the intended one, from a wait_threads observation of the
  -- observed task, host and lineage.
  pub validate_binding-Agrees :
      ((validate_binding identity i o).verified ≡ true) ↔ Agrees identity i o
  validate_binding-Agrees = (verified-Agrees, Agrees-verified)
