-- ===== src/Lease/Reach.antt =====
-- The lease directory of vibe_guide/state.py along any sequence of the four operations.
use vibe_guide_automation.Common.{
  String, Bool, true, not, ◌&&◌, ◌||◌, Option, none, some, List, [], ◌∷◌, ◌≡◌, ◌⊎◌, inl, inr, refl,
  sym, ap, ◌∙◌, subst, ◌==◌, arith, eq_iff, Bool-cases, Option-cases, some-inj, is_some, is_empty,
  ltb, length,
}
use vibe_guide_automation.Common.Dict.{get, put}
use vibe_guide_automation.Lease.{
  Lease, Store, Claim, PathKey, IdentityKey, path_key, payload, is_live, is_on,
  acquire_writer_lease, quarantine_path, mark, quarantine_writer_lease, release_writer_lease,
  release_one, held_files, unlink_all, rebind_writer_lease, move, without, previous_files,
  is_elsewhere, is_movable, same_lease,
}
use vibe_guide_automation.Lease.Scan.{is_on_iff, unlink_all-get, previous_files-get}
use vibe_guide_automation.Lease.Exclusion.{
  Owns, IsExclusive, Taken, written, standing, acquire_writer_lease-Taken,
  acquire_writer_lease-Owns, acquire_writer_lease-refused, put-here, put-there,
}

-- Every readable lease is active or quarantined, and the leases on one place are of one run.
pub record IsWellFormed (s : Store) : Type 0 where
  pub live : (q : String) (l : Lease) → get s q ≡ some (some l) → is_live l ≡ true
  pub exclusive : IsExclusive s

-- The leases of one directory are among those of another.
IsWithin : Store → Store → Type 0
IsWithin s' s = (q : String) (l : Lease) → get s' q ≡ some (some l) → get s q ≡ some (some l)

IsWithin-IsWellFormed : (s' s : Store) → IsWithin s' s → IsWellFormed s → IsWellFormed s'
unfolding IsWithin
IsWithin-IsWellFormed s' s i w = record {
  live = λ q l e. w.live q l (i q l e);
  exclusive = λ q q' l l' e e'. w.exclusive q q' l l' (i q l e) (i q' l' e');
}

put-cases :
    (s : Store) (path q : String) (new l : Lease)
    → get (put s path (some new)) q ≡ some (some l)
    → (new ≡ l) ⊎ (get s q ≡ some (some l))
put-cases s path q new l e = elim (Bool-cases (path == q)) [
  | inl y ↦ inl (some-inj (some-inj (sym (put-here s path q (some new) y) ∙ e)))
  | inr y ↦ inr (sym (put-there s path q (some new) y) ∙ e)
]

-- Writing a lease of the run that owns its place keeps the directory well-formed.
put-IsWellFormed :
    (s : Store) (path : String) (new : Lease)
    → IsWellFormed s
    → is_live new ≡ true
    → Owns (put s path (some new)) new.node_id new.worktree new.run_id
    → IsWellFormed (put s path (some new))
put-IsWellFormed s path new w v o = record {
  live = λ q l e. elim (put-cases s path q new l e) [
    | inl y ↦ ap is_live (sym y) ∙ v
    | inr y ↦ w.live q l y
  ];
  exclusive = λ q q' l l' e e' n t a a'. elim (put-cases s path q new l e) [
    | inl y ↦
        let x =
          o q' l' e'
            ((is_on_iff new.node_id new.worktree l').1 (
              sym n ∙ ap (λ (z : Lease). z.node_id) (sym y),
              sym t ∙ ap (λ (z : Lease). z.worktree) (sym y),
            ))
            a' in
        ap (λ (z : Lease). z.run_id) (sym y) ∙ sym x
    | inr y ↦ elim (put-cases s path q' new l' e') [
      | inl y' ↦
          let x =
            o q l e
              ((is_on_iff new.node_id new.worktree l).1 (
                n ∙ ap (λ (z : Lease). z.node_id) (sym y'),
                t ∙ ap (λ (z : Lease). z.worktree) (sym y'),
              ))
              a in
          x ∙ ap (λ (z : Lease). z.run_id) y'
      | inr y' ↦ w.exclusive q q' l l' y y' n t a a'
    ]
  ];
}

module _ (name : PathKey → String) (identity : IdentityKey → String)
    (redact : String → String) where
  granted-IsWellFormed :
      (c : Claim) (s s' : Store)
      → IsWellFormed s
      → Taken name identity c s s'
      → Owns s' c.node_id c.worktree c.run_id
      → IsWellFormed s'
  granted-IsWellFormed c s _ w (written e) o =
      put-IsWellFormed s (name (path_key c)) (payload name identity c) w refl o
  granted-IsWellFormed c s _ w (standing l e x) o = w

  acquire_writer_lease-IsWellFormed :
      (c : Claim) (s : Store)
      → IsWellFormed s
      → IsWellFormed (acquire_writer_lease name identity c s).1
  acquire_writer_lease-IsWellFormed c s w =
      elim (Bool-cases (acquire_writer_lease name identity c s).0) [
        | inl h ↦
            let (n, t) = acquire_writer_lease-Taken name identity c s h in
            granted-IsWellFormed c s _ w t (acquire_writer_lease-Owns name identity c s h)
        | inr h ↦ subst IsWellFormed (sym (acquire_writer_lease-refused name identity c s h)) w
      ]

  mark_put-IsWellFormed :
      (path : String) (s : Store) (l new : Lease)
      → IsWellFormed s
      → get s path ≡ some (some l)
      → is_live new ≡ true
      → (new.node_id ≡ l.node_id) × (new.worktree ≡ l.worktree) × (new.run_id ≡ l.run_id)
      → IsWellFormed (put s path (some new))
  mark_put-IsWellFormed path s l new w e v (n, t, r) = put-IsWellFormed s path new w v λ q m g o a.
      elim (put-cases s path q new m g) [
        | inl y ↦ ap (λ (z : Lease). z.run_id) (sym y)
        | inr y ↦
            let (x, z) = (is_on_iff new.node_id new.worktree m).0 o in
            w.exclusive q path m l y e (x ∙ n) (z ∙ t) a (w.live path l e) ∙ sym r
      ]

  mark-IsWellFormed :
      (path run reason : String) (s : Store) (o : Option (Option Lease))
      → IsWellFormed s
      → get s path ≡ o
      → IsWellFormed (mark name redact path run reason s o).1
  mark-IsWellFormed path run reason s none w e = w
  mark-IsWellFormed path run reason s (some none) w e = w
  mark-IsWellFormed path run reason s (some (some l)) w e = elim (Bool-cases (l.run_id == run)) [
    | inl y ↦ rw y (mark_put-IsWellFormed path s l _ w e refl (refl, refl, refl))
    | inr y ↦ rw y w
  ]

  quarantine_writer_lease-IsWellFormed :
      (node worktree run reason : String) (s : Store)
      → IsWellFormed s
      → IsWellFormed (quarantine_writer_lease name redact node worktree run reason s).1
  unfolding quarantine_writer_lease
  quarantine_writer_lease-IsWellFormed node worktree run reason s w =
      mark-IsWellFormed (quarantine_path name redact node worktree run s) run reason s _ w refl

  unlink_all-IsWellFormed :
      (files : List String) (s : Store) → IsWellFormed s → IsWellFormed (unlink_all files s)
  unfolding IsWithin
  unlink_all-IsWellFormed files s =
      IsWithin-IsWellFormed (unlink_all files s) s
        (λ q l e. (unlink_all-get files s q (some l) e).0)

  release_one-IsWellFormed :
      (path node worktree run : String) (s : Store) (o : Option Lease)
      → IsWellFormed s
      → IsWellFormed (release_one path node worktree run s o).1
  release_one-IsWellFormed path node worktree run s none w = w
  release_one-IsWellFormed path node worktree run s (some l) w =
      elim (Bool-cases (is_on node worktree l && l.run_id == run)) [
        | inl y ↦ rw y (unlink_all-IsWellFormed (path ∷ []) s w)
        | inr y ↦ rw y w
      ]

  release_writer_lease-IsWellFormed :
      (node worktree run : String) (s : Store)
      → IsWellFormed s
      → IsWellFormed (release_writer_lease name node worktree run s).1
  unfolding release_writer_lease
  release_writer_lease-IsWellFormed node worktree run s w =
      elim (Option-cases (get s (name (PathKey.legacy node worktree)))) [
        | inl e ↦
            rw (e, release_writer_lease)
              (unlink_all-IsWellFormed (held_files node worktree run s) s w)
        | inr (o, e) ↦
            rw (e, release_writer_lease)
              (release_one-IsWellFormed (name (PathKey.legacy node worktree)) node worktree run s o
                w)
      ]

  moved-run :
      (c : Claim) (previous : Option String) (status : String) (here : Bool) (l : Lease)
      → ((is_elsewhere c l || here && same_lease l (payload name identity c))
          || is_movable c previous status l)
        ≡ true
      → is_on c.node_id c.worktree l ≡ true
      → is_live l ≡ true
      → l.run_id ≡ c.run_id
  moved-run c previous status here l h o v = (eq_iff l.run_id c.run_id).0 (ground arith)

  move-IsWellFormed :
      (c : Claim) (previous : Option String) (status : String) (s : Store)
      (o : Option (List String))
      → IsWellFormed s
      → previous_files c previous status (name (path_key c)) (payload name identity c) s ≡ o
      → IsWellFormed (move name identity (name (path_key c)) (payload name identity c) s o).1
  move-IsWellFormed c previous status s none w e = w
  move-IsWellFormed c previous status s (some files) w e =
      let path = name (path_key c) in
      let new = payload name identity c in
      let moved : IsWellFormed (put s path (some new)) =
        put-IsWellFormed s path new w refl λ q l g o v. elim (put-cases s path q new l g) [
          | inl y ↦ ap (λ (z : Lease). z.run_id) (sym y)
          | inr y ↦
              moved-run c previous status (q == path) l
                (previous_files-get c previous status path new s files q l e y) o v
        ] in
      elim (Bool-cases (ltb 1 (length files) || is_empty files && not (is_some (get s path)))) [
        | inl y ↦ rw y w
        | inr y ↦ rw y (unlink_all-IsWellFormed (without path files) (put s path (some new)) moved)
      ]

  rebind_writer_lease-IsWellFormed :
      (c : Claim) (previous : Option String) (status : String) (s : Store)
      → IsWellFormed s
      → IsWellFormed (rebind_writer_lease name identity c previous status s).1
  unfolding rebind_writer_lease
  rebind_writer_lease-IsWellFormed c previous status s w =
      move-IsWellFormed c previous status s _ w refl

  -- One operation on the directory, granted or not.
  pub data Operates : Store → Store → Type 0 where
    acquires : (c : Claim) {s : Store} → Operates s (acquire_writer_lease name identity c s).1
    quarantines :
        (node worktree run reason : String) {s : Store}
        → Operates s (quarantine_writer_lease name redact node worktree run reason s).1
    releases :
        (node worktree run : String) {s : Store}
        → Operates s (release_writer_lease name node worktree run s).1
    rebinds :
        (c : Claim) (previous : Option String) (status : String) {s : Store}
        → Operates s (rebind_writer_lease name identity c previous status s).1

  -- The directories that a sequence of operations makes of an empty one.
  pub data Reachable : Store → Type 0 where
    empty : Reachable []
    operated : {s s' : Store} → Reachable s → Operates s s' → Reachable s'

  Operates-IsWellFormed : {s s' : Store} → Operates s s' → IsWellFormed s → IsWellFormed s'
  Operates-IsWellFormed (acquires c) w = acquire_writer_lease-IsWellFormed c _ w
  Operates-IsWellFormed (quarantines n t r a) w = quarantine_writer_lease-IsWellFormed n t r a _ w
  Operates-IsWellFormed (releases n t r) w = release_writer_lease-IsWellFormed n t r _ w
  Operates-IsWellFormed (rebinds c p a) w = rebind_writer_lease-IsWellFormed c p a _ w

  -- After any sequence of claims, quarantines, releases and rebindings of any runs, every readable
  -- lease is active or quarantined, and no two runs hold leases on one node and worktree.
  pub Reachable-IsWellFormed : (s : Store) → Reachable s → IsWellFormed s
  Reachable-IsWellFormed _ empty = record {
    live = λ q l e. absurd (ground arith);
    exclusive = λ q q' l l' e. absurd (ground arith);
  }
  Reachable-IsWellFormed _ (operated r o) = Operates-IsWellFormed o (Reachable-IsWellFormed _ r)
