-- ===== src/Registry/Reach.antt =====
-- The registry files of vibe_guide/task_registry.py along any sequence of saves.
use vibe_guide_automation.Common.{
  length, ◌≤◌, String, Bool, true, false, not, ◌&&◌, Option, some, List, [], ◌∷◌, ◌≡◌, inl, inr,
  refl, sym, ap, ◌∙◌, subst, keep, ◌==◌, arith, eq_iff, or_else, Bool-cases, if◌then◌else◌,
  and-both,
}
use vibe_guide_automation.Common.Dict.{put, keys, get-put}
use vibe_guide_automation.Registry.{
  Binding, File, Files, same_identity, has_role, is_stopped, no_file, first_match, fits,
  replace_or_append, written, save_task_binding,
}
use vibe_guide_automation.Registry.Lineage.{same_identity-Alike, Lineage}
use vibe_guide_automation.Registry.Lineage.Kept.{fits-Lineage}
use vibe_guide_automation.Registry.Rows.{rows_of, IsDistinct, own_rows-file, IsDistinct-put}
use vibe_guide_automation.Registry.Save.{Saved, save_task_binding-Saved}

module _ (q : Binding → Bool) (p : Binding) where
  -- A test that does not tell a row from the one that replaces it.
  pub keep-replace :
      (bs : List Binding)
      → q p ≡ true
      → ((b : Binding) → same_identity b p ≡ true → q b ≡ true)
      → keep q (replace_or_append p bs) ≡ replace_or_append p (keep q bs)
  unfolding replace_or_append
  keep-replace [] e f = rw e refl
  keep-replace (b ∷ bs) e f = elim (Bool-cases (same_identity b p)) [
    | inl i ↦ rw (i, f b i, e, keep) (rw i refl)
    | inr i ↦ elim (Bool-cases (q b)) [
      | inl j ↦ rw (i, j, keep) (rw i (ap (λ z. b ∷ z) (keep-replace bs e f)))
      | inr j ↦ rw (i, j, keep) (keep-replace bs e f)
    ]
  ]

  pub keep-replace-other :
      (bs : List Binding)
      → q p ≡ false
      → ((b : Binding) → same_identity b p ≡ true → q b ≡ false)
      → keep q (replace_or_append p bs) ≡ keep q bs
  unfolding replace_or_append
  keep-replace-other [] e f = rw e refl
  keep-replace-other (b ∷ bs) e f = elim (Bool-cases (same_identity b p)) [
    | inl i ↦ rw (i, f b i, e, keep) refl
    | inr i ↦ elim (Bool-cases (q b)) [
      | inl j ↦ rw (i, j, keep) (ap (λ z. b ∷ z) (keep-replace-other bs e f))
      | inr j ↦ rw (i, j, keep) (keep-replace-other bs e f)
    ]
  ]

pub has_role-alike :
    (issue role : String) (b p : Binding)
    → same_identity b p ≡ true
    → has_role issue role b ≡ has_role issue role p
has_role-alike issue role b p e =
    let a = same_identity-Alike b p e in
    ap (λ z. z == issue && b.role == role) a.issue
    ∙ ap (λ z. p.issue_id == issue && z == role) a.role

pub rows_of-put :
    (d : Files) (run r : String) (f : File)
    → rows_of (put d run f) r ≡ (if run == r then f.bindings else rows_of d r)
rows_of-put d run r f = elim (Bool-cases (run == r)) [
  | inl e ↦ ap (λ z. let f = or_else z no_file in f.bindings) (get-put run f d r) ∙ rw e refl
  | inr e ↦ ap (λ z. let f = or_else z no_file in f.bindings) (get-put run f d r) ∙ rw e refl
]

-- The run ids are distinct, and the rows of every issue and role in a run form a lineage.
pub record IsWellFormed (d : Files) : Type 0 where
  pub distinct : IsDistinct (keys d)
  pub lineages : (run issue role : String) → Lineage (keep (has_role issue role) (rows_of d run))

role-Lineage :
    (p : Binding) (rows : List Binding) (issue role : String)
    → Lineage (keep (has_role issue role) rows)
    → fits
        (keep (has_role p.issue_id p.role) rows)
        p
        (first_match p (keep (has_role p.issue_id p.role) rows))
      ≡ true
    → Lineage (keep (has_role issue role) (replace_or_append p rows))
role-Lineage p rows issue role l f = elim (Bool-cases (has_role issue role p)) [
  | inl e ↦
      let (i, r) = and-both _ _ e in
      let mine =
        ap (λ z. has_role z p.role) ((eq_iff p.issue_id issue).0 i)
        ∙ ap (λ z. has_role issue z) ((eq_iff p.role role).0 r) in
      subst Lineage
        (sym (
          keep-replace (has_role issue role) p rows e (λ b s. has_role-alike issue role b p s ∙ e)))
        (fits-Lineage p _ l
          (subst (λ q. fits (keep q rows) p (first_match p (keep q rows)) ≡ true) mine f))
  | inr e ↦
      subst Lineage
        (sym (
          keep-replace-other (has_role issue role) p rows e
            (λ b s. has_role-alike issue role b p s ∙ e)))
        l
]

module _ (complete : String → Bool) (expects : Option (Binding → Bool)) (p : Binding)
    (d d' : Files) where
  Saved-lineages :
      IsWellFormed d
      → (s : Saved complete p d d') → (run issue role : String)
      → Lineage (keep (has_role issue role) (rows_of (written p d s.run s.file) run))
  Saved-lineages w s run issue role =
      let disk = ap (λ (z : File). z.bindings) s.on_disk in
      let same = own_rows-file (has_role p.issue_id p.role) s.run d s.existing w.distinct s.read in
      elim (Bool-cases (s.run == run)) [
        | inl e ↦
            subst (λ z. Lineage (keep (has_role issue role) z))
              (sym (rows_of-put d s.run run _ ∙ rw e refl))
              (role-Lineage p s.file.bindings issue role
                (subst (λ z. Lineage (keep (has_role issue role) z)) (sym disk)
                  (w.lineages s.run issue role))
                (subst (λ z. fits z p (first_match p z) ≡ true)
                  (same ∙ ap (keep (has_role p.issue_id p.role)) (sym disk)) s.fitting))
        | inr e ↦
            subst (λ z. Lineage (keep (has_role issue role) z))
              (sym (rows_of-put d s.run run _ ∙ rw e refl)) (w.lineages run issue role)
      ]

  Saved-IsWellFormed :
      IsWellFormed d → save_task_binding complete expects p d ≡ some d' → IsWellFormed d'
  Saved-IsWellFormed w h =
      let s = save_task_binding-Saved complete expects p d d' h in
      subst IsWellFormed (sym s.result)
        (record { distinct = IsDistinct-put d s.run _ w.distinct; lineages = Saved-lineages w s })

-- What a sequence of saves that raise nothing leaves, from no files. Which runs are complete may
-- change from one save to the next.
pub data Reachable : Files → Type 0 where
  none_saved : Reachable []
  saved :
      (complete : String → Bool) (expects : Option (Binding → Bool)) (p : Binding) {d d' : Files}
      → Reachable d
      → save_task_binding complete expects p d ≡ some d'
      → Reachable d'

pub Reachable-IsWellFormed : (d : Files) → Reachable d → IsWellFormed d
Reachable-IsWellFormed _ none_saved = record { distinct = tt; lineages = λ run issue role. tt }
Reachable-IsWellFormed _ (saved complete expects p {d = d} {d' = d'} r h) =
    Saved-IsWellFormed complete expects p d d' (Reachable-IsWellFormed d r) h

abbrev pub live_rows : List Binding → List Binding
live_rows rows = keep (λ b. not (is_stopped b)) rows

Lineage-live : (bs : List Binding) → Lineage bs → length (live_rows bs) ≤ 1
Lineage-live [] l = omega arith
Lineage-live (b ∷ []) l = elim (Bool-cases (is_stopped b)) [
  | inl e ↦ rw (e, keep) (omega arith)
  | inr e ↦ rw (e, keep) (omega arith)
]
Lineage-live (b ∷ c ∷ bs) l = rw (l.0.stopped, keep) (Lineage-live (c ∷ bs) l.2)

-- After any sequence of saves, the rows of an issue, a role and a run form a lineage: each row but
-- the last is stopped, and the next one names its task, has a greater generation and is on the same
-- worktree and branch; no task id occurs twice. At most one row is not stopped.
pub Reachable-Lineage :
    (d : Files) (run issue role : String)
    → Reachable d
    → let rows = keep (has_role issue role) (rows_of d run) in
      Lineage rows × (length (live_rows rows) ≤ 1)
Reachable-Lineage d run issue role r =
    let w = Reachable-IsWellFormed d r in let l = w.lineages run issue role in (l, Lineage-live _ l)
