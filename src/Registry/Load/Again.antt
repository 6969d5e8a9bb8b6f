-- ===== src/Registry/Load/Again.antt =====
-- What `load_task_binding` and `load_historical_task_binding` of vibe_guide/task_registry.py give
-- after a save.
use vibe_guide_automation.Common.{
  suc, String, Bool, true, false, ◌&&◌, Option, none, some, List, [], ◌∷◌, keep, contains, length,
  is_some, ◌≡◌, inl, inr, refl, sym, ap, ◌∙◌, subst, arith, Bool-cases, all_of, absurd_eq, and-both,
  or_else, some-inj, mem-keep, eq_refl,
}
use mathlib.Core.List.{Memᴰ}
use vibe_guide_automation.Common.Dict.{get, keys}
use vibe_guide_automation.Registry.{
  Binding, File, Files, same_text, same_identity, has_role, is_of_run, is_run_id, checked,
  is_stopped, no_file, replace_or_append, next_file, read_registry, save_task_binding,
}
use vibe_guide_automation.Registry.Lineage.{Lineage, same_text_iff, latest-Lineage}
use vibe_guide_automation.Registry.Lineage.Live.{live_is_last, task-only}
use vibe_guide_automation.Registry.Save.{save_task_binding-Saved}
use vibe_guide_automation.Registry.Reach.{Reachable, saved, Reachable-IsWellFormed}
use vibe_guide_automation.Registry.Elsewhere.{save_task_binding-file}
use vibe_guide_automation.Decisions.{◌>>=◌}
use vibe_guide_automation.Registry.Load.{
  Loaded, by_id, any_recursive, current, recursive, outcome, load_from, load_among,
  load_task_binding, load_historical_task_binding, only,
}
use vibe_guide_automation.Registry.Load.Ancestry.{AnyReturns, SaysAny, any_recursive-Says}
use vibe_guide_automation.Registry.Rows.{rows_of}
use vibe_guide_automation.Registry.Load.Ends.{any_recursive-ends}

saved_is_in : (p : Binding) (bs : List Binding) → Memᴰ p (replace_or_append p bs)
unfolding replace_or_append
saved_is_in p [] = Memᴰ.head refl
saved_is_in p (b ∷ bs) = elim (Bool-cases (same_identity b p)) [
  | inl e ↦ rw e (Memᴰ.head refl)
  | inr e ↦ rw e (Memᴰ.tail (saved_is_in p bs))
]

-- What loading the rows of one issue and role comes to, where `p` is the live one: the row, or, just
-- where the ancestry of some row returns to itself, the error for that.
pub data LoadsAs (p : Binding) (rows : List Binding) (r : Loaded) : Type 0 where
  straight : ¬ AnyReturns (by_id [] rows) rows → r ≡ current p → LoadsAs p rows r
  cyclic : AnyReturns (by_id [] rows) rows → r ≡ recursive → LoadsAs p rows r

outcome-LoadsAs :
    (p : Binding) (rows : List Binding) (o : Option Bool)
    → is_some o ≡ true
    → SaysAny (by_id [] rows) rows o
    → LoadsAs p rows (outcome p o)
outcome-LoadsAs p rows none h s = absurd_eq h
outcome-LoadsAs p rows (some true) h s = cyclic s refl
outcome-LoadsAs p rows (some false) h s = straight s refl

load_from-live :
    (p : Binding) (rows : List Binding)
    → Lineage rows
    → Memᴰ p rows
    → is_stopped p ≡ false
    → LoadsAs p rows (load_from rows)
unfolding load_from
load_from-live p [] l m n = elim m [ ]
load_from-live p (b ∷ bs) l m n =
    let d = by_id [] (b ∷ bs) in
    let fuel = suc (length (keys d)) in
    subst (λ z. LoadsAs p (b ∷ bs) (outcome z (any_recursive d fuel (b ∷ bs))))
      (sym (latest-Lineage b bs l ∙ live_is_last p b bs l m n))
      (outcome-LoadsAs p (b ∷ bs) (any_recursive d fuel (b ∷ bs))
        (any_recursive-ends d fuel (b ∷ bs) (omega arith)) (any_recursive-Says d fuel (b ∷ bs)))

keep-keep :
    (q r : Binding → Bool) (bs : List Binding) → keep (λ b. q b && r b) bs ≡ keep r (keep q bs)
keep-keep q r [] = refl
keep-keep q r (b ∷ bs) = elim (Bool-cases (q b)) [
  | inl e ↦ elim (Bool-cases (r b)) [
    | inl i ↦ rw (e, i, keep) (ap (λ z. b ∷ z) (keep-keep q r bs))
    | inr i ↦ rw (e, i, keep) (keep-keep q r bs)
  ]
  | inr e ↦ rw (e, keep) (keep-keep q r bs)
]

all_of-replace :
    (q : Binding → Bool) (p : Binding) (bs : List Binding)
    → q p ≡ true
    → all_of q bs ≡ true
    → all_of q (replace_or_append p bs) ≡ true
unfolding replace_or_append
all_of-replace q p [] e h = rw e refl
all_of-replace q p (b ∷ bs) e h =
    let (x, y) = and-both (q b) _ h in
    elim (Bool-cases (same_identity b p)) [
      | inl i ↦ rw (i, e) y
      | inr i ↦ rw (i, x) (all_of-replace q p bs e y)
    ]

loaded :
    (d : Files) (run : String) (f : File) (issue role : String)
    → contains ("developer" ∷ "reviewer" ∷ []) role ≡ true
    → read_registry d run ≡ some f
    → load_task_binding d issue role (some run) ≡ load_from (keep (has_role issue role) f.bindings)
unfolding load_task_binding
loaded d run f issue role k g =
    rw (k, load_task_binding)
      (ap (λ z. load_among issue role (z >>= λ (f : File). some f.bindings)) g)

module _ (complete : String → Bool) (expects : Option (Binding → Bool)) (p : Binding) (d d' : Files)
    (run : String) where
  -- The rows of the role after a save.
  record Found : Type 0 where
    file : File
    read : read_registry d' run ≡ some file
    lineage : Lineage (keep (has_role p.issue_id p.role) file.bindings)
    present : Memᴰ p (keep (has_role p.issue_id p.role) file.bindings)
    stored : file.bindings ≡ rows_of d' run

  save-Found :
      Reachable d → save_task_binding complete expects p d ≡ some d' → p.run_id ≡ some run → Found
  unfolding read_registry
  save-Found r h o =
      let w = Reachable-IsWellFormed d' (saved complete expects p r h) in
      let g = save_task_binding-file complete expects p d d' run o h in
      let s = save_task_binding-Saved complete expects p d d' h in
      let q = some-inj (sym s.of_run ∙ o) in
      let old = or_else (get d run) no_file in
      let disk = s.on_disk ∙ ap (λ z. or_else (get d z) no_file) q in
      let named = subst (λ z. is_run_id z ≡ true) q s.readable.0 in
      let own = subst (λ z. all_of (is_of_run z) s.file.bindings ≡ true) q s.readable.1 in
      let own = subst (λ (z : File). all_of (is_of_run run) z.bindings ≡ true) disk own in
      let mine = (same_text_iff p.run_id (some run)).1 o in
      record {
        file = next_file p old;
        read =
            ap (λ z. checked run (or_else z no_file)) g
            ∙ rw (named, all_of-replace (is_of_run run) p old.bindings mine own) refl;
        lineage =
            subst (λ z. Lineage (keep (has_role p.issue_id p.role) (or_else z no_file).bindings)) g
              (w.lineages run p.issue_id p.role);
        present =
            (mem-keep (has_role p.issue_id p.role) p _).1
              (saved_is_in p old.bindings, rw (eq_refl p.issue_id, eq_refl p.role) refl);
        stored = ap (λ z. (or_else z no_file).bindings) (sym g);
      }

  -- In registry files that saves have left, a row that has just been saved and is not stopped is what
  -- its task id is read as in its run. Loading its issue and role gives the row where the ancestry of
  -- none of their rows returns to itself, and the error for that where one does.
  pub load_task_binding-LoadsAs :
      Reachable d
      → save_task_binding complete expects p d ≡ some d'
      → p.run_id ≡ some run
      → contains ("developer" ∷ "reviewer" ∷ []) p.role ≡ true
      → is_stopped p ≡ false
      → (load_historical_task_binding d' run p.issue_id p.role p.task_id ≡ some p)
        × LoadsAs p
            (keep (has_role p.issue_id p.role) (rows_of d' run))
            (load_task_binding d' p.issue_id p.role (some run))
  unfolding load_historical_task_binding
  load_task_binding-LoadsAs r h o k n =
      let f = save-Found r h o in
      let rows = keep (has_role p.issue_id p.role) f.file.bindings in
      (
        ap
              (λ z. z >>= λ (f : File). only (
                keep (λ b. has_role p.issue_id p.role b && same_text b.task_id p.task_id)
                  f.bindings))
              f.read
            ∙ ap only (
                keep-keep (has_role p.issue_id p.role) (λ b. same_text b.task_id p.task_id)
                  f.file.bindings
                ∙ task-only p rows f.lineage f.present),
        subst
            (λ z.
              LoadsAs p (keep (has_role p.issue_id p.role) z)
                (load_task_binding d' p.issue_id p.role (some run)))
            f.stored
            (subst (LoadsAs p rows) (sym (loaded d' run f.file p.issue_id p.role k f.read))
              (load_from-live p rows f.lineage f.present n)),
      )
