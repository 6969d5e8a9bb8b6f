-- ===== src/Registry/Elsewhere.antt =====
-- What a save of vibe_guide/task_registry.py leaves alone in the other runs, and what it has to agree
-- with there.
use vibe_guide_automation.Common.{
  String, Bool, true, false, not, ◌&&◌, ◌||◌, Option, some, List, [], ◌∷◌, ◌≡◌, ◌≢◌, inl, inr, refl,
  sym, ap, ◌∙◌, subst, ◌==◌, arith, eq_iff, or_else, all_of, Bool-cases, some-inj, absurd_eq,
  and-both, if◌then◌else◌, All, All-mem,
}
use vibe_guide_automation.Common.Dict.{get, get-put}
use mathlib.Core.List.{Memᴰ}
use vibe_guide_automation.Registry.{
  Binding, Files, same_text, same_identity, all_bindings, no_file, obstructs, next_file,
  save_task_binding, is_terminal, is_complete, is_of_run,
}
use vibe_guide_automation.Registry.Lineage.{same_text_iff, any_of-All}
use vibe_guide_automation.Registry.Rows.{rows_of, all_bindings-Splits}
use vibe_guide_automation.Registry.Save.{save_task_binding-Saved}
use vibe_guide_automation.Registry.Apart.{all_bindings-mem, differ}

elsewhere :
    (i sdd e t behind counts same history y : Bool)
    → i ≡ true
    → e ≡ true
    → counts ≡ true
    → behind ≡ false
    → history ≡ false
    → (i
        && (sdd
            || (if e
                then not t && not behind && counts || not same && not history && counts
                else y)))
      ≡ false
    → (same ≡ true) × (t ≡ true)
elsewhere i sdd e t behind counts same history y h1 h2 h3 h4 h5 h = ground arith

-- The rows that a save has to agree with in another run.
record IsLiveElsewhere (complete : String → Bool) (p b : Binding) : Type 0 where
  issue : b.issue_id ≡ p.issue_id
  role : b.role ≡ p.role
  elsewhere : same_text b.run_id p.run_id ≡ false
  live : is_terminal b ≡ false
  incomplete : is_complete complete b.run_id ≡ false

obstructs-elsewhere :
    (complete : String → Bool) (matched : Option Binding) (same : List Binding) (p b : Binding)
    → obstructs complete matched same p b ≡ false
    → IsLiveElsewhere complete p b
    → (same_identity b p ≡ true) × (b.topology ≡ p.topology)
unfolding obstructs
obstructs-elsewhere complete matched same p b h l =
    let (x, t) =
      elsewhere _ _ _ _ _ _ _ _ _ ((eq_iff b.issue_id p.issue_id).1 l.issue)
        ((eq_iff b.role p.role).1 l.role) (rw (l.elsewhere, l.live, l.incomplete) refl)
        (rw l.elsewhere refl) (rw l.elsewhere refl) h in
    (x, (eq_iff b.topology p.topology).0 t)

-- The two rows are of one task, at one place.
pub record SameTask (b p : Binding) : Type 0 where
  pub provider : b.provider ≡ p.provider
  pub mode : b.mode ≡ p.mode
  pub task : b.task_id ≡ p.task_id
  pub host : b.host ≡ p.host
  pub worktree : b.worktree ≡ p.worktree
  pub branch : b.branch ≡ p.branch
  pub topology : b.topology ≡ p.topology

same_identity-SameTask :
    (b p : Binding) → same_identity b p ≡ true → b.topology ≡ p.topology → SameTask b p
same_identity-SameTask b p h t =
    let (h, branch) = and-both _ _ h in
    let (h, worktree) = and-both _ _ h in
    let (h, host) = and-both _ _ h in
    let (h, task) = and-both _ _ h in
    let (h, role) = and-both _ _ h in
    let (h, issue) = and-both _ _ h in
    let (provider, mode) = and-both _ _ h in
    record {
      provider = (eq_iff b.provider p.provider).0 provider;
      mode = (eq_iff b.mode p.mode).0 mode;
      task = (same_text_iff b.task_id p.task_id).0 task;
      host = (same_text_iff b.host p.host).0 host;
      worktree = (eq_iff b.worktree p.worktree).0 worktree;
      branch = (eq_iff b.branch p.branch).0 branch;
      topology = t;
    }

-- How a row of another run may stand beside the row that is saved.
pub data StandsBeside (complete : String → Bool) (p b : Binding) : Type 0 where
  other_issue : b.issue_id ≢ p.issue_id → StandsBeside complete p b
  other_role : b.role ≢ p.role → StandsBeside complete p b
  ended : is_terminal b ≡ true → StandsBeside complete p b
  run_complete : is_complete complete b.run_id ≡ true → StandsBeside complete p b
  same_task : SameTask b p → StandsBeside complete p b

apart_texts : (a b : String) → (a == b) ≡ false → a ≢ b
apart_texts a b n e = absurd_eq (sym n ∙ (eq_iff a b).1 e)

obstructs-StandsBeside :
    (complete : String → Bool) (matched : Option Binding) (same : List Binding) (p b : Binding)
    → obstructs complete matched same p b ≡ false
    → same_text b.run_id p.run_id ≡ false
    → StandsBeside complete p b
obstructs-StandsBeside complete matched same p b h n = elim (Bool-cases (is_terminal b)) [
  | inl e ↦ StandsBeside.ended e
  | inr t ↦ elim (Bool-cases (is_complete complete b.run_id)) [
    | inl e ↦ StandsBeside.run_complete e
    | inr c ↦ elim (Bool-cases (b.issue_id == p.issue_id)) [
      | inr e ↦ StandsBeside.other_issue (apart_texts b.issue_id p.issue_id e)
      | inl i ↦ elim (Bool-cases (b.role == p.role)) [
        | inr e ↦ StandsBeside.other_role (apart_texts b.role p.role e)
        | inl r ↦
            let (x, y) = obstructs-elsewhere complete matched same p b h (record {
              issue = (eq_iff b.issue_id p.issue_id).0 i;
              role = (eq_iff b.role p.role).0 r;
              elsewhere = n;
              live = t;
              incomplete = c;
            }) in
            StandsBeside.same_task (same_identity-SameTask b p x y)
      ]
    ]
  ]
]

-- Every row of a run that is read is of that run.
all_bindings-own :
    (d : Files) (rows : List Binding) (run : String)
    → all_bindings d ≡ some rows
    → all_of (is_of_run run) (rows_of d run) ≡ true
unfolding all_bindings
all_bindings-own [] rows run h = refl
all_bindings-own ((x, f) ∷ d) rows run h =
    let s = all_bindings-Splits x f d rows h in
    elim (Bool-cases (x == run)) [
      | inl e ↦
          rw (e, rows_of)
            (subst (λ z. all_of (is_of_run z) f.bindings ≡ true) ((eq_iff x run).0 e) s.read.own)
      | inr e ↦ rw (e, rows_of) (all_bindings-own d s.rest run s.others)
    ]

All-of-mem {ℓ κ} :
    {A : Type ℓ} (P : A → Type κ) (q : A → Bool) (xs : List A)
    → all_of q xs ≡ true
    → ((x : A) → Memᴰ x xs → q x ≡ true → P x)
    → All P xs
All-of-mem P q [] h f = tt
All-of-mem P q (x ∷ xs) h f =
    let (here, there) = and-both _ _ h in
    (f x (Memᴰ.head refl) here, All-of-mem P q xs there (λ y m. f y (Memᴰ.tail m)))

other_run : (b p : Option String) (r : String) → p ≢ some r → b ≡ some r → same_text b p ≡ false
other_run b p r n e = elim (Bool-cases (same_text b p)) [
  | inl y ↦ absurd (n (sym ((same_text_iff b p).0 y) ∙ e))
  | inr y ↦ y
]

module _ (complete : String → Bool) (expects : Option (Binding → Bool)) (p : Binding)
    (d d' : Files) where
  pub save_task_binding-file :
      (run : String)
      → p.run_id ≡ some run
      → save_task_binding complete expects p d ≡ some d'
      → get d' run ≡ some (next_file p (or_else (get d run) no_file))
  save_task_binding-file run o h =
      let s = save_task_binding-Saved complete expects p d d' h in
      let q = some-inj (sym s.of_run ∙ o) in
      let new = next_file p s.file in
      ap (λ z. get z run) s.result
      ∙ get-put s.run new d run
      ∙ rw ((eq_iff s.run run).1 q) refl
      ∙ ap (λ z. some (next_file p z)) (s.on_disk ∙ ap (λ z. or_else (get d z) no_file) q)

  -- A save that raises nothing leaves the file of every other run as it is; and each row in such a file
  -- is of another issue or role, has ended, is of a run that is complete, or is of the very task that
  -- is saved, at its place and with its topology.
  pub save_task_binding-elsewhere :
      (r : String)
      → save_task_binding complete expects p d ≡ some d'
      → p.run_id ≢ some r
      → (get d' r ≡ get d r) × All (StandsBeside complete p) (rows_of d r)
  save_task_binding-elsewhere r h n =
      let s = save_task_binding-Saved complete expects p d d' h in
      (
        ap (λ z. get z r) s.result
            ∙ get-put s.run (next_file p s.file) d r
            ∙ rw (differ s.run r (λ e. n (s.of_run ∙ ap some e))) refl,
        All-of-mem (StandsBeside complete p) (is_of_run r) (rows_of d r)
            (all_bindings-own d s.existing r s.read)
            (λ b m o.
              obstructs-StandsBeside complete _ _ p b
                (All-mem _ s.existing (any_of-All _ s.existing s.clear) b
                  (all_bindings-mem d s.existing r b s.read m))
                (other_run b.run_id p.run_id r n ((same_text_iff b.run_id (some r)).0 o))),
      )
