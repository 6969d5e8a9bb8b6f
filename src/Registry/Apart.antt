-- ===== src/Registry/Apart.antt =====
-- What keeps developers and reviewers apart in the registries of vibe_guide/task_registry.py.
use vibe_guide_automation.Common.{
  String, Bool, true, false, not, ◌&&◌, ◌||◌, Option, none, some, List, [], ◌∷◌, ◌≡◌, ◌≢◌, ◌⊎◌, inl,
  inr, refl, sym, ap, ◌∙◌, subst, ◌==◌, arith, eq_iff, Bool-cases, absurd_eq, and-both,
  if◌then◌else◌, All-mem,
}
use mathlib.Core.List.{Memᴰ}
use mathlib.Core.List.Memᴰ
use vibe_guide_automation.Registry.{
  Binding, File, Files, same_text, same_identity, all_bindings, obstructs, replace_or_append,
  written, save_task_binding, shares_task,
}
use vibe_guide_automation.Registry.Lineage.{same_text_iff, any_of-All}
use vibe_guide_automation.Registry.Rows.{rows_of, all_bindings-Splits}
use vibe_guide_automation.Registry.Save.{Saved, save_task_binding-Saved}
use vibe_guide_automation.Registry.Reach.{Reachable, none_saved, saved, rows_of-put}

-- Every row of a run is among all rows.
pub all_bindings-mem :
    (d : Files) (rows : List Binding) (run : String) (b : Binding)
    → all_bindings d ≡ some rows
    → Memᴰ b (rows_of d run)
    → Memᴰ b rows
unfolding all_bindings
all_bindings-mem [] rows run b h = λ m. elim m [ ]
all_bindings-mem ((x, f) ∷ d) rows run b h =
    let s = all_bindings-Splits x f d rows h in
    elim (Bool-cases (x == run)) [
      | inl e ↦ rw (e, rows_of) (λ m. subst (Memᴰ b) s.joined (Memᴰ.append_left s.rest m))
      | inr e ↦
          rw (e, rows_of)
            (λ m.
              subst (Memᴰ b) s.joined
                (Memᴰ.append_right f.bindings (all_bindings-mem d s.rest run b s.others m)))
    ]

mem-replace :
    (p b : Binding) (bs : List Binding) → Memᴰ b (replace_or_append p bs) → (b ≡ p) ⊎ Memᴰ b bs
unfolding replace_or_append
mem-replace p b [] = λ m. elim m [ Memᴰ.head e ↦ inl e | Memᴰ.tail m ↦ inr m ]
mem-replace p b (c ∷ bs) = elim (Bool-cases (same_identity c p)) [
  | inl e ↦ rw e λ m. elim m [ Memᴰ.head e ↦ inl e | Memᴰ.tail m ↦ inr (Memᴰ.tail m) ]
  | inr e ↦ rw e λ m. elim m [
    | Memᴰ.head e ↦ inr (Memᴰ.head e)
    | Memᴰ.tail m ↦ elim (mem-replace p b bs m) [ inl e ↦ inl e | inr m ↦ inr (Memᴰ.tail m) ]
  ]
]

abbrev pub is_visible_sdd : Binding → Bool
is_visible_sdd b = b.topology == "visible-sdd"

-- Two rows of one issue and different roles have no task in common, and a reviewer's row has no
-- row of the visible-sdd topology beside it.
pub record Apart (b c : Binding) : Type 0 where
  pub tasks : shares_task b c ≡ false
  pub single :
      ((is_visible_sdd b || is_visible_sdd c) && (c.role == "reviewer" || b.role == "reviewer"))
      ≡ false

IsApart : Files → Type 0
IsApart d =
    (r r' : String) (b c : Binding)
    → Memᴰ b (rows_of d r)
    → Memᴰ c (rows_of d r')
    → b.issue_id ≡ c.issue_id
    → b.role ≢ c.role
    → Apart b c

other_role :
    (i sdd e x y : Bool)
    → i ≡ true
    → e ≡ false
    → (i && (sdd || (if e then x else y))) ≡ false
    → (sdd ≡ false) × (y ≡ false)
other_role true true e x y h j k = absurd_eq (sym k)
other_role true false true x y h j k = absurd_eq (sym j)
other_role true false false x y h j k = (refl, k)
other_role false sdd e x y h j k = absurd_eq h

pub differ : (a b : String) → a ≢ b → (a == b) ≡ false
differ a b n = elim (Bool-cases (a == b)) [ inl e ↦ absurd (n ((eq_iff a b).0 e)) | inr e ↦ e ]

shared : (b c : Binding) → shares_task c b ≡ true → shares_task b c ≡ true
shared b c e =
    let (x, same) =
      and-both (not (same_text c.task_id none) && not (same_text c.task_id (some ""))) _ e in
    let q = (same_text_iff c.task_id b.task_id).0 same in
    subst
      (λ z. (not (same_text z none) && not (same_text z (some "")) && same_text z c.task_id) ≡ true)
      q (rw (x, (same_text_iff c.task_id c.task_id).1 refl) refl)

shares_task-sym : (b c : Binding) → shares_task b c ≡ false → shares_task c b ≡ false
shares_task-sym b c h = elim (Bool-cases (shares_task c b)) [
  | inl e ↦ absurd_eq (sym h ∙ shared b c e)
  | inr e ↦ e
]

obstructs-Apart :
    (complete : String → Bool) (matched : Option Binding) (same : List Binding) (p b : Binding)
    → obstructs complete matched same p b ≡ false
    → b.issue_id ≡ p.issue_id
    → b.role ≢ p.role
    → Apart b p
unfolding obstructs
obstructs-Apart complete matched same p b h i n =
    let (single, tasks) =
      other_role _ _ _ _ _ ((eq_iff b.issue_id p.issue_id).1 i) (differ b.role p.role n) h in
    record { tasks = tasks; single = single }

swapped : (a b c d : Bool) → ((a || b) && (c || d)) ≡ false → ((b || a) && (d || c)) ≡ false
swapped a b c d h = ground arith

Apart-sym : (b c : Binding) → Apart b c → Apart c b
Apart-sym b c a = record {
  tasks = shares_task-sym b c a.tasks;
  single =
      swapped (is_visible_sdd b) (is_visible_sdd c) (c.role == "reviewer") (b.role == "reviewer")
        a.single;
}

module _ (complete : String → Bool) (expects : Option (Binding → Bool)) (p : Binding)
    (d d' : Files) where
  Saved-Apart :
      (s : Saved complete p d d') (r : String) (b : Binding)
      → Memᴰ b (rows_of d r)
      → b.issue_id ≡ p.issue_id
      → b.role ≢ p.role
      → Apart b p
  Saved-Apart s r b m = obstructs-Apart complete _ _ p b (
      All-mem _ s.existing (any_of-All _ s.existing s.clear) b
        (all_bindings-mem d s.existing r b s.read m))

  Saved-cases :
      (s : Saved complete p d d') (r : String) (b : Binding)
      → Memᴰ b (rows_of (written p d s.run s.file) r)
      → (b ≡ p) ⊎ Memᴰ b (rows_of d r)
  Saved-cases s r b = elim (Bool-cases (s.run == r)) [
    | inl e ↦ λ m.
        elim (mem-replace p b s.file.bindings
          (subst (Memᴰ b) (rows_of-put d s.run r _ ∙ rw e refl) m)) [
            | inl q ↦ inl q
            | inr m ↦ inr (
                subst (Memᴰ b)
                  (ap (λ (z : File). z.bindings) s.on_disk ∙ ap (rows_of d) ((eq_iff s.run r).0 e))
                  m)
          ]
    | inr e ↦ λ m. inr (subst (Memᴰ b) (rows_of-put d s.run r _ ∙ rw e refl) m)
  ]

  Saved-IsApart : IsApart d → save_task_binding complete expects p d ≡ some d' → IsApart d'
  unfolding IsApart
  Saved-IsApart a h =
      let s = save_task_binding-Saved complete expects p d d' h in
      subst IsApart (sym s.result) λ r r' b c m m' i n. elim (Saved-cases s r b m) [
        | inl q ↦ elim (Saved-cases s r' c m') [
          | inl q' ↦ absurd (n (ap (λ (z : Binding). z.role) (q ∙ sym q')))
          | inr m' ↦
              subst (λ z. Apart z c) (sym q)
                (Apart-sym c p (
                  Saved-Apart s r' c m' (sym i ∙ ap (λ (z : Binding). z.issue_id) q)
                    (λ e. n (ap (λ (z : Binding). z.role) q ∙ sym e))))
        ]
        | inr m ↦ elim (Saved-cases s r' c m') [
          | inl q' ↦
              subst (λ z. Apart b z) (sym q')
                (Saved-Apart s r b m (i ∙ ap (λ (z : Binding). z.issue_id) q')
                  (λ e. n (e ∙ ap (λ (z : Binding). z.role) (sym q'))))
          | inr m' ↦ a r r' b c m m' i n
        ]
      ]

every_IsApart : (d : Files) → Reachable d → IsApart d
unfolding IsApart
every_IsApart _ none_saved = λ r r' b c m m' i n. elim m [ ]
every_IsApart _ (saved complete expects p {d = d} {d' = d'} r h) =
    Saved-IsApart complete expects p d d' (every_IsApart d r) h

-- After any sequence of saves, two rows of one issue in any two runs whose roles differ have no task
-- in common, and if one of the two is a reviewer's, neither has the visible-sdd topology.
pub Reachable-Apart :
    (d : Files) (r r' : String) (b c : Binding)
    → Reachable d
    → Memᴰ b (rows_of d r)
    → Memᴰ c (rows_of d r')
    → b.issue_id ≡ c.issue_id
    → b.role ≢ c.role
    → Apart b c
unfolding IsApart
Reachable-Apart d r r' b c h = every_IsApart d h r r' b c
