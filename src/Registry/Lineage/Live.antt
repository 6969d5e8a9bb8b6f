-- ===== src/Registry/Lineage/Live.antt =====
-- The live row of a lineage, and the row of a task id.
use vibe_guide_automation.Common.{
  String, false, Option, List, [], ◌∷◌, keep, ◌≡◌, refl, sym, ap, ◌∙◌, subst, absurd_eq, All-mem,
}
use mathlib.Core.List.{Memᴰ}
use vibe_guide_automation.Registry.{Binding, same_text, is_stopped}
use vibe_guide_automation.Registry.Lineage.{Lineage, IsFresh, same_text_iff, same_text-sym, last}

-- A row that is not stopped is the last of its lineage.
pub live_is_last :
    (p b : Binding) (bs : List Binding)
    → Lineage (b ∷ bs)
    → Memᴰ p (b ∷ bs)
    → is_stopped p ≡ false
    → last b bs ≡ p
unfolding last
live_is_last p b [] l (Memᴰ.head e) n = sym e
live_is_last p b [] l (Memᴰ.tail m) n = elim m [ ]
live_is_last p b (c ∷ bs) l (Memᴰ.head e) n = absurd_eq (sym n ∙ ap is_stopped e ∙ l.0.stopped)
live_is_last p b (c ∷ bs) l (Memᴰ.tail m) n = live_is_last p c bs l.2 m n

fresh-none :
    (task : Option String) (bs : List Binding)
    → IsFresh task bs
    → keep (λ (b : Binding). same_text b.task_id task) bs ≡ []
fresh-none task [] f = refl
fresh-none task (b ∷ bs) f = rw (f.0, keep) (fresh-none task bs f.1)

-- In a lineage a task id is of one row.
pub task-only :
    (p : Binding) (rows : List Binding)
    → Lineage rows
    → Memᴰ p rows
    → keep (λ b. same_text b.task_id p.task_id) rows ≡ p ∷ []
task-only p [] l m = elim m [ ]
task-only p (b ∷ bs) l (Memᴰ.head e) =
    subst (λ z. keep (λ x. same_text x.task_id z) (b ∷ bs) ≡ p ∷ [])
      (ap (λ (z : Binding). z.task_id) (sym e))
      (rw ((same_text_iff b.task_id b.task_id).1 refl, keep)
        (ap (λ z. b ∷ z) (fresh-none b.task_id bs l.1) ∙ ap (λ z. z ∷ []) (sym e)))
task-only p (b ∷ bs) l (Memᴰ.tail m) =
    rw (same_text-sym p.task_id b.task_id (All-mem _ bs l.1 p m), keep) (task-only p bs l.2 m)
