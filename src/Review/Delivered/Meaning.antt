-- ===== src/Review/Delivered/Meaning.antt =====
-- What the checks of `evaluate_delivery_evidence` in vibe_guide/evidence.py mean for the node, the
-- binding, the artifacts and the worker's report.
use vibe_guide_automation.Common.{
  String, true, false, not, ◌&&◌, ◌||◌, Option, none, some, List, [], ◌∷◌, ◌==◌, ◌≡◌, ◌↔◌, ◌⊎◌, inl,
  inr, refl, sym, ap, ◌∙◌, subst, contains, eq_iff, absurd_eq, Bool-cases, both_iff, not-true_iff,
  either_iff, none-some,
}
use mathlib.Core.List.{Memᴰ}
use vibe_guide_automation.Json.{
  Members, Value, object, array, text, int, bool, null, get_member, has_text, truthy,
}
use vibe_guide_automation.Review.{get_in, is_among}
use vibe_guide_automation.Review.Delivered.{
  has_part, is_blank, is_unclassifiable, Delivery, is_background, is_delivered, has_task, has_host,
  has_place, has_cursor, holds_placeholder, is_filled, has_marker, has_path, has_thread,
}

-- Nothing, null or the empty text.
pub data IsBlank (o : Option Value) : Type 0 where
  absent : o ≡ none → IsBlank o
  empty_value : o ≡ some null → IsBlank o
  empty_text : o ≡ some (text "") → IsBlank o

is_blank-IsBlank : (o : Option Value) → is_blank o ≡ true → IsBlank o
is_blank-IsBlank none h = IsBlank.absent refl
is_blank-IsBlank (some null) h = IsBlank.empty_value refl
is_blank-IsBlank (some (text s)) h =
    IsBlank.empty_text (ap (λ z. some (text z)) ((eq_iff s "").0 h))
is_blank-IsBlank (some (object m)) h = absurd_eq h
is_blank-IsBlank (some (array vs)) h = absurd_eq h
is_blank-IsBlank (some (int n)) h = absurd_eq h
is_blank-IsBlank (some (bool b)) h = absurd_eq h

IsBlank-is_blank : (o : Option Value) → IsBlank o → is_blank o ≡ true
IsBlank-is_blank o (IsBlank.absent e) = ap is_blank e
IsBlank-is_blank o (IsBlank.empty_value e) = ap is_blank e
IsBlank-is_blank o (IsBlank.empty_text e) = ap is_blank e

is_blank_iff : (o : Option Value) → (is_blank o ≡ true) ↔ IsBlank o
is_blank_iff o = (is_blank-IsBlank o, IsBlank-is_blank o)

contains-Memᴰ : (xs : List String) (k : String) → contains xs k ≡ true → Memᴰ k xs
contains-Memᴰ [] k h = absurd_eq h
contains-Memᴰ (x ∷ xs) k h =
    let i = either_iff (x == k) (contains xs k) (eq_iff x k) (λ e. e, λ e. e) in
    elim (i.0 h) [ inl e ↦ Memᴰ.head (sym e) | inr m ↦ Memᴰ.tail (contains-Memᴰ xs k m) ]

Memᴰ-contains : (xs : List String) (k : String) → Memᴰ k xs → contains xs k ≡ true
Memᴰ-contains [] k m = elim m [ ]
Memᴰ-contains (x ∷ xs) k (Memᴰ.head e) = rw ((eq_iff x k).1 (sym e)) refl
Memᴰ-contains (x ∷ xs) k (Memᴰ.tail m) =
    let i = either_iff (x == k) (contains xs k) (eq_iff x k) (λ e. e, λ e. e) in
    i.1 (inr (Memᴰ-contains xs k m))

-- One of the words.
abbrev pub IsWord : List String → Option Value → Type 0
IsWord words v = (w : String) × Memᴰ w words × (v ≡ some (text w))

among-IsWord : (words : List String) (v : Option Value) → is_among words v ≡ true → IsWord words v
among-IsWord words (some (text s)) h = (s, contains-Memᴰ words s h, refl)
among-IsWord words none h = absurd_eq h
among-IsWord words (some v) h = absurd_eq h

among_iff : (words : List String) (v : Option Value) → (is_among words v ≡ true) ↔ IsWord words v
among_iff words v =
    (among-IsWord words v, λ (w, m, e). ap (is_among words) e ∙ Memᴰ-contains words w m)

-- A background session, with the caller's proof of its delivery.
abbrev pub IsBackground : Delivery → Type 0
IsBackground d =
    (d.background_receipt ≡ true) × IsWord ("background" ∷ []) (get_member d.binding "mode")

is_background_iff : (d : Delivery) → (is_background d ≡ true) ↔ IsBackground d
is_background_iff d =
    both_iff d.background_receipt _ (λ h. h, λ h. h)
      (among_iff ("background" ∷ []) (get_member d.binding "mode"))

-- Whose delivery it is and from where.
pub record IsIdentified (d : Delivery) : Type 0 where
  pub delivered : IsWord ("DELIVERED" ∷ "delivered" ∷ []) (get_member d.node "status")
  pub task :
      ¬ (IsBlank (get_member d.binding "task_id") × IsBlank (get_member d.binding "threadId"))
  pub host :
      (¬ (IsBlank (get_member d.binding "host") × IsBlank (get_member d.binding "hostId")))
      ⊎ IsBackground d
  pub place :
      ¬ (IsBlank (get_member d.binding "worktree") ⊎ IsBlank (get_member d.binding "branch"))
  pub cursor :
      ((¬ IsBlank (get_member d.binding "cursor")) ⊎ (d.self_report_receipt ≡ true))
      ⊎ IsBackground d

pub IsIdentified-iff :
    (d : Delivery)
    → ((is_delivered d && (has_task d && (has_host d && (has_place d && has_cursor d)))) ≡ true)
      ↔ IsIdentified d
IsIdentified-iff d =
    let blank : (key : String)
        → (is_blank (get_member d.binding key) ≡ true) ↔ IsBlank (get_member d.binding key) =
      λ key. is_blank_iff (get_member d.binding key) in
    let e =
      both_iff (is_delivered d) _
        (among_iff ("DELIVERED" ∷ "delivered" ∷ []) (get_member d.node "status"))
        (both_iff (has_task d) _
          (not-true_iff _ (both_iff _ _ (blank "task_id") (blank "threadId")))
          (both_iff (has_host d) _
            (either_iff _ (is_background d)
              (not-true_iff _ (both_iff _ _ (blank "host") (blank "hostId"))) (is_background_iff d))
            (both_iff (has_place d) (has_cursor d)
              (not-true_iff _ (either_iff _ _ (blank "worktree") (blank "branch")))
              (either_iff _ (is_background d)
                (either_iff _ d.self_report_receipt (not-true_iff _ (blank "cursor"))
                  (λ h. h, λ h. h))
                (is_background_iff d))))) in
    (
      λ h.
          let (a, (b, (c, (f, g)))) = e.0 h in
          record { delivered = a; task = b; host = c; place = f; cursor = g },
      λ s. e.1 (s.delivered, (s.task, (s.host, (s.place, s.cursor)))),
    )

module _ (nfkc : String → String) where
  -- A text that is blank, or in which the template's placeholder is left.
  pub data IsPlaceholder (v : Value) : Type 0 where
    blank : (s : String) → v ≡ text s → has_text (nfkc s) ≡ false → IsPlaceholder v
    unfilled : (s : String) → v ≡ text s → has_part "<填写>" (nfkc s) ≡ true → IsPlaceholder v

  holds_placeholder-IsPlaceholder : (v : Value) → holds_placeholder nfkc v ≡ true → IsPlaceholder v
  holds_placeholder-IsPlaceholder (text s) h = elim (Bool-cases (has_text (nfkc s))) [
    | inr e ↦ IsPlaceholder.blank s refl e
    | inl e ↦
        IsPlaceholder.unfilled s refl (subst (λ b. (not b || has_part "<填写>" (nfkc s)) ≡ true) e h)
  ]
  holds_placeholder-IsPlaceholder v h = absurd_eq h

  IsPlaceholder-holds_placeholder : (v : Value) → IsPlaceholder v → holds_placeholder nfkc v ≡ true
  IsPlaceholder-holds_placeholder v (IsPlaceholder.blank s e h) =
      ap (holds_placeholder nfkc) e ∙ ap (λ b. not b || has_part "<填写>" (nfkc s)) h
  IsPlaceholder-holds_placeholder v (IsPlaceholder.unfilled s e h) =
      ap (holds_placeholder nfkc) e
      ∙ (either_iff (not (has_text (nfkc s))) _ (λ h. h, λ h. h) (λ h. h, λ h. h)).1 (inr h)

  -- A value that is there, is true and is no placeholder.
  abbrev pub IsFilled : Option Value → Type 0
  IsFilled o = (v : Value) × (o ≡ some v) × (truthy v ≡ true) × (¬ IsPlaceholder v)

  value_iff :
      (v : Value)
      → ((truthy v && not (holds_placeholder nfkc v)) ≡ true)
        ↔ ((truthy v ≡ true) × (¬ IsPlaceholder v))
  value_iff v =
      both_iff (truthy v) _ (λ h. h, λ h. h)
        (not-true_iff _ (holds_placeholder-IsPlaceholder v, IsPlaceholder-holds_placeholder v))

  is_filled_iff : (o : Option Value) → (is_filled nfkc o ≡ true) ↔ IsFilled o
  is_filled_iff none = (λ h. absurd_eq h, λ (v, e, t, n). none-some e)
  is_filled_iff (some v) = (
    λ h. let (t, n) = (value_iff v).0 h in (v, refl, t, n),
    λ (w, e, t, n). ap (is_filled nfkc) e ∙ (value_iff w).1 (t, n),
  )

  -- What was handed over.
  pub record IsHandedOver (d : Delivery) : Type 0 where
    pub marker : IsFilled (get_in (some d.artifacts) "completion_marker")
    pub path : IsFilled (get_in (some d.artifacts) "delivery_path")
    pub thread :
        IsWord
          ("complete" ∷ "completed" ∷ "DELIVERED" ∷ [])
          (get_in (some d.artifacts) "thread_status")

  pub IsHandedOver-iff :
      (d : Delivery)
      → ((has_marker nfkc d && (has_path nfkc d && has_thread nfkc d)) ≡ true) ↔ IsHandedOver d
  IsHandedOver-iff d =
      let e =
        both_iff (has_marker nfkc d) _ (is_filled_iff _)
          (both_iff (has_path nfkc d) (has_thread nfkc d) (is_filled_iff _) (among_iff _ _)) in
      (
        λ h. let (a, (b, c)) = e.0 h in record { marker = a; path = b; thread = c },
        λ s. e.1 (s.marker, (s.path, s.thread)),
      )

-- A mapping, or nothing.
pub data IsClassifiable (v : Value) : Type 0 where
  nothing : v ≡ null → IsClassifiable v
  mapping : (m : Members) → v ≡ object m → IsClassifiable v

is_unclassifiable-IsClassifiable : (v : Value) → is_unclassifiable v ≡ false → IsClassifiable v
is_unclassifiable-IsClassifiable null h = IsClassifiable.nothing refl
is_unclassifiable-IsClassifiable (object m) h = IsClassifiable.mapping m refl
is_unclassifiable-IsClassifiable v h = absurd_eq (sym h)

IsClassifiable-is_unclassifiable : (v : Value) → IsClassifiable v → is_unclassifiable v ≡ false
IsClassifiable-is_unclassifiable v (IsClassifiable.nothing e) = ap is_unclassifiable e
IsClassifiable-is_unclassifiable v (IsClassifiable.mapping m e) = ap is_unclassifiable e

pub IsClassifiable-iff : (v : Value) → (is_unclassifiable v ≡ false) ↔ IsClassifiable v
IsClassifiable-iff v = (is_unclassifiable-IsClassifiable v, IsClassifiable-is_unclassifiable v)
