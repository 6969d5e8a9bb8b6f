-- ===== src/Stall/Each.antt =====
-- What `assess_stalls` of vibe_guide/stall.py records for each node of a run.
use mathlib.Core.Option
use vibe_guide_automation.Common.{
  String, Bool, true, false, not, Option, none, some, List, [], ◌∷◌, ◌≡◌, ◌≢◌, refl, sym, ap, ◌∙◌,
  ◌==◌, arith, eq_iff, or_else, Bool-cases, contains, inl, inr, is_some, subst, absurd_eq,
}
use vibe_guide_automation.Common.Dict.{Dict, get}
use vibe_guide_automation.Json.{Value, Members, object, text}
use vibe_guide_automation.Stall.{
  Entry, Assessment, open_nodes, assess_node, result_of, assess_stalls, next_entry,
  node_fingerprint, count_self_heal_attempts, is_text, field,
}
use vibe_guide_automation.Stall.Nodes.{
  AreDistinct, keys_of, ids, ids-open_nodes, get-first, get-later, assess_stalls-open,
}

-- The id is of a mapping whose status is not accepted.
pub record IsOpen (nodes : List (String × Value)) (id : String) (m : Members) : Type 0 where
  pub on_file : get nodes id ≡ some (object m)
  pub status : field m "status" ≢ text "accepted"

-- The id is of no node, of one that is accepted, or of one that is no mapping.
pub data IsSkipped (nodes : List (String × Value)) (id : String) : Type 0 where
  absent : get nodes id ≡ none → IsSkipped nodes id
  accepted :
      (m : Members)
      → get nodes id ≡ some (object m)
      → field m "status" ≡ text "accepted"
      → IsSkipped nodes id
  no_mapping :
      (v : Value) → get nodes id ≡ some v → ((m : Members) → v ≢ object m) → IsSkipped nodes id

abbrev is_object : Value → Bool
is_object (object m) = true
is_object _ = false

is_text-eq : (v : Value) (word : String) → is_text v word ≡ true → v ≡ text word
is_text-eq (text s) word h = ap text ((eq_iff s word).0 h)
is_text-eq v word h = absurd_eq h

not_accepted :
    (m : Members)
    → is_text (field m "status") "accepted" ≡ false
    → field m "status" ≢ text "accepted"
not_accepted m n e = absurd_eq (sym n ∙ ap (λ v. is_text v "accepted") e)

no_object : (v : Value) → is_object v ≡ false → (m : Members) → v ≢ object m
no_object v n m e = absurd_eq (sym n ∙ ap is_object e)

open_nodes-other :
    (x : String) (v : Value) (nodes : List (String × Value))
    → is_object v ≡ false
    → open_nodes ((x, v) ∷ nodes) ≡ open_nodes nodes
open_nodes-other x (object m) nodes n = absurd_eq (sym n)
open_nodes-other x v nodes n = refl

none-get :
    (nodes : List (String × Members)) (id : String)
    → contains (ids nodes) id ≡ false
    → get nodes id ≡ none
none-get [] id g = refl
none-get ((x, n) ∷ nodes) id g = ground (arith, none-get nodes id)

module _ (nodes : List (String × Value)) (id : String) where
  -- The node at the id is skipped or open, and what is assessed says so.
  data Seen : Type 0 where
    skipped : IsSkipped nodes id → get (open_nodes nodes) id ≡ none → Seen
    seen : (m : Members) → IsOpen nodes id m → get (open_nodes nodes) id ≡ some m → Seen

here-Seen :
    (x : String) (v : Value) (nodes : List (String × Value)) (id : String)
    → (x == id) ≡ true
    → contains (keys_of nodes) id ≡ false
    → Seen ((x, v) ∷ nodes) id
here-Seen x (object m) nodes id e n = elim (Bool-cases (is_text (field m "status") "accepted")) [
  | inl y ↦
      skipped (IsSkipped.accepted m (rw e refl) (is_text-eq (field m "status") "accepted" y))
        (rw y (none-get (open_nodes nodes) id (ids-open_nodes nodes id n)))
  | inr y ↦
      seen m (record { on_file = rw e refl; status = not_accepted m y })
        (rw y (get-first x id m (open_nodes nodes) e))
]
here-Seen x v nodes id e n =
    skipped (IsSkipped.no_mapping v (rw e refl) (no_object v refl))
      (none-get (open_nodes nodes) id (ids-open_nodes nodes id n))

there-open :
    (x : String) (v : Value) (nodes : List (String × Value)) (id : String)
    → (x == id) ≡ false
    → get (open_nodes ((x, v) ∷ nodes)) id ≡ get (open_nodes nodes) id
there-open x (object m) nodes id e = elim (Bool-cases (is_text (field m "status") "accepted")) [
  | inl y ↦ rw y refl
  | inr y ↦ rw y (get-later x id m (open_nodes nodes) e)
]
there-open x v nodes id e = refl

there-get :
    (x : String) (v : Value) (nodes : List (String × Value)) (id : String)
    → (x == id) ≡ false
    → get ((x, v) ∷ nodes) id ≡ get nodes id
there-get x v nodes id e = ground arith

there-IsSkipped :
    (x : String) (v : Value) (nodes : List (String × Value)) (id : String)
    → (x == id) ≡ false
    → IsSkipped nodes id
    → IsSkipped ((x, v) ∷ nodes) id
there-IsSkipped x v nodes id e (IsSkipped.absent g) =
    IsSkipped.absent (there-get x v nodes id e ∙ g)
there-IsSkipped x v nodes id e (IsSkipped.accepted m g h) =
    IsSkipped.accepted m (there-get x v nodes id e ∙ g) h
there-IsSkipped x v nodes id e (IsSkipped.no_mapping w g h) =
    IsSkipped.no_mapping w (there-get x v nodes id e ∙ g) h

there-Seen :
    (x : String) (v : Value) (nodes : List (String × Value)) (id : String)
    → (x == id) ≡ false
    → Seen nodes id
    → Seen ((x, v) ∷ nodes) id
there-Seen x v nodes id e (skipped k g) =
    skipped (there-IsSkipped x v nodes id e k) (there-open x v nodes id e ∙ g)
there-Seen x v nodes id e (seen m o g) =
    seen m (record { on_file = there-get x v nodes id e ∙ o.on_file; status = o.status })
      (there-open x v nodes id e ∙ g)

every-Seen :
    (nodes : List (String × Value)) (id : String) → AreDistinct (keys_of nodes) → Seen nodes id
every-Seen [] id d = skipped (IsSkipped.absent refl) refl
every-Seen ((x, v) ∷ nodes) id (d, ds) = elim (Bool-cases (x == id)) [
  | inl e ↦
      here-Seen x v nodes id e
        (subst (λ z. contains (keys_of nodes) z ≡ false) ((eq_iff x id).0 e) d)
  | inr e ↦ there-Seen x v nodes id e (every-Seen nodes id ds)
]

module _ (digest : Value → String) (nodes : List (String × Value)) (tasks : Option Members)
    (events : List Value) (previous : Option (Dict Entry)) (liveness : Dict String) where
  -- What is recorded at an id: of an open node the next entry after its own of the last beat, by its
  -- fingerprint, its count of attempts and its worker's token, and the result of that entry; of any
  -- other id nothing.
  pub data IsRecorded (id : String) (a : Assessment) : Type 0 where
    recorded :
        (m : Members) (e : Entry)
        → IsOpen nodes id m
        → e
          ≡ next_entry
              (get (or_else previous []) id)
              (node_fingerprint digest m tasks id)
              (or_else (get (count_self_heal_attempts events) id) 0)
              (get liveness id)
        → get a.entries id ≡ some e
        → get a.results id
          ≡ some (
              result_of
                (not (is_some previous))
                e
                (or_else (get (count_self_heal_attempts events) id) 0))
        → IsRecorded id a
    unrecorded :
        IsSkipped nodes id → get a.entries id ≡ none → get a.results id ≡ none → IsRecorded id a

  -- Where the ids of the nodes are distinct: an id of a mapping that is not accepted has as its entry the
  -- next one after its own entry of the last beat, by its fingerprint, its count of attempts and its
  -- worker's token, and as its result the one of that entry; an id of no node, of an accepted one or of
  -- no mapping has neither.
  pub assess_stalls-each :
      (id : String)
      → AreDistinct (keys_of nodes)
      → IsRecorded id (assess_stalls digest nodes tasks events previous liveness)
  unfolding assess_node
  assess_stalls-each id d =
      let (entry, result) = assess_stalls-open digest nodes tasks events previous liveness id d in
      elim (every-Seen nodes id d) [
        | skipped k g ↦ unrecorded k (entry ∙ ap (Option.map _) g) (result ∙ ap (Option.map _) g)
        | seen m o g ↦
            recorded m _ o refl (entry ∙ ap (Option.map _) g) (result ∙ ap (Option.map _) g)
      ]
