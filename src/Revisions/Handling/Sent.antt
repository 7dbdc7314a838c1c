-- ===== src/Revisions/Handling/Sent.antt =====
-- The cursor of the list of revisions after its operation and layers had a message or an intent, and
-- after a search (internal/ui/revisions/revisions.go).
use jjui.Jj.Selections.{Commit, equal}
use mathlib.Core.Path.{subst}
use jjui.Prelude.{
  ℕ, ◌+◌, ◌≡◌, refl, sym, ap, inl, inr, String, Bool, true, false, Option, none, some, List, [],
  ◌∷◌, map, arith, if◌then◌else◌, ◌==◌, ◌≤◌, ◌<◌, suc, length, Bool-cases,
}
use jjui.Prelude.Int.{ℤ, pos, ◌+ℤ◌, ◌-ℤ◌, eq_of_parts, int_laws}
use jjui.Prelude.Texts.{is_empty}
use jjui.Revisions.{selected_revision}
use jjui.Revisions.Cursor.{is_placed, is_placed-set_cursor}
use jjui.Revisions.Intents.{search}
use jjui.Revisions.Layers.{ImmediateModel, RevisionsView, base_operation}
use jjui.Revisions.Sending.{
  Models, Answer, move_cursor, update_base, update_active, update_each, update_operations,
  operation_selection_changed, keep_active, try_active,
}
use jjui.Search.{circular_search, search_from}
use jjui.Search.Order.{circular_search-first_match, first_match, forward, backwards}

-- The cursor of the list is on a row, or there are none.
abbrev pub IsPlaced : RevisionsView → Type 0
IsPlaced v = is_placed v.list ≡ true

pub move_cursor-IsPlaced :
    (to : Option ℤ) (v : RevisionsView) → IsPlaced v → IsPlaced (move_cursor to v)
unfolding move_cursor
move_cursor-IsPlaced none v h = h
move_cursor-IsPlaced (some i) v h = is_placed-set_cursor i v.list h

module _ {M I F : Type 0} (models : Models M I F) where
  pub update_base-IsPlaced :
      (msg : M) (v : RevisionsView) → IsPlaced v → IsPlaced (update_base models msg v).0
  unfolding update_base
  update_base-IsPlaced msg v h =
      let a = models.update msg (base_operation v) in
      move_cursor-IsPlaced a.to_row (record v { base_op = some a.next }) h

  pub active-IsPlaced :
      (msg : M) (layers : List ImmediateModel) (v : RevisionsView)
      → v.layers ≡ layers
      → IsPlaced v
      → IsPlaced (update_active models msg v).0
  unfolding update_active
  active-IsPlaced msg [] v e h = rw (update_active, e) (update_base-IsPlaced msg v h)
  active-IsPlaced msg (layer ∷ below) v e h =
      let a = models.update msg layer in
      rw (update_active, e) (move_cursor-IsPlaced a.to_row (record v { layers = a.next ∷ below }) h)

  pub update_each-IsPlaced :
      (msg : M) (layers : List ImmediateModel) (v : RevisionsView)
      → IsPlaced v
      → IsPlaced (update_each models msg layers v).1
  unfolding update_each
  update_each-IsPlaced msg [] v h = h
  update_each-IsPlaced msg (layer ∷ below) v h =
      let a = models.update msg layer in
      move_cursor-IsPlaced a.to_row (update_each models msg below v).1
        (update_each-IsPlaced msg below v h)

  pub update_operations-IsPlaced :
      (msg : M) (v : RevisionsView) → IsPlaced v → IsPlaced (update_operations models msg v).0
  unfolding update_operations
  update_operations-IsPlaced msg v h =
      let w = (update_base models msg v).0 in
      update_each-IsPlaced msg w.layers w (update_base-IsPlaced msg v h)

  pub changed-IsPlaced :
      (previous now : Option Commit) (v : RevisionsView)
      → selected_revision v.list ≡ now
      → IsPlaced v
      → IsPlaced (operation_selection_changed models previous v).0
  unfolding operation_selection_changed
  changed-IsPlaced previous none v e h = rw (operation_selection_changed, e) h
  changed-IsPlaced previous (some c) v e h = elim (Bool-cases (equal previous (some c))) [
    | inl same ↦ rw (operation_selection_changed, e, same) h
    | inr other ↦
        rw (operation_selection_changed, e, other)
          (update_operations-IsPlaced (models.selection_changed c) v h)
  ]

  keep_active-IsPlaced :
      (layer : ImmediateModel) (layers : List ImmediateModel) (v : RevisionsView)
      → v.layers ≡ layers
      → IsPlaced v
      → IsPlaced (keep_active models layer v)
  unfolding keep_active
  keep_active-IsPlaced layer [] v e h = rw (keep_active, e) h
  keep_active-IsPlaced layer (old ∷ below) v e h = rw (keep_active, e) h

  pub tried-IsPlaced :
      (intent : I) (active : ImmediateModel) (answer : Option (Answer ImmediateModel F × Bool))
      (v : RevisionsView)
      → models.handle_intent intent active ≡ answer
      → IsPlaced v
      → IsPlaced (try_active models intent active v).0
  unfolding try_active
  tried-IsPlaced intent active none v e h = rw (try_active, e) h
  tried-IsPlaced intent active (some (a, handled)) v e h =
      rw (try_active, e)
        (move_cursor-IsPlaced a.to_row (keep_active models a.next v)
          (keep_active-IsPlaced a.next v.layers v refl h))

abbrev pub cycled : (reverse : Bool) → ℤ → ℤ
cycled reverse cursor = if reverse then cursor -ℤ pos 1 else cursor +ℤ pos 1

module _ (texts_of : Commit → List String) where
  length-texts : (rows : List Commit) → length (map texts_of rows) ≡ length rows
  length-texts [] = refl
  length-texts (c ∷ rows) = ap suc (length-texts rows)

  abbrev pub Found : Option ℤ → Type 0
  Found o = (i : ℤ) × (o ≡ some i)

  -- A search from one of the rows, or from one past them, comes to an index.
  search_on :
      (s : ℕ) (v : RevisionsView)
      → s ≤ length v.list.rows
      → Found (search texts_of (pos s) false v) × Found (search texts_of (pos s -ℤ pos 1) true v)
  unfolding search circular_search
  search_on s v h =
      let items = map texts_of v.list.rows in
      let cursor = pos v.list.cursor in
      elim (Bool-cases (is_empty v.quick_search)) [
        | inl e ↦ (
          (cursor, rw (search, circular_search, e) refl),
          (cursor, rw (search, circular_search, e) refl),
        )
        | inr e ↦
            let (on, back) =
              circular_search-first_match items v.quick_search cursor s e
                (omega (arith, h, length-texts v.list.rows)) in
            (
              (first_match items v.quick_search cursor (forward s (length items)), on),
              (first_match items v.quick_search cursor (backwards s (length items)), back),
            )
      ]

  search_none :
      (start : ℤ) (b : Bool) (rows : List Commit) (v : RevisionsView)
      → v.list.rows ≡ rows
      → length rows ≡ 0
      → Found (search texts_of start b v)
  unfolding search circular_search search_from
  search_none start b (c ∷ rows) v e z = ground arith
  search_none start b [] v e z = elim (Bool-cases (is_empty v.quick_search)) [
    | inl q ↦ (pos v.list.cursor, rw (search, circular_search, q) refl)
    | inr q ↦ (pos v.list.cursor, rw (search, circular_search, q, e) refl)
  ]

  cycle_in_some :
      (reverse : Bool) (v : RevisionsView)
      → v.list.cursor < length v.list.rows
      → Found (search texts_of (cycled reverse (pos v.list.cursor)) reverse v)
  cycle_in_some true v h = (search_on v.list.cursor v (omega (arith, h))).1
  cycle_in_some false v h =
      subst (λ i. Found (search texts_of i false v))
        (sym (eq_of_parts (pos v.list.cursor +ℤ pos 1) (pos (v.list.cursor + 1)) (omega int_laws)))
        (search_on (v.list.cursor + 1) v (omega (arith, h))).0

  pub search_first : (v : RevisionsView) → Found (search texts_of (pos 0) false v)
  search_first v = (search_on 0 v (omega arith)).0

  pub search_cycle :
      (reverse : Bool) (v : RevisionsView)
      → IsPlaced v
      → Found (search texts_of (cycled reverse (pos v.list.cursor)) reverse v)
  search_cycle reverse v h = elim (Bool-cases (length v.list.rows == 0)) [
    | inl z ↦
        search_none (cycled reverse (pos v.list.cursor)) reverse v.list.rows v refl (ground arith)
    | inr z ↦ cycle_in_some reverse v (ground arith)
  ]
