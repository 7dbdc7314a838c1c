-- ===== src/Revisions/Handling/Own.antt =====
-- The cursor of the list of revisions after each intent (HandleIntent of
-- internal/ui/revisions/revisions.go).
use jjui.Jj.Commands.Queries.{get_parent}
use jjui.Jj.Files.{FileName}
use jjui.Jj.Selections.{Commit, SelectedRevisions, get_change_id}
use jjui.Prelude.{
  ℕ, ◌≡◌, refl, inl, inr, String, Bool, true, false, not, ◌||◌, Option, none, some, List, [], ◌∷◌,
  arith, ltb, length, Bool-cases,
}
use jjui.Prelude.Int.{ℤ, pos}
use jjui.Revisions.{
  selected_revisions, Model, selected_revision, set_cursor, toggle_at, go_to_top, go_to_bottom,
  select_revision_exact, clear_checked_revisions,
}
use jjui.Revisions.Answered.{is_placed-go_to_top, is_placed-go_to_bottom}
use jjui.Revisions.Cursor.{is_placed, is_placed-set_cursor, is_placed-refresh}
use jjui.Revisions.Handling.Jump.{can_jump, started_jump-Starts}
use jjui.Revisions.Handling.{Message, Updated, listed}
use jjui.Revisions.Handling.Sent.{IsPlaced, tried-IsPlaced, search_cycle, cycled}
use jjui.Revisions.Intents.{
  Intent, Effect, Handled, search, commands, asking, on_moved, on_found, start, on_start,
  on_squashed, show_diff_of, handle_own, after_active, on_cancel, handle_intent, cancel_intent,
  quick_search, other_intent, start_ace_jump, open_details_intent, commit_working_copy_intent,
  open_diff_range, open_new_between, revisions_toggle_select, go_to_top_intent, go_to_bottom_intent,
  quick_search_clear, open_squash, open_on, open_on_commit, open_evolog, open_inline_describe,
  diff_edit_intent, open_annotation_intent, show_diff, start_new_intent, describe_intent,
  start_edit_intent, start_split_intent, open_set_bookmark, navigate_intent, refresh_intent,
  quick_search_cycle, diff_of, load_rows,
}
use jjui.Revisions.Layers.{
  RevisionsView, active_model, push_layer, reset_operations, set_base_operation, in_normal_mode,
  cancel, handle_quick_search,
}
use jjui.Revisions.Loading.{refresh}
use jjui.Revisions.Placed.{Answers, navigate-Answers, is_placed-toggle_at}
use jjui.Revisions.Moves.{navigate}
use jjui.Revisions.Sending.{open_operation, open_layer, Models, try_active}
use jjui.Revisions.Starting.{
  Started, given_or_selected, commit_or_selected, to_parent_or_down, start_squash, start_operation,
  start_commit_operation, open_details, start_evolog, start_inline_describe, start_new,
  start_commit_working_copy, start_edit, start_diff_edit, start_describe, start_split,
  open_annotation, start_bookmark_set, nothing_started, operation, commit_operation, view_of,
  set_bookmark, diff_range, new_between, run_command, run_interactive, annotation_show, squash,
}

module _ {F : Type 0} where
  abbrev pub Handles : Handled F → Type 0
  Handles r =
      (t : RevisionsView) × (effects : List (Effect F)) × (handled : Bool) × (r
        ≡ some (t, effects, handled))
      × IsPlaced t

  abbrev pub Updates : Updated F → Type 0
  Updates r =
      (t : RevisionsView) × (effects : List (Effect F)) × (r ≡ some (t, effects)) × IsPlaced t

  moved-Handles :
      (r : Option (Model × Bool)) (v : RevisionsView) → Answers r → Handles (on_moved r v)
  moved-Handles r v (m, more, e, h) = (record v { list = m }, asking more, true, rw e refl, h)

  found-Handles :
      (r : Option ℤ) (v : RevisionsView)
      → (i : ℤ) × (r ≡ some i)
      → IsPlaced v
      → Handles (on_found r v)
  found-Handles r v (i, e) h = (
    record v { list = set_cursor i v.list },
    [],
    true,
    rw e refl,
    is_placed-set_cursor i v.list h,
  )

  pub listed-Updates :
      (r : Option (Model × Bool)) (v : RevisionsView) → Answers r → Updates (listed r v)
  listed-Updates r v (m, more, e, h) = (record v { list = m }, asking more, rw e refl, h)

module _ (run : List String → String × Bool) where
  parent-placed :
      (selected : SelectedRevisions) (o : Option ℕ) (m : Model)
      → select_revision_exact (run (get_parent selected)).0 m.rows ≡ o
      → is_placed m ≡ true
      → is_placed (to_parent_or_down run selected m) ≡ true
  unfolding to_parent_or_down set_cursor
  parent-placed selected none m e h = rw (to_parent_or_down, e) (ground arith)
  parent-placed selected (some i) m e h = rw (to_parent_or_down, e) (ground arith)

  either_placed :
      (cs : List Commit) (m moved : Model) (s : Started)
      → is_placed m ≡ true
      → is_placed moved ≡ true
      → is_placed
          (elim cs as (λ xs. Model × Started) [ [] ↦ (m, nothing_started) | d ∷ ds ↦ (moved, s) ]).0
        ≡ true
  either_placed [] m moved s h k = h
  either_placed (c ∷ cs) m moved s h k = k

  squash-placed :
      (given : SelectedRevisions) (files : List FileName) (m : Model)
      → is_placed m ≡ true
      → is_placed (start_squash run files given m).0 ≡ true
  unfolding start_squash
  squash-placed given files m h =
      let selected = given_or_selected given m in
      let moved = to_parent_or_down run selected m in
      either_placed selected.revisions m moved
        (operation (squash files) selected (selected_revision moved)) h
        (parent-placed selected (select_revision_exact (run (get_parent selected)).0 m.rows) m refl
          h)

module _ {M F : Type 0} (models : Models M Intent F) where
  start-IsPlaced : (s : Started) (v : RevisionsView) → IsPlaced v → IsPlaced (start models s v).0
  unfolding start open_operation set_base_operation
  start-IsPlaced nothing_started v h = h
  start-IsPlaced (operation kind selected current) v h = h
  start-IsPlaced (commit_operation kind c current) v h = h
  start-IsPlaced (view_of name c) v h = h
  start-IsPlaced (set_bookmark revision value) v h = h
  start-IsPlaced (diff_range current) v h = h
  start-IsPlaced (new_between selected current) v h = h
  start-IsPlaced (run_command args select) v h = h
  start-IsPlaced (run_interactive args) v h = h
  start-IsPlaced (annotation_show id) v h = h

  on_start-Handles : (s : Started) (v : RevisionsView) → IsPlaced v → Handles (on_start models s v)
  on_start-Handles s v h =
      ((start models s v).0, (start models s v).1, true, refl, start-IsPlaced s v h)

module _ (run : List String → String × Bool) (texts_of : Commit → List String) {F : Type 0}
    (models : Models Message Intent F) where
  squashed-Handles :
      (r : Model × Started) (v : RevisionsView)
      → is_placed r.0 ≡ true
      → Handles (on_squashed run texts_of models r v)
  squashed-Handles r v h = on_start-Handles models r.1 (record v { list = r.0 }) h

  diff-Handles :
      (o : Option Commit) (v : RevisionsView)
      → IsPlaced v
      → Handles (show_diff_of run texts_of models o v)
  diff-Handles none v h = (v, [], true, refl, h)
  diff-Handles (some c) v h = (v, diff_of (get_change_id c) ∷ [], true, refl, h)

  handle_own-Handles :
      (i : Intent) (v : RevisionsView) → IsPlaced v → Handles (handle_own run texts_of models i v)
  unfolding handle_own
  handle_own-Handles (open_squash given files) v h =
      squashed-Handles (start_squash run files given v.list) v
        (squash-placed run given files v.list h)
  handle_own-Handles (open_on kind given) v h =
      on_start-Handles models (start_operation kind given v.list) v h
  handle_own-Handles (open_on_commit kind given) v h =
      on_start-Handles models (start_commit_operation kind given v.list) v h
  handle_own-Handles open_details_intent v h = on_start-Handles models (open_details v.list) v h
  handle_own-Handles (open_evolog given) v h =
      on_start-Handles models (start_evolog given v.list) v h
  handle_own-Handles (open_inline_describe given) v h =
      on_start-Handles models (start_inline_describe given v.list) v h
  handle_own-Handles (start_new_intent given) v h =
      on_start-Handles models (start_new given v.list) v h
  handle_own-Handles commit_working_copy_intent v h =
      on_start-Handles models start_commit_working_copy v h
  handle_own-Handles (start_edit_intent given force) v h =
      on_start-Handles models (start_edit given force v.list) v h
  handle_own-Handles (diff_edit_intent given) v h =
      on_start-Handles models (start_diff_edit given v.list) v h
  handle_own-Handles (describe_intent given) v h =
      on_start-Handles models (start_describe given v.list) v h
  handle_own-Handles (start_split_intent given files parallel interactive) v h =
      on_start-Handles models (start_split given files parallel interactive v.list) v h
  handle_own-Handles (open_annotation_intent given) v h =
      on_start-Handles models (open_annotation given v.list) v h
  handle_own-Handles (show_diff given) v h = diff-Handles (commit_or_selected given v.list) v h
  handle_own-Handles (open_set_bookmark revision value) v h =
      on_start-Handles models (start_bookmark_set revision value v.list) v h
  handle_own-Handles open_diff_range v h =
      on_start-Handles models (diff_range (selected_revision v.list)) v h
  handle_own-Handles open_new_between v h =
      on_start-Handles models (new_between (selected_revisions v.list) (selected_revision v.list)) v
        h
  handle_own-Handles revisions_toggle_select v h = (
    record v { list = toggle_at (selected_revision v.list) v.list },
    [],
    true,
    refl,
    is_placed-toggle_at (selected_revision v.list) v.list h,
  )
  handle_own-Handles (navigate_intent n w) v h =
      moved-Handles (navigate run n w v.list) v (navigate-Answers run n w v.list h)
  handle_own-Handles go_to_top_intent v h =
      (record v { list = go_to_top v.list }, [], true, refl, is_placed-go_to_top v.list h)
  handle_own-Handles go_to_bottom_intent v h = (
    record v { list = (go_to_bottom v.list).0 },
    asking (go_to_bottom v.list).1,
    true,
    refl,
    is_placed-go_to_bottom v.list h,
  )
  handle_own-Handles (refresh_intent s k) v h = (
    record v { list = refresh s k v.list },
    load_rows (refresh s k v.list).tag ∷ [],
    true,
    refl,
    is_placed-refresh s k v.list h,
  )
  handle_own-Handles (quick_search_cycle reverse) v h =
      found-Handles (search texts_of (cycled reverse (pos v.list.cursor)) reverse v) v
        (search_cycle texts_of reverse v h) h
  handle_own-Handles quick_search_clear v h = (record v { quick_search = "" }, [], true, refl, h)
  handle_own-Handles cancel_intent v h = (v, [], false, refl, h)
  handle_own-Handles quick_search v h = (v, [], false, refl, h)
  handle_own-Handles (start_ace_jump w) v h = (v, [], false, refl, h)
  handle_own-Handles other_intent v h = (v, [], false, refl, h)

  active-Handles :
      (r : RevisionsView × List F × Bool) (otherwise : RevisionsView → Handled F)
      → IsPlaced r.0
      → ((v : RevisionsView) → IsPlaced v → Handles (otherwise v))
      → Handles (after_active run texts_of models r otherwise)
  active-Handles (v, fs, true) otherwise h g = (v, commands fs, true, refl, h)
  active-Handles (v, fs, false) otherwise h g = g v h

  cancel-Handles : (v : RevisionsView) → IsPlaced v → Handles (on_cancel run texts_of models v)
  unfolding cancel reset_operations clear_checked_revisions
  cancel-Handles v h =
      elim (Bool-cases (ltb 0 (length v.list.checked_revisions) || not (in_normal_mode v))) [
        | inl e ↦ ((cancel v).0, [], (cancel v).1, refl, rw (cancel, e) h)
        | inr e ↦ ((cancel v).0, [], (cancel v).1, refl, rw (cancel, e) h)
      ]

  tried :
      (i : Intent) (v : RevisionsView)
      → IsPlaced v
      → IsPlaced (try_active models i (active_model v) v).0
  tried i v h =
      tried-IsPlaced models i (active_model v) (models.handle_intent i (active_model v)) v refl h

  ours-Handles :
      (i : Intent) (v : RevisionsView)
      → IsPlaced v
      → Handles (
          after_active run texts_of models
            (try_active models i (active_model v) v)
            (handle_own run texts_of models i))
  ours-Handles i v h =
      active-Handles (try_active models i (active_model v) v) (handle_own run texts_of models i)
        (tried i v h) (handle_own-Handles i)

  pub handle_intent-Handles :
      (i : Intent) (v : RevisionsView)
      → can_jump i v ≡ true
      → IsPlaced v
      → Handles (handle_intent run texts_of models i v)
  unfolding handle_intent open_layer push_layer
  handle_intent-Handles cancel_intent v c h =
      active-Handles (try_active models cancel_intent (active_model v) v)
        (on_cancel run texts_of models) (tried cancel_intent v h) cancel-Handles
  handle_intent-Handles quick_search v c h = (v, [], handle_quick_search v, refl, h)
  handle_intent-Handles (start_ace_jump w) v c h =
      let (o, e) = started_jump-Starts w v c in
      let p = open_layer models (models.ace_jump o) v in (p.0, commands p.1, true, rw e refl, h)
  handle_intent-Handles i v c h = ours-Handles i v h
