-- ===== src/Revisions/Handling/Whole.antt =====
-- The cursor of the list of revisions after each message (Update of
-- internal/ui/revisions/revisions.go), and the states that messages lead to.
use jjui.Jj.Commands.Queries.{op_log_id}
use jjui.Jj.Selections.{Commit}
use jjui.Prelude.{
  ℕ, ◌≡◌, refl, sym, ap, ◌∙◌, String, Bool, true, false, not, ◌&&◌, ◌||◌, Option, none, some, List,
  [], ◌∷◌, ◌++◌, if◌then◌else◌, ltb, ◌==◌, str_eq, length,
}
use jjui.Prelude.Int.{ℤ, pos}
use jjui.Revisions.{selected_revision, set_cursor}
use jjui.Revisions.Answered.{is_inside, update-Answers}
use jjui.Revisions.Cursor.{is_placed, is_placed-set_cursor, is_placed-refresh}
use jjui.Revisions.Handling.{
  Message, lowered, Updated, done, updated_with, listing, notice, noticed, noticed_load, on_loaded,
  on_batch, warned, on_streaming, after_intent, searched, on_auto_refresh, on_refresh, on_input,
  handle, intent, selection_changed_msg, clicked, scrolled, close_view_msg, restore_operation_msg,
  start_ace_jump_msg, open_target_picker_msg, target_picker_cancel_msg, target_selected_msg,
  quick_search_msg, command_completed_msg, auto_refresh_msg, failed_msg, refresh_msg, loaded_msg,
  streaming_msg, batch_msg, key_msg, mouse_msg, other_msg,
}
use jjui.Revisions.Handling.Sent.{
  IsPlaced, active-IsPlaced, update_base-IsPlaced, update_operations-IsPlaced, changed-IsPlaced,
  search_first,
}
use jjui.Revisions.Intents.{
  Intent, Effect, Handled, search, commands, handle_intent, start_ace_jump, load_rows,
  highlight_changes, update_success, update_failed, streaming_warning, refresh_keeping,
}
use jjui.Revisions.Layers.{
  ImmediateModel, RevisionsView, push_layer, pop_layer, reset_operations, is_editing, is_overlay,
  is_focused, close_view, restore_operation,
}
use jjui.Revisions.Loading.{refresh, wants_more}
use jjui.Revisions.Messages.{
  Msg, item_clicked, update_revisions_msg, append_rows_batch_msg, streaming_ready_msg,
  viewport_scroll, update_revisions_failed, update,
}
use jjui.Revisions.Sending.{
  operation_selection_changed, open_layer, Models, update_active, update_base, update_operations,
}
use jjui.Revisions.Handling.Jump.{can_jump}
use jjui.Revisions.Handling.Own.{Handles, Updates, listed-Updates, handle_intent-Handles}
use jjui.Revisions.Reachable.{OnRow, row_of_placed}
use jjui.Revisions.{new_model}

module _ (run : List String → String × Bool) (texts_of : Commit → List String) {F : Type 0}
    (models : Models Message Intent F) where
  searched-Updates :
      (r : Option ℤ) (v : RevisionsView)
      → (i : ℤ) × (r ≡ some i)
      → IsPlaced v
      → Updates (searched run texts_of models r v)
  unfolding reset_operations
  searched-Updates r v (i, e) h = (
    reset_operations (record v { list = set_cursor i v.list }),
    [],
    rw e refl,
    is_placed-set_cursor i v.list h,
  )

  notice-Updates :
      (previous : Option Commit) (shown : Bool) (v : RevisionsView)
      → IsPlaced v
      → Updates (notice run texts_of models previous shown v)
  notice-Updates previous shown v h =
      let w = operation_selection_changed models previous v in
      (
        w.0,
        highlight_changes ∷ (if shown then update_success ∷ [] else []) ++ commands w.1,
        refl,
        changed-IsPlaced models previous (selected_revision v.list) v refl h,
      )

  noticed-Updates :
      (previous : Option Commit) (r : Updated F)
      → Updates r
      → Updates (noticed run texts_of models previous r)
  noticed-Updates previous r (t, effects, e, h) =
      rw e (notice-Updates previous (ltb 0 (length t.list.off_screen_rows)) t h)

  noticed_load-Updates :
      (previous : Option Commit) (r : Updated F)
      → Updates r
      → Updates (noticed_load run texts_of models previous r)
  noticed_load-Updates previous r (t, effects, e, h) = rw e (notice-Updates previous true t h)

  listing-Updates :
      (msg : Msg) (v : RevisionsView)
      → is_inside msg v.list ≡ true
      → IsPlaced v
      → Updates (listing run texts_of models msg v)
  listing-Updates msg v i h =
      listed-Updates (update run msg v.list) v (update-Answers run msg v.list i h)

  either-Updates :
      (b : Bool) (r s : Updated F) → Updates r → Updates s → Updates (if b then r else s)
  either-Updates true r s h k = h
  either-Updates false r s h k = k

  warned-Updates :
      (failed : Bool) (r : Updated F) → Updates r → Updates (warned run texts_of models failed r)
  warned-Updates failed r (t, effects, e, h) =
      (t, effects ++ (if failed then streaming_warning ∷ [] else []), rw e refl, h)

  refused-Updates :
      (r : Updated F)
      → Updates r
      → Updates (elim r as (λ x. Updated F) [
        | none ↦ none
        | some (w, effects) ↦ some (w, update_failed ∷ [])
      ])
  refused-Updates r (t, effects, e, h) = (t, update_failed ∷ [], rw e refl, h)

  intent-Updates :
      (msg : Message) (r : Handled F) → Handles r → Updates (after_intent run texts_of models msg r)
  intent-Updates msg r (t, effects, true, e, h) = (t, effects, rw e refl, h)
  intent-Updates msg r (t, effects, false, e, h) = (
    (update_active models msg t).0,
    commands ((update_active models msg t).1 ∷ []),
    rw e refl,
    active-IsPlaced models msg t.layers t refl h,
  )

  active-Updates :
      (msg : Message) (v : RevisionsView)
      → IsPlaced v
      → Updates (updated_with (update_active models msg v))
  active-Updates msg v h = (
    (update_active models msg v).0,
    commands ((update_active models msg v).1 ∷ []),
    refl,
    active-IsPlaced models msg v.layers v refl h,
  )

  done-Updates : (v : RevisionsView) → IsPlaced v → Updates (done {F = F} v)
  done-Updates v h = (v, [], refl, h)

  input-Updates :
      (msg : Message) (is_key : Bool) (v : RevisionsView)
      → IsPlaced v
      → Updates (on_input run texts_of models msg is_key v)
  unfolding on_input
  input-Updates msg is_key v h =
      let goes = active-Updates msg v h in
      let rest = updated_with (update_active models msg v) in
      let stays = if is_editing v || is_overlay v || is_key && is_focused v then rest else done v in
      either-Updates (length v.list.rows == 0) (done v) stays (done-Updates v h) (
        either-Updates (is_editing v || is_overlay v || is_key && is_focused v) rest (done v) goes
          (done-Updates v h))

  pop-IsPlaced :
      (layers : List ImmediateModel) (v : RevisionsView)
      → v.layers ≡ layers
      → IsPlaced v
      → IsPlaced (pop_layer v)
  unfolding pop_layer
  pop-IsPlaced [] v e h = rw (pop_layer, e) h
  pop-IsPlaced (layer ∷ below) v e h = rw (pop_layer, e) h

  close-IsPlaced :
      (layers : List ImmediateModel) (v : RevisionsView)
      → v.layers ≡ layers
      → IsPlaced v
      → IsPlaced (close_view v)
  unfolding close_view reset_operations
  close-IsPlaced [] v e h = rw (close_view, e) h
  close-IsPlaced (layer ∷ below) v e h = rw (close_view, e) (pop-IsPlaced (layer ∷ below) v e h)

  restore-IsPlaced :
      (op : Option ImmediateModel) (v : RevisionsView)
      → IsPlaced v
      → IsPlaced (restore_operation op v)
  unfolding restore_operation reset_operations
  restore-IsPlaced none v h = h
  restore-IsPlaced (some op) v h = h

  pushed-Updates :
      (r : Handled F)
      → Handles r
      → Updates (elim r as (λ x. Updated F) [
        | none ↦ none
        | some (pushed, effects, _) ↦ some (pushed, effects)
      ])
  pushed-Updates r (t, effects, handled, e, h) = (t, effects, rw e refl, h)

  loaded-Updates :
      (rows : List Commit) (tag : ℕ) (v : RevisionsView)
      → IsPlaced v
      → Updates (on_loaded run texts_of models rows tag v)
  unfolding on_loaded
  loaded-Updates rows tag v h =
      let next = listing run texts_of models (update_revisions_msg rows tag) v in
      let goes = listing-Updates (update_revisions_msg rows tag) v refl h in
      either-Updates (not (tag == v.list.tag)) next
        (noticed_load run texts_of models (selected_revision v.list) next) goes
        (noticed_load-Updates (selected_revision v.list) next goes)

  batch-Updates :
      (last : ℤ) (rows : List Commit) (more : Bool) (tag : ℕ) (v : RevisionsView)
      → IsPlaced v
      → Updates (on_batch run texts_of models last rows more tag v)
  unfolding on_batch
  batch-Updates last rows more tag v h =
      let next = listing run texts_of models (append_rows_batch_msg last rows more tag) v in
      let goes = listing-Updates (append_rows_batch_msg last rows more tag) v refl h in
      either-Updates
        (not (tag == v.list.tag)
          || wants_more last more (length (v.list.off_screen_rows ++ rows)) v.list.cursor)
        next (noticed run texts_of models (selected_revision v.list) next) goes
        (noticed-Updates (selected_revision v.list) next goes)

  streaming-Updates :
      (s : String) (a b : Bool) (tag : ℕ) (v : RevisionsView)
      → IsPlaced v
      → Updates (on_streaming run texts_of models s a b tag v)
  unfolding on_streaming
  streaming-Updates s a b tag v h =
      let next = listing run texts_of models (streaming_ready_msg s a b tag) v in
      let goes = listing-Updates (streaming_ready_msg s a b tag) v refl h in
      let refused : Updated F = elim next [
        | none ↦ none
        | some (w, effects) ↦ some (w, update_failed ∷ [])
      ] in
      let warns = warned run texts_of models b next in
      either-Updates (not (tag == v.list.tag)) next (if b && not a then refused else warns) goes (
        either-Updates (b && not a) refused warns (refused-Updates next goes)
          (warned-Updates b next goes))

  refresh-Updates :
      (s : String) (k : Bool) (v : RevisionsView)
      → IsPlaced v
      → Updates (on_refresh run texts_of models s k v)
  unfolding on_refresh
  refresh-Updates s k v h =
      let w = record v { list = refresh s k v.list } in
      let r = update_active models (refresh_msg s k) w in
      (
        r.0,
        load_rows (refresh s k v.list).tag ∷ commands (r.1 ∷ []),
        refl,
        active-IsPlaced models (refresh_msg s k) w.layers w refl (is_placed-refresh s k v.list h),
      )

  auto-Updates : (v : RevisionsView) → IsPlaced v → Updates (on_auto_refresh run texts_of models v)
  unfolding on_auto_refresh
  auto-Updates v h =
      let id = (run (op_log_id true)).0 in
      let other : Updated F = some (record v { previous_op_log_id = id }, refresh_keeping ∷ []) in
      either-Updates (str_eq id v.previous_op_log_id)
        (updated_with (update_active models auto_refresh_msg v)) other
        (active-Updates auto_refresh_msg v h)
        (record v { previous_op_log_id = id }, refresh_keeping ∷ [], refl, h)

  -- A click with Ctrl, where it is not ignored, is on a row; and the window that a jump starts with
  -- is one of rows of the list, with their identifiers.
  abbrev pub is_in_rows : Message → RevisionsView → Bool
  is_in_rows (clicked index ctrl alt) v =
      is_inside (item_clicked index ctrl alt (is_editing v || is_overlay v)) v.list
  is_in_rows (intent i) v = can_jump i v
  is_in_rows (start_ace_jump_msg w) v = can_jump (start_ace_jump w) v
  is_in_rows msg v = true

  pub handle-Updates :
      (msg : Message) (v : RevisionsView)
      → is_in_rows msg v ≡ true
      → IsPlaced v
      → Updates (handle run texts_of models msg v)
  unfolding handle open_layer push_layer
  handle-Updates (intent i) v c h =
      intent-Updates (intent i) (handle_intent run texts_of models i v)
        (handle_intent-Handles run texts_of models i v c h)
  handle-Updates (selection_changed_msg x) v c h =
      let w = update_operations models (selection_changed_msg x) v in
      (w.0, commands w.1, refl, update_operations-IsPlaced models (selection_changed_msg x) v h)
  handle-Updates (clicked index ctrl alt) v c h =
      listing-Updates (item_clicked index ctrl alt (is_editing v || is_overlay v)) v c h
  handle-Updates (scrolled d l horizontal) v c h =
      listing-Updates (viewport_scroll d l horizontal) v refl h
  handle-Updates close_view_msg v c h =
      done-Updates (close_view v) (close-IsPlaced v.layers v refl h)
  handle-Updates (restore_operation_msg op) v c h =
      done-Updates (restore_operation op v) (restore-IsPlaced op v h)
  handle-Updates (start_ace_jump_msg w) v c h =
      pushed-Updates (handle_intent run texts_of models (start_ace_jump w) v)
        (handle_intent-Handles run texts_of models (start_ace_jump w) v c h)
  handle-Updates open_target_picker_msg v c h =
      let w = open_layer models models.target_picker v in (w.0, commands w.1, refl, h)
  handle-Updates (target_selected_msg target) v c h =
      let w = update_base models (target_selected_msg target) (pop_layer v) in
      (
        w.0,
        commands (w.1 ∷ []),
        refl,
        update_base-IsPlaced models (target_selected_msg target) (pop_layer v)
            (pop-IsPlaced v.layers v refl h),
      )
  handle-Updates target_picker_cancel_msg v c h =
      done-Updates (pop_layer v) (pop-IsPlaced v.layers v refl h)
  handle-Updates (quick_search_msg text) v c h =
      let w = record v { quick_search = lowered text } in
      searched-Updates (search texts_of (pos 0) false w) w (search_first texts_of w) h
  handle-Updates (command_completed_msg output failed) v c h =
      done-Updates (record v { output = output; failed = failed }) h
  handle-Updates auto_refresh_msg v c h = auto-Updates v h
  handle-Updates failed_msg v c h = listing-Updates update_revisions_failed v refl h
  handle-Updates (refresh_msg s k) v c h = refresh-Updates s k v h
  handle-Updates (loaded_msg rows tag) v c h = loaded-Updates rows tag v h
  handle-Updates (streaming_msg s a b tag) v c h = streaming-Updates s a b tag v h
  handle-Updates (batch_msg l rows more tag) v c h = batch-Updates l rows more tag v h
  handle-Updates key_msg v c h = input-Updates key_msg true v h
  handle-Updates mouse_msg v c h = input-Updates mouse_msg false v h
  handle-Updates other_msg v c h = active-Updates other_msg v h

module _ (run : List String → String × Bool) (texts_of : Commit → List String) {F : Type 0}
    (models : Models Message Intent F) where
  -- The states from one on, with whatever the operations do.
  pub data Reaches (from : RevisionsView) : RevisionsView → Type 0 where
    begin : Reaches from from
    on :
        {v w : RevisionsView} (msg : Message) (effects : List (Effect F))
        → Reaches from v
        → is_in_rows run texts_of models msg v ≡ true
        → handle run texts_of models msg v ≡ some (w, effects)
        → Reaches from w

  abbrev is_placed_after : Updated F → Bool
  is_placed_after none = false
  is_placed_after (some r) = is_placed r.0.list

  Reaches-IsPlaced : (from v : RevisionsView) → IsPlaced from → Reaches from v → IsPlaced v
  Reaches-IsPlaced from v h begin = h
  Reaches-IsPlaced from v h (on {v = u} msg effects r c e) =
      let (t, fx, f, p) =
        handle-Updates run texts_of models msg u c (Reaches-IsPlaced from u h r) in
      ap is_placed_after (sym e ∙ f) ∙ p

  -- In each state that messages lead to from an empty list, whatever the operation and the layers do
  -- with what they are handed, a message is answered without a panic, unless it is a click with Ctrl
  -- past the last row that is not ignored, or the start of a jump over a window that is past the last
  -- row or in a list where a row lacks an identifier; and then there are no rows or the cursor is on
  -- one of them.
  pub handle-OnRow :
      (from v : RevisionsView) (msg : Message)
      → from.list ≡ new_model
      → Reaches from v
      → is_in_rows run texts_of models msg v ≡ true
      → (t : RevisionsView) × (effects : List (Effect F)) × (handle run texts_of models msg v
          ≡ some (t, effects))
        × Reaches from t
        × OnRow t.list
  handle-OnRow from v msg e r c =
      let (t, effects, f, h) =
        handle-Updates run texts_of models msg v c (Reaches-IsPlaced from v (rw e refl) r) in
      (t, effects, f, on msg effects r c f, row_of_placed t.list h)
