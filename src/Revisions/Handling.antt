-- ===== src/Revisions/Handling.antt =====
-- The messages of the list of revisions (Update of internal/ui/revisions/revisions.go): those of its
-- own state, and those that go on to the operation and the layers.
pub mod Jump
pub mod Own
pub mod Sent
pub mod Stale
pub mod Whole
use Prim.Native.Char.{Char, code}
use jjui.Jj.Commands.Queries.{op_log_id}
use jjui.Jj.Selections.{Commit, get_change_id}
use jjui.Prelude.{
  ℕ, ◌-◌, zero, suc, String, Bool, true, false, not, ◌&&◌, ◌||◌, Option, none, some, List, [], ◌∷◌,
  ◌++◌, map, if◌then◌else◌, leb, ltb, ◌==◌, str_eq, length,
}
use jjui.Prelude.Int.{ℤ, pos}
use jjui.Revisions.{Model, selected_revision, set_cursor}
use jjui.Revisions.Layers.{
  ImmediateModel, RevisionsView, is_editing, is_overlay, is_focused, reset_operations, close_view,
  restore_operation, pop_layer,
}
use jjui.Revisions.Loading.{refresh, wants_more}
use jjui.Revisions.Messages.{
  Msg, item_clicked, viewport_scroll, update_revisions_failed, update_revisions_msg,
  streaming_ready_msg, append_rows_batch_msg, update,
}
use jjui.Revisions.Moves.{Window}
use jjui.Revisions.Sending.{
  Models, update_base, update_active, update_operations, operation_selection_changed, open_layer,
}
use jjui.Revisions.Intents.{
  Intent, start_ace_jump, Effect, load_rows, highlight_changes, update_success, update_failed,
  streaming_warning, refresh_keeping, Handled, search, commands, asking, handle_intent,
}

-- A message of no effect on the list has only its kind; those that the operations read are theirs.
pub data Message : Type 0 where
  intent : Intent → Message
  selection_changed_msg : Commit → Message
  clicked : (index : ℕ) → (ctrl alt : Bool) → Message
  scrolled : (delta last_row_index : ℤ) → (horizontal : Bool) → Message
  close_view_msg : Message
  restore_operation_msg : Option ImmediateModel → Message
  start_ace_jump_msg : Window → Message
  open_target_picker_msg target_picker_cancel_msg : Message
  target_selected_msg : String → Message
  quick_search_msg : String → Message
  command_completed_msg : (output : String) → (failed : Bool) → Message
  auto_refresh_msg : Message
  failed_msg : Message
  refresh_msg : (selected : String) → (keep_selections : Bool) → Message
  loaded_msg : List Commit → (tag : ℕ) → Message
  streaming_msg : (highlighted : String) → (has_streamer failed : Bool) → (tag : ℕ) → Message
  batch_msg : (last_row_index : ℤ) → List Commit → (has_more : Bool) → (tag : ℕ) → Message
  key_msg mouse_msg other_msg : Message

abbrev pub letters : String
letters = "abcdefghijklmnopqrstuvwxyz"

abbrev pub letter_at : Char → ℕ → String → Char
letter_at c n String.[] = c
letter_at c zero (String.◌∷◌ d s) = d
letter_at c (suc n) (String.◌∷◌ d s) = letter_at c n s

-- `strings.ToLower`, for ASCII.
abbrev pub lowered : String → String
lowered String.[] = String.[]
lowered (String.◌∷◌ c s) =
    let rest = lowered s in
    String.◌∷◌ (if leb 65 (code c) && leb (code c) 90 then letter_at c (code c - 65) letters else c)
      rest

abbrev pub Updated : Type 0 → Type 0
Updated F = Option (RevisionsView × List (Effect F))

module _ {F : Type 0} where
  abbrev pub done : RevisionsView → Updated F
  done v = some (v, [])

  abbrev pub updated_with : RevisionsView × F → Updated F
  updated_with (v, f) = some (v, commands (f ∷ []))

  -- What the list does with a message of its own, and whether it asks for more rows.
  abbrev pub listed : Option (Model × Bool) → RevisionsView → Updated F
  listed none v = none
  listed (some (m, more)) v = some (record v { list = m }, asking more)

module _ (run : List String → String × Bool) (texts_of : Commit → List String) where
  module _ {F : Type 0} (models : Models Message Intent F) where
    abbrev pub listing : Msg → RevisionsView → Updated F
    listing msg v = listed (update run msg v.list) v

    -- The rows are new: the program highlights them, and the operations learn of the revision that
    -- is selected now.
    abbrev pub notice : (previous : Option Commit) → (shown : Bool) → RevisionsView → Updated F
    notice previous shown v =
        let (w, fs) = operation_selection_changed models previous v in
        some (w, highlight_changes ∷ (if shown then update_success ∷ [] else []) ++ commands fs)

    abbrev pub noticed : (previous : Option Commit) → Updated F → Updated F
    noticed previous none = none
    noticed previous (some (v, effects)) = notice previous (ltb 0 (length v.list.off_screen_rows)) v

    abbrev pub noticed_load : (previous : Option Commit) → Updated F → Updated F
    noticed_load previous none = none
    noticed_load previous (some (v, effects)) = notice previous true v

    unfoldable pub on_loaded : List Commit → (tag : ℕ) → RevisionsView → Updated F
    on_loaded rows tag v =
        let next = listing (update_revisions_msg rows tag) v in
        if not (tag == v.list.tag) then next else noticed_load (selected_revision v.list) next

    unfoldable pub on_batch :
        (last_row_index : ℤ)
        → List Commit
        → (has_more : Bool) → (tag : ℕ) → RevisionsView
        → Updated F
    on_batch last_row_index rows has_more tag v =
        let next = listing (append_rows_batch_msg last_row_index rows has_more tag) v in
        let count = length (v.list.off_screen_rows ++ rows) in
        if not (tag == v.list.tag) || wants_more last_row_index has_more count v.list.cursor
        then next
        else noticed (selected_revision v.list) next

    abbrev pub warned : (failed : Bool) → Updated F → Updated F
    warned failed none = none
    warned failed (some (v, effects)) =
        some (v, effects ++ (if failed then streaming_warning ∷ [] else []))

    unfoldable pub on_streaming :
        String → (has_streamer failed : Bool) → (tag : ℕ) → RevisionsView → Updated F
    on_streaming highlighted has_streamer failed tag v =
        let next = listing (streaming_ready_msg highlighted has_streamer failed tag) v in
        if not (tag == v.list.tag)
        then next
        else if failed && not has_streamer
        then elim next [ none ↦ none | some (w, effects) ↦ some (w, update_failed ∷ []) ]
        else warned failed next

    abbrev pub after_intent : Message → Handled F → Updated F
    after_intent msg none = none
    after_intent msg (some (v, effects, handled)) =
        let rest = updated_with (update_active models msg v) in
        if handled then some (v, effects) else rest

    -- The first of `search`, or a panic, and the operations end.
    abbrev pub searched : Option ℤ → RevisionsView → Updated F
    searched none v = none
    searched (some i) v = done (reset_operations (record v { list = set_cursor i v.list }))

    unfoldable pub on_auto_refresh : RevisionsView → Updated F
    on_auto_refresh v =
        let id = (run (op_log_id true)).0 in
        let rest = updated_with (update_active models auto_refresh_msg v) in
        if str_eq id v.previous_op_log_id
        then rest
        else some (record v { previous_op_log_id = id }, refresh_keeping ∷ [])

    unfoldable pub on_refresh :
        (selected : String) → (keep_selections : Bool) → RevisionsView → Updated F
    on_refresh selected keep_selections v =
        let m = refresh selected keep_selections v.list in
        let (w, f) =
          update_active models (refresh_msg selected keep_selections) (record v { list = m }) in
        some (w, load_rows m.tag ∷ commands (f ∷ []))

    -- A key reaches the operation while it is editing, an overlay or focused.
    unfoldable pub on_input : Message → (is_key : Bool) → RevisionsView → Updated F
    on_input msg is_key v =
        let rest = updated_with (update_active models msg v) in
        if length v.list.rows == 0
        then done v
        else if is_editing v || is_overlay v || is_key && is_focused v
        then rest
        else done v

    -- The next state and what the program is asked for; `none` is a panic.
    unfoldable pub handle : Message → RevisionsView → Updated F
    handle (intent i) v = after_intent (intent i) (handle_intent run texts_of models i v)
    handle (selection_changed_msg c) v =
        let (w, fs) = update_operations models (selection_changed_msg c) v in some (w, commands fs)
    handle (clicked index ctrl alt) v =
        listing (item_clicked index ctrl alt (is_editing v || is_overlay v)) v
    handle (scrolled delta last_row_index horizontal) v =
        listing (viewport_scroll delta last_row_index horizontal) v
    handle close_view_msg v = done (close_view v)
    handle (restore_operation_msg op) v = done (restore_operation op v)
    handle (start_ace_jump_msg w) v =
        elim (handle_intent run texts_of models (start_ace_jump w) v) [
          | none ↦ none
          | some (pushed, effects, _) ↦ some (pushed, effects)
        ]
    handle open_target_picker_msg v =
        let (w, fs) = open_layer models models.target_picker v in some (w, commands fs)
    handle (target_selected_msg target) v =
        updated_with (update_base models (target_selected_msg target) (pop_layer v))
    handle target_picker_cancel_msg v = done (pop_layer v)
    handle (quick_search_msg text) v =
        let w = record v { quick_search = lowered text } in
        searched (search texts_of (pos 0) false w) w
    handle (command_completed_msg output failed) v =
        done (record v { output = output; failed = failed })
    handle auto_refresh_msg v = on_auto_refresh v
    handle failed_msg v = listing update_revisions_failed v
    handle (refresh_msg selected keep_selections) v = on_refresh selected keep_selections v
    handle (loaded_msg rows tag) v = on_loaded rows tag v
    handle (streaming_msg highlighted has_streamer failed tag) v =
        on_streaming highlighted has_streamer failed tag v
    handle (batch_msg last_row_index rows has_more tag) v =
        on_batch last_row_index rows has_more tag v
    handle key_msg v = on_input key_msg true v
    handle mouse_msg v = on_input mouse_msg false v
    handle other_msg v = updated_with (update_active models other_msg v)
