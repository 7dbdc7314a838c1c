-- ===== src/Revisions/Intents.antt =====
-- The intents of the list of revisions (HandleIntent of internal/ui/revisions/revisions.go): first for
-- the operation, then for the list.
use jjui.Jj.Files.{FileName}
use jjui.Jj.Selections.{Commit, SelectedRevisions, get_change_id}
use jjui.Prelude.{
  ℕ, String, Bool, true, false, Option, none, some, List, [], ◌∷◌, map, get_elem?, if◌then◌else◌,
}
use jjui.Operations.AceJump.{Operation as JumpOperation, init, new_operation}
use jjui.Prelude.Int.{ℤ, pos, negsuc, ◌+ℤ◌, ◌-ℤ◌}
use jjui.Revisions.{
  Model, some_all, set_cursor, selected_revision, selected_revisions, toggle_at, go_to_top,
  go_to_bottom,
}
use jjui.Revisions.Layers.{RevisionsView, active_model, handle_quick_search, cancel}
use jjui.Revisions.Loading.{refresh}
use jjui.Revisions.Moves.{Navigate, Window, navigate}
use jjui.Revisions.Sending.{Models, try_active, open_operation, open_layer}
use jjui.Revisions.Starting.{
  OperationKind, CommitKind, Started, nothing_started, operation, commit_operation, view_of,
  run_command, run_interactive, annotation_show, start_squash, start_operation,
  start_commit_operation, open_details, start_evolog, start_inline_describe, start_new,
  start_commit_working_copy, start_edit, start_diff_edit, start_describe, start_split,
  start_bookmark_set, set_bookmark, diff_range, new_between, open_annotation, commit_or_selected,
}
use jjui.Search.{circular_search}

-- -1 is the only index below 0.
abbrev pub row_number : ℤ → Option ℕ
row_number (pos n) = some n
row_number (negsuc n) = none

-- The jump over the window of the renderer, which reads `m.rows[index]` in its `Init`.
unfoldable pub started_jump : Window → Model → Option JumpOperation
started_jump w m = init (
    new_operation (λ i. get_elem? (some_all m.rows) i) (row_number w.first_row_index)
      (row_number w.last_row_index))

pub data Intent : Type 0 where
  cancel_intent quick_search other_intent : Intent
  start_ace_jump : Window → Intent
  open_details_intent commit_working_copy_intent open_diff_range open_new_between : Intent
  revisions_toggle_select go_to_top_intent go_to_bottom_intent quick_search_clear : Intent
  open_squash : SelectedRevisions → List FileName → Intent
  open_on : OperationKind → SelectedRevisions → Intent
  open_on_commit : CommitKind → Option Commit → Intent
  open_evolog open_inline_describe diff_edit_intent open_annotation_intent show_diff :
      Option Commit → Intent
  start_new_intent describe_intent : SelectedRevisions → Intent
  start_edit_intent : Option Commit → (ignore_immutable : Bool) → Intent
  start_split_intent : Option Commit → List FileName → (parallel interactive : Bool) → Intent
  open_set_bookmark : (revision value : String) → Intent
  navigate_intent : Navigate → Window → Intent
  refresh_intent : (selected : String) → (keep_selections : Bool) → Intent
  quick_search_cycle : (reverse : Bool) → Intent

-- What the list asks the program to do.
pub data Effect (F : Type 0) : Type 0 where
  layer_command : F → Effect F
  started : Started → Effect F
  diff_of : (change_id : String) → Effect F
  load_rows : (tag : ℕ) → Effect F
  more_rows highlight_changes update_success update_failed streaming_warning refresh_keeping :
      Effect F

abbrev pub Handled : Type 0 → Type 0
Handled F = Option (RevisionsView × List (Effect F) × Bool)

-- The texts of a row are a function of its commit. A search starts at an index; a panic is `none`.
unfoldable pub search :
    (Commit → List String) → (start : ℤ) → (backward : Bool) → RevisionsView → Option ℤ
search texts_of start backward v =
    circular_search (map texts_of v.list.rows) v.quick_search start (pos v.list.cursor) backward

module _ {F : Type 0} where
  abbrev pub commands : List F → List (Effect F)
  commands fs = map layer_command fs

  abbrev pub asking : Bool → List (Effect F)
  asking more = if more then more_rows ∷ [] else []

  abbrev pub on_list : Model → RevisionsView → Handled F
  on_list m v = some (record v { list = m }, [], true)

  -- A move of the list, which may ask for more rows.
  abbrev pub on_moved : Option (Model × Bool) → RevisionsView → Handled F
  on_moved none v = none
  on_moved (some (m, more)) v = some (record v { list = m }, asking more, true)

  abbrev pub on_found : Option ℤ → RevisionsView → Handled F
  on_found none v = none
  on_found (some i) v = on_list (set_cursor i v.list) v

module _ {M F : Type 0} (models : Models M Intent F) where
  abbrev pub opened : Started → RevisionsView → RevisionsView × List (Effect F)
  opened s v = let (w, fs) = open_operation models (models.made s) v in (w, commands fs)

  -- An operation becomes the base operation; a command goes to the program.
  unfoldable pub start : Started → RevisionsView → RevisionsView × List (Effect F)
  start nothing_started v = (v, [])
  start (operation kind selected current) v = opened (operation kind selected current) v
  start (commit_operation kind c current) v = opened (commit_operation kind c current) v
  start (view_of name c) v = opened (view_of name c) v
  start (set_bookmark revision value) v = opened (set_bookmark revision value) v
  start (diff_range current) v = opened (diff_range current) v
  start (new_between selected current) v = opened (new_between selected current) v
  start (run_command args select) v = (v, started (run_command args select) ∷ [])
  start (run_interactive args) v = (v, started (run_interactive args) ∷ [])
  start (annotation_show id) v = (v, started (annotation_show id) ∷ [])

  abbrev pub on_start : Started → RevisionsView → Handled F
  on_start s v = let (w, effects) = start s v in some (w, effects, true)

module _ (run : List String → String × Bool) (texts_of : Commit → List String) where
  module _ {M F : Type 0} (models : Models M Intent F) where
    abbrev pub on_squashed : Model × Started → RevisionsView → Handled F
    on_squashed (m, s) v = on_start models s (record v { list = m })

    abbrev pub show_diff_of : Option Commit → RevisionsView → Handled F
    show_diff_of none v = some (v, [], true)
    show_diff_of (some c) v = some (v, diff_of (get_change_id c) ∷ [], true)

    -- The intents of the list itself; the last part says whether it handles them.
    unfoldable pub handle_own : Intent → RevisionsView → Handled F
    handle_own (open_squash given files) v = on_squashed (start_squash run files given v.list) v
    handle_own (open_on kind given) v = on_start models (start_operation kind given v.list) v
    handle_own (open_on_commit kind given) v =
        on_start models (start_commit_operation kind given v.list) v
    handle_own open_details_intent v = on_start models (open_details v.list) v
    handle_own (open_evolog given) v = on_start models (start_evolog given v.list) v
    handle_own (open_inline_describe given) v =
        on_start models (start_inline_describe given v.list) v
    handle_own (start_new_intent given) v = on_start models (start_new given v.list) v
    handle_own commit_working_copy_intent v = on_start models start_commit_working_copy v
    handle_own (start_edit_intent given ignore_immutable) v =
        on_start models (start_edit given ignore_immutable v.list) v
    handle_own (diff_edit_intent given) v = on_start models (start_diff_edit given v.list) v
    handle_own (describe_intent given) v = on_start models (start_describe given v.list) v
    handle_own (start_split_intent given files parallel interactive) v =
        on_start models (start_split given files parallel interactive v.list) v
    handle_own (open_annotation_intent given) v = on_start models (open_annotation given v.list) v
    handle_own (show_diff given) v = show_diff_of (commit_or_selected given v.list) v
    handle_own (open_set_bookmark revision value) v =
        on_start models (start_bookmark_set revision value v.list) v
    handle_own open_diff_range v = on_start models (diff_range (selected_revision v.list)) v
    handle_own open_new_between v =
        on_start models (new_between (selected_revisions v.list) (selected_revision v.list)) v
    handle_own revisions_toggle_select v = on_list (toggle_at (selected_revision v.list) v.list) v
    handle_own (navigate_intent intent w) v = on_moved (navigate run intent w v.list) v
    handle_own go_to_top_intent v = on_list (go_to_top v.list) v
    handle_own go_to_bottom_intent v = on_moved (some (go_to_bottom v.list)) v
    handle_own (refresh_intent selected keep_selections) v =
        let m = refresh selected keep_selections v.list in
        some (record v { list = m }, load_rows m.tag ∷ [], true)
    handle_own (quick_search_cycle reverse) v =
        let cursor = pos v.list.cursor in
        on_found (search texts_of (if reverse then cursor -ℤ pos 1 else cursor +ℤ pos 1) reverse v)
          v
    handle_own quick_search_clear v = some (record v { quick_search = "" }, [], true)
    handle_own cancel_intent v = some (v, [], false)
    handle_own quick_search v = some (v, [], false)
    handle_own (start_ace_jump w) v = some (v, [], false)
    handle_own other_intent v = some (v, [], false)

    -- The operation has an intent first, and what it does stays even where it refuses.
    abbrev pub after_active :
        RevisionsView × List F × Bool → (RevisionsView → Handled F) → Handled F
    after_active (v, fs, handled) otherwise =
        let rest = otherwise v in if handled then some (v, commands fs, true) else rest

    abbrev pub on_cancel : RevisionsView → Handled F
    on_cancel v = let (w, handled) = cancel v in some (w, [], handled)

    -- `pushLayer` of a jump; `none` is the panic of its `Init`.
    abbrev pub on_jump : Option JumpOperation → RevisionsView → Handled F
    on_jump none v = none
    on_jump (some o) v =
        let (pushed, fs) = open_layer models (models.ace_jump o) v in
        some (pushed, commands fs, true)

    unfoldable pub handle_intent : Intent → RevisionsView → Handled F
    handle_intent cancel_intent v =
        after_active (try_active models cancel_intent (active_model v) v) on_cancel
    handle_intent quick_search v = some (v, [], handle_quick_search v)
    handle_intent (start_ace_jump w) v = on_jump (started_jump w v.list) v
    handle_intent intent v =
        after_active (try_active models intent (active_model v) v) (handle_own intent)
