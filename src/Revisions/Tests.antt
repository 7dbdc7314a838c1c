-- ===== src/Revisions/Tests.antt =====
-- Three revisions that are loaded and moved over (internal/ui/revisions).
use jjui.Jj.Selections.{Commit, get_change_id}
use jjui.Scopes.{Scope, leak_all, visible_scopes}
use jjui.Revisions.Starting.{duplicate}
use jjui.Revisions.Starting.Given.{WorksOn, start_operation-WorksOn}
use jjui.Jj.Selections.{equal}
use jjui.Revisions.Handling.{Message, intent, selection_changed_msg, loaded_msg, handle, on_loaded}
use jjui.Revisions.Handling.Stale.{handle_all, handle_all-Quiet, with_request}
use jjui.Revisions.Handling.{batch_msg, streaming_msg}
use jjui.Revisions.Handling.Whole.{Reaches, begin, on, handle-OnRow}
use jjui.Revisions.Intents.{
  Intent, refresh_intent, quick_search_cycle, Effect, load_rows, highlight_changes, update_success,
  layer_command, handle_intent, handle_own,
}
use jjui.Revisions.Sending.{
  Models, try_active, operation_selection_changed, update_operations, update_base, update_each,
  move_cursor,
}
use jjui.Revisions.Layers.{
  new_default, active_model, ImmediateModel, RevisionsView, is_editing, ask, base_operation, scopes,
  in_normal_mode,
}
use jjui.Revisions.Layers.Editing.{visible_scopes-scopes, close_times, close_times-in_normal_mode}
use jjui.Prelude.{◌++◌, ◌≡◌, refl, String, Bool, true, false, none, some, List, [], ◌∷◌}
use jjui.Prelude.Int.{pos, ◌+ℤ◌, ◌-ℤ◌, max_ℤ}
use jjui.Revisions.{
  Model, new_model, index_of, clear_checked_revisions, request_more_rows, selected_revision,
  set_cursor, select_revision_exact,
}
use jjui.Revisions.Loading.{update_graph_rows, next_tag, update_revisions, refresh}
use jjui.Revisions.Messages.{refresh_msg, update_revisions_msg, navigate_msg, update}
use jjui.Revisions.Moves.{
  Navigate, target_none, target_parent, navigate, navigate_target, move_by, step_of, jump_to_parent,
}
use jjui.Revisions.Reachable.{Reachable, start, step, OnRow}

abbrev row_at : String → Commit
row_at id = record {
  change_id = id;
  commit_id = id;
  is_working_copy = false;
  hidden = false;
  has_bookmarks = false;
  has_local_bookmarks = false;
  has_workspace = false;
  root = false;
  is_empty_commit = false;
}

abbrev three_rows : List Commit
three_rows = row_at "ab" ∷ row_at "cd" ∷ row_at "ef" ∷ []

-- A jj that answers with the commit `cd`.
abbrev run : List String → String × Bool
run args = ("cd", true)

abbrev loading : Model
loading = record new_model {
  is_loading = true;
  tag = 1;
  pending_reload = record { tag = 1; selected_revision = "ef"; keep_selections = false };
}

abbrev loaded : Model
loaded = record loading {
  rows = three_rows;
  is_loading = false;
  cursor = 2;
  ensure_cursor_view = true;
  pending_reload = record { tag = 0; selected_revision = ""; keep_selections = false };
}

abbrev down : Navigate
down = record {
  delta = pos 1;
  is_page = false;
  target = target_none;
  change_id = "";
  ensure_view = none;
  allow_stream = none;
}

is_loaded : update run (update_revisions_msg three_rows 1) loading ≡ some (loaded, false)
unfolding update update_revisions update_graph_rows select_revision_exact index_of set_cursor
    selected_revision get_change_id
is_loaded = refl

loads : update run (refresh_msg "ef" false) new_model ≡ some (loading, false)
unfolding update refresh next_tag clear_checked_revisions
loads = refl

loaded-Reachable : Reachable run loaded
loaded-Reachable =
    step (update_revisions_msg three_rows 1) false
      (step (refresh_msg "ef" false) false start refl loads) refl is_loaded

-- Down from the last row_at asks for more rows, and the parent is found.
one_more :
    update run
      (navigate_msg down (record { first_row_index = pos 0; last_row_index = pos 2 }))
      (record loaded { has_more = true; has_streamer = true })
    ≡ some (record loaded { has_more = true; has_streamer = true; request_in_flight = true }, true)
unfolding update navigate navigate_target move_by step_of request_more_rows ◌+ℤ◌ ◌-ℤ◌ max_ℤ
one_more = refl

to_parent :
    update run
      (navigate_msg
        (record down { target = target_parent })
        (record { first_row_index = pos 0; last_row_index = pos 2 }))
      loaded
    ≡ some (record loaded { cursor = 1 }, false)
unfolding update navigate navigate_target jump_to_parent select_revision_exact index_of set_cursor
    get_change_id
to_parent = refl

abbrev describing : ImmediateModel
describing = record {
  scopes =
      record {
        name = "revisions.inline_describe";
        leak = leak_all;
        global = false;
        hide_from_help = false;
        handler = 2;
      }
      ∷ [];
  editing = some true;
  overlay = none;
  focus = none;
  is_default = false;
}

abbrev edited : RevisionsView
edited = record {
  list = loaded;
  base_op = none;
  layers = describing ∷ [];
  quick_search = "fix";
  focused = true;
  handler = 1;
  output = "";
  failed = false;
  previous_op_log_id = "";
}

abbrev root : Scope
root = record { name = "ui"; leak = leak_all; global = true; hide_from_help = false; handler = 3 }

visible_scopes-scopes_example :
    visible_scopes (scopes edited ++ root ∷ []) ≡ visible_scopes (scopes edited)
unfolding is_editing ask base_operation
visible_scopes-scopes_example = visible_scopes-scopes edited (root ∷ []) refl (refl, tt)

close_times-in_normal_mode_example :
    in_normal_mode (close_times 2 (record edited { layers = describing ∷ [] })) ≡ true
close_times-in_normal_mode_example = close_times-in_normal_mode edited (describing ∷ [])

start_operation-WorksOn_example : WorksOn run loaded [] duplicate []
start_operation-WorksOn_example =
    start_operation-WorksOn run loaded [] duplicate [] loaded-Reachable refl

-- Models that take every message and refuse every intent.
abbrev models : Models Message Intent String
models = record {
  update = λ msg layer. record { next = layer; to_row = none; command = "told" };
  handle_intent = λ i layer. none;
  init = λ layer. "shown";
  made = λ s. describing;
  ace_jump = λ o. describing;
  target_picker = describing;
  selection_changed = selection_changed_msg;
}

abbrev texts_of : Commit → List String
texts_of c = get_change_id c ∷ []

abbrev fresh : RevisionsView
fresh = record edited { list = new_model; layers = [] }

abbrev shown : RevisionsView
shown = record fresh { list = loaded; base_op = some new_default }

refreshed :
    handle run texts_of models (intent (refresh_intent "ef" false)) fresh
    ≡ some (record fresh { list = loading }, load_rows 1 ∷ [])
unfolding handle handle_intent handle_own try_active active_model base_operation refresh next_tag
    clear_checked_revisions
refreshed = refl

rows_shown :
    handle run texts_of models (loaded_msg three_rows 1) (record fresh { list = loading })
    ≡ some (shown, highlight_changes ∷ update_success ∷ layer_command "told" ∷ [])
unfolding handle on_loaded update update_revisions update_graph_rows select_revision_exact index_of
    set_cursor selected_revision get_change_id operation_selection_changed equal update_operations
    update_base update_each move_cursor base_operation
rows_shown = refl

shown-Reaches : Reaches run texts_of models fresh shown
shown-Reaches =
    on (loaded_msg three_rows 1) (highlight_changes ∷ update_success ∷ layer_command "told" ∷ [])
      (on (intent (refresh_intent "ef" false)) (load_rows 1 ∷ []) begin refl refreshed) refl
      rows_shown

-- The search "fix" finds nothing; the cursor stays.
handle-OnRow_example :
    (t : RevisionsView) × (effects : List (Effect String)) × (handle run texts_of models
        (intent (quick_search_cycle true))
        shown
      ≡ some (t, effects))
    × Reaches run texts_of models fresh t
    × OnRow t.list
handle-OnRow_example =
    handle-OnRow run texts_of models fresh shown (intent (quick_search_cycle true)) refl
      shown-Reaches refl

abbrev late_answers : List Message
late_answers =
    batch_msg (pos 5) (row_at "zz" ∷ []) true 7
    ∷ streaming_msg "cd" true false 0
    ∷ loaded_msg [] 2
    ∷ []

handle_all-Quiet_example :
    (b : Bool) × (handle_all run texts_of models late_answers shown
      ≡ some (with_request b shown, []))
handle_all-Quiet_example =
    handle_all-Quiet run texts_of models late_answers shown (refl, (refl, (refl, tt)))
