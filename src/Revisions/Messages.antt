-- ===== src/Revisions/Messages.antt =====
-- The messages that the list of revisions takes (`Update`), those of its own state: a message to an
-- operation or a layer goes on to it.
use jjui.Jj.Selections.{Commit}
use jjui.Prelude.{
  ℕ, String, Bool, true, false, not, ◌&&◌, Option, none, some, List, [], ◌==◌, if◌then◌else◌,
}
use jjui.Prelude.Int.{ℤ}
use jjui.Prelude.Texts.{is_empty}
use jjui.Revisions.{
  Model, click, selected_revision, toggle_at, go_to_top, go_to_bottom, request_more_rows,
  set_cursor,
}
use jjui.Revisions.Loading.{refresh, update_revisions, append_rows_batch}
use jjui.Revisions.Moves.{Navigate, Window, navigate, scroll, reveal_revision}

-- The answer of a streamer that starts: whether there is one, and an error.
unfoldable pub streaming_ready :
    (highlighted : String) → (has_streamer failed : Bool) → (tag : ℕ) → Model → Model × Bool
streaming_ready highlighted has_streamer failed tag m =
    let wanted =
      if m.pending_reload.tag == tag && is_empty m.pending_reload.selected_revision
      then record m.pending_reload { selected_revision = highlighted }
      else m.pending_reload in
    let next = record m {
      has_streamer = has_streamer;
      off_screen_rows = [];
      has_more = true;
      request_in_flight = false;
      pending_reload = wanted;
    } in
    if not (tag == m.tag)
    then (m, false)
    else if failed && not has_streamer
    then (
      record m {
        has_streamer = false;
        has_more = false;
        is_loading = false;
        request_in_flight = false;
      },
      false,
    )
    else request_more_rows tag next

pub data Msg : Type 0 where
  item_clicked : (index : ℕ) → (ctrl alt blocked : Bool) → Msg
  viewport_scroll : (delta last_row_index : ℤ) → (horizontal : Bool) → Msg
  update_revisions_failed : Msg
  update_revisions_msg : List Commit → (tag : ℕ) → Msg
  streaming_ready_msg : (highlighted : String) → (has_streamer failed : Bool) → (tag : ℕ) → Msg
  append_rows_batch_msg : (last_row_index : ℤ) → List Commit → (has_more : Bool) → (tag : ℕ) → Msg
  toggle_select : Msg
  navigate_msg : Navigate → Window → Msg
  go_to_top_msg : Msg
  go_to_bottom_msg : Msg
  refresh_msg : (selected : String) → (keep_selections : Bool) → Msg
  found_msg : ℤ → Msg
  reveal_msg : String → Msg

abbrev pub alone : Option Model → Option (Model × Bool)
alone none = none
alone (some m) = some (m, false)

-- The next state and whether more rows are asked for; `none` is a panic. A click is blocked while
-- the operation is editing or an overlay; a search hands over the index that it found, or -1.
unfoldable pub update : (List String → String × Bool) → Msg → Model → Option (Model × Bool)
update run (item_clicked index ctrl alt blocked) m =
    if blocked then some (m, false) else alone (click index ctrl alt m)
update run (viewport_scroll delta last_row_index horizontal) m =
    if horizontal then some (m, false) else some (scroll delta last_row_index m)
update run update_revisions_failed m = some (record m { is_loading = false }, false)
update run (update_revisions_msg rows tag) m = some (update_revisions rows tag m, false)
update run (streaming_ready_msg highlighted has_streamer failed tag) m =
    some (streaming_ready highlighted has_streamer failed tag m)
update run (append_rows_batch_msg last_row_index rows has_more tag) m =
    some (append_rows_batch last_row_index rows has_more tag m)
update run toggle_select m = some (toggle_at (selected_revision m) m, false)
update run (navigate_msg intent w) m = navigate run intent w m
update run go_to_top_msg m = some (go_to_top m, false)
update run go_to_bottom_msg m = some (go_to_bottom m)
update run (refresh_msg selected keep_selections) m =
    some (refresh selected keep_selections m, false)
update run (found_msg index) m = some (set_cursor index m, false)
update run (reveal_msg revision) m = some (reveal_revision revision m, false)
