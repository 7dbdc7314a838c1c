-- ===== src/Revisions/Loading.antt =====
-- How the rows of the list of revisions are loaded, at once or in batches, and where the cursor goes
-- then (refresh, updateGraphRows and Update of internal/ui/revisions/revisions.go).
use jjui.Jj.Selections.{Commit, get_change_id}
use jjui.Prelude.{
  ℕ, ◌+◌, ◌%◌, String, Bool, true, false, not, ◌&&◌, ◌||◌, Option, none, some, List, ◌++◌, ltb, leb,
  ◌==◌, if◌then◌else◌, length,
}
use jjui.Prelude.Int.{ℤ, pos, ltb_ℤ, ◌+ℤ◌}
use jjui.Prelude.Texts.{is_empty}
use jjui.Revisions.{
  no_reload, set_cursor, selected_revision, select_revision_exact, clear_checked_revisions,
  request_more_rows, Model, ReloadState,
}

-- A tag is a `uint64`.
unfoldable pub next_tag : ℕ → ℕ
next_tag tag = (tag + 1) % 18446744073709551616

unfoldable pub refresh : (selected : String) → (keep_selections : Bool) → Model → Model
refresh selected keep_selections m =
    let kept = if keep_selections then m else clear_checked_revisions m in
    let next = next_tag m.tag in
    record kept {
      is_loading = true;
      tag = next;
      pending_reload = record {
        tag = next;
        selected_revision = selected;
        keep_selections = keep_selections;
      };
    }

abbrev pub or_else : Option ℕ → Option ℕ → Option ℕ
or_else none o = o
or_else (some i) o = some i

abbrev pub index_or : Option ℕ → ℕ → ℕ
index_or none n = n
index_or (some i) n = i

abbrev pub id_or_empty : Option Commit → String
id_or_empty none = ""
id_or_empty (some c) = get_change_id c

unfoldable pub update_graph_rows :
    List Commit → String → (request_cursor_view : Bool) → Model → Model
update_graph_rows rows revision request_cursor_view m =
    let wanted = if is_empty revision then id_or_empty (selected_revision m) else revision in
    let next = record m { rows = rows } in
    let idx =
      index_or (or_else (select_revision_exact wanted rows) (select_revision_exact "@" rows)) 0 in
    if length rows == 0
    then record next { cursor = 0 }
    else if request_cursor_view
    then set_cursor (pos idx) next
    else record next { cursor = idx }

-- The reload that waits for the tag, which is then done.
abbrev pub take_reload : ℕ → Model → ReloadState × Model
take_reload tag m =
    if m.pending_reload.tag == tag
    then (m.pending_reload, record m { pending_reload = no_reload })
    else (no_reload, m)

unfoldable pub update_revisions : List Commit → (tag : ℕ) → Model → Model
update_revisions rows tag m =
    let (reload, next) = take_reload tag (record m { is_loading = false }) in
    if not (tag == m.tag)
    then m
    else update_graph_rows rows reload.selected_revision (not reload.keep_selections) next

-- Where the cursor goes when the rows are shown; `none` leaves it.
unfoldable pub target_cursor : String → Option Commit → Model → Option ℕ
target_cursor revision current m =
    or_else (if is_empty revision then none else select_revision_exact revision m.rows) (
      or_else
        (elim current [ none ↦ none | some c ↦ select_revision_exact (get_change_id c) m.rows ])
        (if not (length m.rows == 0) && leb (length m.rows) m.cursor then some 0 else none))

abbrev pub move_to : Option ℕ → (keep_selections : Bool) → Model → Model
move_to none keep_selections m = m
move_to (some i) keep_selections m =
    if keep_selections then record m { cursor = i } else set_cursor (pos i) m

unfoldable pub show_rows : ℕ → Model → Model
show_rows tag m =
    let (reload, next) = take_reload tag m in
    let shown = record next { rows = m.off_screen_rows } in
    move_to (target_cursor reload.selected_revision (selected_revision m) shown)
      reload.keep_selections shown

-- Whether the rows that are read do not yet reach the cursor and the last row on the screen.
abbrev pub wants_more : (last_row_index : ℤ) → (has_more : Bool) → (count cursor : ℕ) → Bool
wants_more last_row_index has_more count cursor =
    has_more && (ltb count (cursor + 1) || ltb_ℤ (pos count) (last_row_index +ℤ pos 1))

-- A batch of rows; whether more rows are asked for before they are shown.
unfoldable pub append_rows_batch :
    (last_row_index : ℤ) → List Commit → (has_more : Bool) → (tag : ℕ) → Model → Model × Bool
append_rows_batch last_row_index rows has_more tag m =
    let all = m.off_screen_rows ++ rows in
    let next = record m {
      request_in_flight = false;
      off_screen_rows = all;
      has_more = has_more;
      is_loading = has_more && ltb 0 (length all);
    } in
    if not (tag == m.tag)
    then (record m { request_in_flight = false }, false)
    else if wants_more last_row_index has_more (length all) m.cursor
    then request_more_rows tag next
    else (show_rows tag next, false)
