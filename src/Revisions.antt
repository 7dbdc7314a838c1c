-- ===== src/Revisions.antt =====
-- The list of revisions (internal/ui/revisions/revisions.go): the rows, the cursor and the checked
-- revisions. A row is its commit: the rows of the parser have one. Whether there is a streamer is a
-- Boolean, and the first and the last row on the screen are arguments.
pub mod Answered
pub mod Cursor
pub mod Handling
pub mod Intents
pub mod Layers
pub mod Loading
pub mod Messages
pub mod Moves
pub mod Placed
pub mod Reachable
pub mod Sending
pub mod Starting
mod Tests
use jjui.Jj.Selections.{Commit, SelectedRevisions, new_selected_revisions, get_change_id}
use jjui.Operations.{SelectedRevision}
use jjui.Operations.AceJump.{same_letter}
use jjui.Prelude.{
  ℕ, zero, suc, ◌+◌, ◌-◌, ◌%◌, min, max, String, Bool, true, false, not, ◌&&◌, ◌||◌, Option, none,
  some, List, [], ◌∷◌, ◌++◌, map, str_eq, ltb, leb, ◌==◌, if◌then◌else◌, length, get_elem?, keep,
}
use jjui.Prelude.Int.{ℤ, pos, negsuc, ltb_ℤ, ◌+ℤ◌}
use jjui.Prelude.Maps.{Map, lookup, insert, delete}
use jjui.Prelude.Texts.{is_empty}

pub record ReloadState : Type 0 where
  pub tag : ℕ
  pub selected_revision : String
  pub keep_selections : Bool

abbrev pub no_reload : ReloadState
no_reload = record { tag = 0; selected_revision = ""; keep_selections = false }

pub record Model : Type 0 where
  pub rows : List Commit
  pub off_screen_rows : List Commit
  pub cursor : ℕ
  pub tag : ℕ
  pub pending_reload : ReloadState
  pub has_streamer : Bool
  pub has_more : Bool
  pub is_loading : Bool
  pub request_in_flight : Bool
  pub ensure_cursor_view : Bool
  pub checked_revisions : Map SelectedRevision

-- Before the first rows.
abbrev pub new_model : Model
new_model = record {
  rows = [];
  off_screen_rows = [];
  cursor = 0;
  tag = 0;
  pending_reload = no_reload;
  has_streamer = false;
  has_more = false;
  is_loading = false;
  request_in_flight = false;
  ensure_cursor_view = false;
  checked_revisions = [];
}

unfoldable pub set_cursor : ℤ → Model → Model
set_cursor (negsuc n) m = m
set_cursor (pos index) m =
    if ltb index (length m.rows) then record m { cursor = index; ensure_cursor_view = true } else m

unfoldable pub selected_revision : Model → Option Commit
selected_revision m = get_elem? m.rows m.cursor

-- `strings.EqualFold`, for ASCII.
abbrev pub equal_fold : String → String → Bool
equal_fold String.[] String.[] = true
equal_fold String.[] (String.◌∷◌ d t) = false
equal_fold (String.◌∷◌ c s) String.[] = false
equal_fold (String.◌∷◌ c s) (String.◌∷◌ d t) = same_letter c d && equal_fold s t

abbrev pub is_revision : String → Commit → Bool
is_revision revision c =
    if str_eq revision "@"
    then c.is_working_copy
    else equal_fold (get_change_id c) revision
      || equal_fold c.change_id revision
      || equal_fold c.commit_id revision

-- `slices.IndexFunc`; `none` is -1.
unfoldable pub index_of : (Commit → Bool) → List Commit → Option ℕ
index_of p [] = none
index_of p (c ∷ cs) =
    let rest = index_of p cs in
    if p c then some 0 else elim rest [ none ↦ none | some i ↦ some (suc i) ]

unfoldable pub select_revision_exact : String → List Commit → Option ℕ
select_revision_exact revision rows = index_of (is_revision revision) rows

abbrev pub is_checked : Map SelectedRevision → Commit → Bool
is_checked checked c = elim (lookup c.commit_id checked) [ none ↦ false | some item ↦ true ]

abbrev pub some_all : List Commit → List (Option Commit)
some_all cs = map some cs

-- The checked revisions in the order of the rows, or else the one under the cursor.
unfoldable pub selected_revisions : Model → SelectedRevisions
selected_revisions m = elim (keep (is_checked m.checked_revisions) m.rows) [
  | [] ↦ new_selected_revisions (selected_revision m ∷ [])
  | c ∷ cs ↦ new_selected_revisions (some_all (c ∷ cs))
]

abbrev pub item_of : Commit → SelectedRevision
item_of c = record { change_id = get_change_id c; commit_id = c.commit_id }

unfoldable pub toggle_checked_revision : SelectedRevision → Model → Model
toggle_checked_revision item m = record m {
  checked_revisions = elim (lookup item.commit_id m.checked_revisions) [
    | none ↦ insert item.commit_id item m.checked_revisions
    | some old ↦ delete item.commit_id m.checked_revisions
  ];
}

unfoldable pub clear_checked_revisions : Model → Model
clear_checked_revisions m = record m { checked_revisions = [] }

abbrev pub toggle_at : Option Commit → Model → Model
toggle_at none m = m
toggle_at (some c) m = toggle_checked_revision (item_of c) m

-- The loop over the rows from one on, for a number of rows.
unfoldable pub toggle_range : ℕ → ℕ → Model → Model
toggle_range zero i m = m
toggle_range (suc n) i m = toggle_range n (i + 1) (toggle_at (get_elem? m.rows i) m)

unfoldable pub range_select : ℕ → Model → Model
range_select to m =
    let lo = min m.cursor to in
    let hi = max m.cursor to in set_cursor (pos to) (toggle_range (hi + 1 - lo) lo m)

-- A click on a row, which is toggled with Ctrl; a row that is not there panics then.
unfoldable pub click : ℕ → (ctrl alt : Bool) → Model → Option Model
click index ctrl alt m =
    if alt
    then some (range_select index m)
    else if ctrl
    then elim (get_elem? m.rows index) [
      | none ↦ none
      | some c ↦ some (toggle_checked_revision (item_of c) (set_cursor (pos index) m))
    ]
    else some (set_cursor (pos index) m)

-- Whether more rows are asked for.
unfoldable pub request_more_rows : ℕ → Model → Model × Bool
request_more_rows tag m =
    if m.request_in_flight || not m.has_streamer || not m.has_more || not (tag == m.tag)
    then (m, false)
    else (record m { request_in_flight = true }, true)

unfoldable pub go_to_top : Model → Model
go_to_top m =
    if length m.rows == 0 then m else record (set_cursor (pos 0) m) { ensure_cursor_view = true }

unfoldable pub go_to_bottom : Model → Model × Bool
go_to_bottom m =
    if length m.rows == 0
    then (m, false)
    else request_more_rows m.tag
        (record (set_cursor (pos (length m.rows - 1)) m) { ensure_cursor_view = true })
