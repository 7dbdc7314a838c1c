-- ===== src/Revisions/Moves.antt =====
-- Moving the cursor over the revisions, from the keys, the wheel and a revision that is asked for
-- (`Navigate`, `Scroll` and `RevealRevision`). The runner of jj commands is an argument: the output
-- and whether there was no error.
use Prim.Native.Char.{code}
use jjui.Jj.Commands.Queries.{get_parent, get_first_child, resolve_revision_id}
use jjui.Jj.Selections.{Commit}
use jjui.Prelude.{
  ℕ, String, Bool, true, false, not, ◌&&◌, Option, none, some, List, [], ◌∷◌, ◌==◌, if◌then◌else◌,
  length,
}
use jjui.Prelude.Int.{ℤ, pos, negsuc, ◌+ℤ◌, ◌-ℤ◌, ltb_ℤ, leb_ℤ, max_ℤ}
use jjui.Prelude.Texts.{is_empty, trim_space}
use jjui.Revisions.{
  Model, set_cursor, selected_revision, selected_revisions, select_revision_exact,
  request_more_rows,
}

pub data NavigationTarget : Type 0 where
  target_none : NavigationTarget
  target_parent : NavigationTarget
  target_child : NavigationTarget
  target_working_copy : NavigationTarget

pub record Navigate : Type 0 where
  pub delta : ℤ
  pub is_page : Bool
  pub target : NavigationTarget
  pub change_id : String
  pub ensure_view : Option Bool
  pub allow_stream : Option Bool

-- The rows on the screen, from the renderer of the list.
pub record Window : Type 0 where
  pub first_row_index : ℤ
  pub last_row_index : ℤ

abbrev pub true_or : Option Bool → Bool
true_or none = true
true_or (some b) = b

-- What stands before the first semicolon, and, where there is one, what follows.
unfoldable pub split_at_semicolon : String → String × List String
split_at_semicolon String.[] = ("", [])
split_at_semicolon (String.◌∷◌ c s) =
    let (before, after) = split_at_semicolon s in
    if code c == 59 then ("", s ∷ []) else (String.◌∷◌ c before, after)

abbrev pub set_if_found : Option ℕ → Model → Model
set_if_found none m = m
set_if_found (some i) m = set_cursor (pos i) m

abbrev pub first_found : List String → List Commit → Option ℕ
first_found [] rows = none
first_found (candidate ∷ rest) rows =
    let later = first_found rest rows in
    elim (select_revision_exact (trim_space candidate) rows) [ none ↦ later | some i ↦ some i ]

unfoldable pub resolve_navigation_revision :
    (List String → String × Bool) → String → List Commit → Option ℕ
resolve_navigation_revision run revision rows =
    let (output, ok) = run (resolve_revision_id revision) in
    let (before, after) = split_at_semicolon output in
    if ok then first_found (before ∷ after) rows else none

unfoldable pub jump_to_parent : (List String → String × Bool) → Model → Model
jump_to_parent run m =
    let (output, ok) = run (get_parent (selected_revisions m)) in
    set_if_found (select_revision_exact output m.rows) m

abbrev pub ensuring : Bool → Model → Model
ensuring ensure m = record m { ensure_cursor_view = ensure }

abbrev pub one_if_zero : ℤ → ℤ
one_if_zero (pos n) = if n == 0 then pos 1 else pos n
one_if_zero (negsuc n) = negsuc n

-- The rows to move by, a page for `is_page`.
unfoldable pub step_of : Navigate → Window → ℤ
step_of intent w =
    let delta = one_if_zero intent.delta in
    let span = max_ℤ (w.last_row_index -ℤ w.first_row_index -ℤ pos 1) (pos 1) in
    if intent.is_page then if ltb_ℤ delta (pos 0) then pos 0 -ℤ span else span else delta

-- The cursor moves by the step, and whether more rows are asked for in its place.
unfoldable pub move_by : ℤ → (ensure allow : Bool) → Model → Model × Bool
move_by step ensure allow m =
    let new_cursor = pos m.cursor +ℤ step in
    let total = pos (length m.rows) in
    if ltb_ℤ (pos 0) step
    then if leb_ℤ total new_cursor
      then if allow && m.has_more
        then request_more_rows m.tag m
        else (ensuring ensure (set_cursor (total -ℤ pos 1) m), false)
      else (ensuring ensure (set_cursor new_cursor m), false)
    else if ltb_ℤ new_cursor (pos 0)
    then (ensuring ensure (set_cursor (pos 0) m), false)
    else (ensuring ensure (set_cursor new_cursor m), false)

-- To the named revision, or else to the one that jj resolves it to.
unfoldable pub navigate_to :
    (List String → String × Bool) → String → (ensure : Bool) → Model → Model
navigate_to run revision ensure m = elim (select_revision_exact revision m.rows) [
  | some i ↦ set_cursor (pos i) (ensuring ensure m)
  | none ↦ elim (resolve_navigation_revision run revision m.rows) [
    | some i ↦ set_cursor (pos i) (ensuring ensure m)
    | none ↦ m
  ]
]

-- The child of no revision is a panic.
unfoldable pub navigate_to_child : (List String → String × Bool) → Model → Option Model
navigate_to_child run m = elim (selected_revision m) [
  | none ↦ none
  | some c ↦ some (set_if_found (select_revision_exact (run (get_first_child c)).0 m.rows) m)
]

abbrev pub quietly : Model → Option (Model × Bool)
quietly m = some (m, false)

abbrev pub ensured : (ensure : Bool) → Option Model → Option (Model × Bool)
ensured ensure none = none
ensured ensure (some m) = some (ensuring ensure m, false)

-- The target, and else a step.
unfoldable pub navigate_target :
    (List String → String × Bool) → Navigate → Window → Model → Option (Model × Bool)
navigate_target run intent w m =
    let ensure = true_or intent.ensure_view in
    elim intent.target [
      | target_parent ↦ quietly (ensuring ensure (jump_to_parent run m))
      | target_working_copy ↦
          quietly (ensuring ensure (set_if_found (select_revision_exact "@" m.rows) m))
      | target_child ↦ ensured ensure (navigate_to_child run m)
      | target_none ↦ some (move_by (step_of intent w) ensure (true_or intent.allow_stream) m)
    ]

-- Whether more rows are asked for; `none` is a panic.
unfoldable pub navigate :
    (List String → String × Bool) → Navigate → Window → Model → Option (Model × Bool)
navigate run intent w m =
    if length m.rows == 0
    then quietly m
    else if not (is_empty intent.change_id)
    then quietly (navigate_to run intent.change_id (true_or intent.ensure_view) m)
    else navigate_target run intent w m

-- The wheel: the rows scroll, and whether more of them are asked for at the last one.
unfoldable pub scroll : (delta last_row_index : ℤ) → Model → Model × Bool
scroll delta last_row_index m =
    let next = ensuring false m in
    if m.has_more && ltb_ℤ (pos 0) delta && leb_ℤ (pos (length m.rows) -ℤ pos 1) last_row_index
    then request_more_rows m.tag next
    else (next, false)

unfoldable pub reveal_revision : String → Model → Model
reveal_revision revision m = set_if_found (select_revision_exact revision m.rows) m
