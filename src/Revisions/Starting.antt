-- ===== src/Revisions/Starting.antt =====
-- The operations and commands that the list of revisions starts (the start and open methods of
-- internal/ui/revisions/revisions.go), on the revisions of the intent, or else on those that the list
-- has selected. A model that another package makes is its name with what it is made of.
pub mod Given
use jjui.Jj.Commands.Changes.{new, commit_working_copy, edit, diff_edit, split, describe}
use jjui.Jj.Commands.Queries.{get_parent}
use jjui.Jj.Files.{FileName}
use jjui.Jj.Selections.{Commit, SelectedRevisions, get_change_id, is_root}
use jjui.Operations.{ModeTarget}
use jjui.Operations.Rebase.{Source}
use jjui.Prelude.{
  ℕ, ◌+◌, ◌-◌, String, Bool, true, false, Option, none, some, List, [], ◌∷◌, ltb, if◌then◌else◌,
  length,
}
use jjui.Prelude.Int.{pos}
use jjui.Prelude.Texts.{is_empty}
use jjui.Revisions.{Model, set_cursor, selected_revision, selected_revisions, select_revision_exact}

-- An operation that works on revisions, with the revision under the cursor.
pub data OperationKind : Type 0 where
  squash : (files : List FileName) → OperationKind
  rebase : Source → ModeTarget → OperationKind
  revert : ModeTarget → OperationKind
  duplicate abandon : OperationKind

pub data CommitKind : Type 0 where
  set_parents absorb : CommitKind

pub data Started : Type 0 where
  nothing_started : Started
  operation : OperationKind → SelectedRevisions → (current : Option Commit) → Started
  commit_operation : CommitKind → Commit → (current : Option Commit) → Started
  view_of : (name : String) → Commit → Started
  set_bookmark : (revision value : String) → Started
  diff_range : (current : Option Commit) → Started
  new_between : SelectedRevisions → (current : Option Commit) → Started
  run_command : List String → (select : String) → Started
  run_interactive : List String → Started
  annotation_show : (change_id : String) → Started

-- The revisions of the intent, or else the selected ones.
unfoldable pub given_or_selected : SelectedRevisions → Model → SelectedRevisions
given_or_selected given m = elim given.revisions [ [] ↦ selected_revisions m | c ∷ cs ↦ given ]

unfoldable pub commit_or_selected : Option Commit → Model → Option Commit
commit_or_selected none m = selected_revision m
commit_or_selected (some c) m = some c

abbrev pub unless_none : SelectedRevisions → Started → Started
unless_none selected started = elim selected.revisions [ [] ↦ nothing_started | c ∷ cs ↦ started ]

abbrev pub unless_nil : Option Commit → (Commit → Started) → Started
unless_nil none started = nothing_started
unless_nil (some c) started = started c

-- To the parent of the revisions, or else one row down.
unfoldable pub to_parent_or_down : (List String → String × Bool) → SelectedRevisions → Model → Model
to_parent_or_down run selected m =
    elim (select_revision_exact (run (get_parent selected)).0 m.rows) [
      | some i ↦ set_cursor (pos i) m
      | none ↦ if ltb (m.cursor + 1) (length m.rows) then set_cursor (pos (m.cursor + 1)) m else m
    ]

unfoldable pub start_squash :
    (List String → String × Bool)
    → List FileName
    → (given : SelectedRevisions) → Model
    → Model × Started
start_squash run files given m =
    let selected = given_or_selected given m in
    let moved = to_parent_or_down run selected m in
    elim selected.revisions [
      | [] ↦ (m, nothing_started)
      | c ∷ cs ↦ (moved, operation (squash files) selected (selected_revision moved))
    ]

-- `startRebase`, `startRevert`, `startDuplicate` and `startAbandon`.
unfoldable pub start_operation : OperationKind → (given : SelectedRevisions) → Model → Started
start_operation kind given m =
    let selected = given_or_selected given m in
    unless_none selected (operation kind selected (selected_revision m))

-- `startSetParents` and `startAbsorb`.
unfoldable pub start_commit_operation : CommitKind → (given : Option Commit) → Model → Started
start_commit_operation kind given m =
    unless_nil (commit_or_selected given m) (λ c. commit_operation kind c (selected_revision m))

unfoldable pub open_details : Model → Started
open_details m = unless_nil (selected_revision m) (view_of "details")

unfoldable pub start_evolog : (given : Option Commit) → Model → Started
start_evolog given m = unless_nil (commit_or_selected given m) (view_of "evolog")

unfoldable pub start_inline_describe : (given : Option Commit) → Model → Started
start_inline_describe given m = unless_nil (commit_or_selected given m) (view_of "inline_describe")

unfoldable pub start_new : (given : SelectedRevisions) → Model → Started
start_new given m = run_command (new (given_or_selected given m)) "@"

unfoldable pub start_commit_working_copy : Started
start_commit_working_copy = run_interactive commit_working_copy

unfoldable pub start_edit : (given : Option Commit) → (ignore_immutable : Bool) → Model → Started
start_edit given ignore_immutable m =
    unless_nil (commit_or_selected given m)
      (λ c. run_command (edit (get_change_id c) ignore_immutable) "")

unfoldable pub start_diff_edit : (given : Option Commit) → Model → Started
start_diff_edit given m =
    unless_nil (commit_or_selected given m) (λ c. run_interactive (diff_edit (get_change_id c)))

unfoldable pub start_describe : (given : SelectedRevisions) → Model → Started
start_describe given m =
    let selected = given_or_selected given m in
    unless_none selected (run_interactive (describe selected))

unfoldable pub start_split :
    (given : Option Commit) → List FileName → (parallel interactive : Bool) → Model → Started
start_split given files parallel interactive m =
    unless_nil (commit_or_selected given m)
      (λ c. run_interactive (split (get_change_id c) files parallel interactive))

unfoldable pub open_annotation : (given : Option Commit) → Model → Started
open_annotation given m =
    unless_nil (commit_or_selected given m)
      (λ c. if is_root c then nothing_started else annotation_show (get_change_id c))

unfoldable pub start_bookmark_set : (revision value : String) → Model → Started
start_bookmark_set revision value m =
    if is_empty revision
    then unless_nil (selected_revision m) (λ c. set_bookmark (get_change_id c) value)
    else set_bookmark revision value
