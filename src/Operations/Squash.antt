-- ===== src/Operations/Squash.antt =====
-- The squash operation (internal/ui/operations/squash/squash_operation.go).
pub mod Choosing
use Prim.Native.String.{◌++◌ as append}
use jjui.Jj.Commands.Changes.{squash}
use jjui.Jj.Files.{FileName}
use jjui.Jj.Selections.{Commit, SelectedRevisions, get_change_id, get_ids, equal}
use jjui.Operations.{
  close, close_applied, start_ace_jump, open_target_picker, refresh_and_select, Effect, nothing,
  send, run, run_interactive, batch, Handled, taken, refused, forget, id_of, SelectedRevision,
  commit_of, named_or_selected, RenderPosition, before_change_id, is_at, any_is,
}
use jjui.Operations.Lines.{is_marker}
use mathlib.Core.Path.{subst, fun_ext}
use mathlib.Core.List.{reverse}
use mathlib.Core.Bool.{false≢true}
use jjui.Prelude.{
  ℕ, zero, suc, ◌+◌, ◌-◌, ◌*◌, ◌/◌, ◌%◌, ◌≤◌, ◌<◌, min, max, String, ◌≡◌, refl, sym, ap, ◌∙◌, ◌≢◌,
  ◌↔◌, ◌⊎◌, inl, inr, Bool, true, false, not, ◌&&◌, ◌||◌, Option, none, some, Memᴰ, List, [], ◌∷◌,
  ◌++◌, map, arith, str_eq, eq_iff, eq_refl, ltb, leb, ◌==◌, ==_iff, if◌then◌else◌, ltb→lt, lt→ltb,
  leb→le, tests, Bool-cases, Option-cases, length, get_elem?, take, drop, replicate, keep, any, All,
  length-append, length-replicate, All-append, All-keep, All-map, All-both, All-reverse,
  split_reverse, of-mem-keep, mem-keep,
}
use jjui.Prelude.Int.{
  ℤ, pos, negsuc, pos_part, neg_part, sub_ℕ, ◌+ℤ◌, ◌-ℤ◌, ◌≤ℤ◌, ◌<ℤ◌, ltb_ℤ, leb_ℤ, min_ℤ, max_ℤ,
  half_ℤ, +ℤ_parts, -ℤ_parts, eq_of_parts, min_ℤ_le, le-max_ℤ, int_laws,
}
use jjui.Prelude.Maps.{Map, lookup, insert, delete, lookup-insert, lookup-delete}
use jjui.Prelude.Texts.{trim_space, is_empty, is_space, join, join_onto, itoa, split_lines}

pub record Operation : Type 0 where
  pub revisions : SelectedRevisions
  pub files : List FileName
  pub current : Option Commit
  pub target_name : String
  pub keep_emptied : Bool
  pub use_destination_message : Bool
  pub interactive : Bool

pub data SquashOption : Type 0 where
  option_keep_emptied option_use_destination_message option_interactive : SquashOption

pub data Intent : Type 0 where
  ace_jump open_picker cancel other_intent : Intent
  toggle_option : SquashOption → Intent
  apply : (force : Bool) → Intent

pub data Event : Type 0 where
  target_selected : String → (force : Bool) → Event
  -- `none` is a selected item that is no revision.
  selection_changed : Option SelectedRevision → Event
  intent : Intent → Event
  other_event : Event

abbrev pub target_arg : Operation → String
target_arg s = named_or_selected s.target_name s.current

unfoldable pub apply_args : Bool → Operation → List String
apply_args force s =
    squash s.revisions (target_arg s) s.files s.keep_emptied s.use_destination_message s.interactive
      force

-- A command that opens the editor has the terminal.
abbrev pub opens_editor : Operation → Bool
opens_editor s = s.interactive || not s.use_destination_message

abbrev pub apply_and_select : List String → Option String → Operation → Handled Operation
apply_and_select args none s = none
apply_and_select args (some id) s = taken s (
    batch (send close_applied) (
      if opens_editor s
      then run_interactive args (refresh_and_select id)
      else run args (refresh_and_select id ∷ [])))

unfoldable pub toggled_option : SquashOption → Operation → Operation
toggled_option option_keep_emptied s = record s { keep_emptied = not s.keep_emptied }
toggled_option option_use_destination_message s = record s {
  use_destination_message = not s.use_destination_message;
}
toggled_option option_interactive s = record s { interactive = not s.interactive }

unfoldable pub handle_intent : Intent → Operation → Handled Operation
handle_intent ace_jump s = taken s (send start_ace_jump)
handle_intent (apply force) s = apply_and_select (apply_args force s) (id_of s.current) s
handle_intent open_picker s = taken s (send open_target_picker)
handle_intent cancel s = taken s (send close)
handle_intent (toggle_option o) s = taken (toggled_option o s) nothing
handle_intent other_intent s = refused s

unfoldable pub set_selected_revision : Option Commit → Operation → Operation
set_selected_revision commit s = if equal s.current commit then s else record s { current = commit }

unfoldable pub update : Event → Operation → Option (Operation × Effect)
update (target_selected target force) s =
    forget (handle_intent (apply force) (record s { target_name = trim_space target }))
update (selection_changed none) s = some (s, nothing)
update (selection_changed (some selected)) s =
    some (set_selected_revision (some (commit_of selected)) s, nothing)
update (intent i) s = forget (handle_intent i s)
update other_event s = some (s, nothing)

-- The marker before the identifier of a revision.
unfoldable pub render : Operation → Commit → RenderPosition → String
render s commit at =
    if not (is_marker at)
    then ""
    else if is_at s.current commit
    then if s.use_destination_message then "<< use this message >>" else "<< into >>"
    else if any_is (get_ids s.revisions) commit.change_id
    then (let marker = if s.keep_emptied then "<< keep empty >>" else "<< from >>" in
        if s.interactive then append marker " (interactive)" else marker)
    else ""

-- The option is the files.
unfoldable pub new_operation : SelectedRevisions → Option Commit → List FileName → Operation
new_operation revisions current files = record {
  revisions = revisions;
  files = files;
  current = current;
  target_name = "";
  keep_emptied = false;
  use_destination_message = false;
  interactive = false;
}
