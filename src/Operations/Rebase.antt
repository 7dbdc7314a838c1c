-- ===== src/Operations/Rebase.antt =====
-- The rebase operation (internal/ui/operations/rebase/rebase_operation.go). The answer to the delayed
-- query for the highlighted revisions is an event of its own.
pub mod Choosing
pub mod Drawing
use Prim.Native.String.{◌++◌ as append}
use jjui.Jj.Commands.Changes.{rebase, rebase_insert}
use jjui.Jj.Commands.Queries.{get_ids_from_revset}
use jjui.Jj.Selections.{Commit, SelectedRevisions, get_change_id, get_ids, equal, last}
use jjui.Operations.{
  ModeTarget, is_gap, target_to_flags, close, close_applied, start_ace_jump, open_target_picker,
  refresh_and_select, Effect, nothing, send, run, look_up, Handled, taken, refused, forget, id_of,
  SelectedRevision, commit_of, named_or_selected,
}
use jjui.Prelude.{String, Bool, false, not, Option, none, some, List, [], ◌∷◌, if◌then◌else◌}
use jjui.Prelude.Texts.{split_lines, trim_space, is_empty, join}

pub data Source : Type 0 where
  source_revision source_branch source_descendants : Source

unfoldable pub source_to_flags : Source → String
source_to_flags source_branch = "--branch"
source_to_flags source_revision = "--revisions"
source_to_flags source_descendants = "--source"

pub record Operation : Type 0 where
  pub revisions : SelectedRevisions
  pub insert_start : Option Commit
  pub to : Option Commit
  pub source : Source
  pub target : ModeTarget
  pub target_name : String
  pub highlighted_ids : List String
  pub skip_emptied : Bool

pub data RebaseSource : Type 0 where
  rebase_source_revision rebase_source_branch rebase_source_descendants : RebaseSource

pub data Intent : Type 0 where
  ace_jump open_picker toggle_skip_emptied cancel other_intent : Intent
  set_source : RebaseSource → Intent
  set_target : ModeTarget → Intent
  apply : (force : Bool) → Intent

pub data Event : Type 0 where
  target_selected : String → (force : Bool) → Event
  update_highlighted_ids : List String → Event
  -- `none` is a selected item that is no revision.
  selection_changed : Option SelectedRevision → Event
  intent : Intent → Event
  other_event : Event

abbrev pub target_arg : Operation → String
target_arg r = named_or_selected r.target_name r.to

unfoldable pub rebase_source_from_intent : RebaseSource → Source
rebase_source_from_intent rebase_source_revision = source_revision
rebase_source_from_intent rebase_source_branch = source_branch
rebase_source_from_intent rebase_source_descendants = source_descendants

-- The command of `Apply`, if the pointers that it reads are not nil.
unfoldable pub apply_args : Bool → Operation → Option (List String)
apply_args force r =
    let source = source_to_flags r.source in
    if is_gap r.target
    then elim (id_of r.insert_start) [
      | none ↦ none
      | some insert_after ↦
          some (rebase_insert r.revisions source insert_after (target_arg r) r.skip_emptied force)
    ]
    else some
        (rebase r.revisions source (target_arg r) (target_to_flags r.target) r.skip_emptied force)

abbrev pub apply_with : Option (List String) → Operation → Handled Operation
apply_with none r = none
apply_with (some args) r =
    taken r (run args (refresh_and_select (last r.revisions) ∷ close_applied ∷ []))

unfoldable pub handle_intent : Intent → Operation → Handled Operation
handle_intent ace_jump r = taken r (send start_ace_jump)
handle_intent (set_source source) r =
    taken (record r { source = rebase_source_from_intent source }) nothing
handle_intent (set_target target) r =
    taken
      (record r { target = target; insert_start = if is_gap target then r.to else r.insert_start })
      nothing
handle_intent open_picker r = taken r (send open_target_picker)
handle_intent toggle_skip_emptied r = taken (record r { skip_emptied = not r.skip_emptied }) nothing
handle_intent (apply force) r = apply_with (apply_args force r) r
handle_intent cancel r = taken r (send close)
handle_intent other_intent r = refused r

abbrev pub refresh_from : Source → String → Operation → Operation × Effect
refresh_from source_revision id r = (record r { highlighted_ids = get_ids r.revisions }, nothing)
refresh_from source_branch id r = (
  r,
  look_up (
      get_ids_from_revset
        (append "(" (append id (append "..(" (append (join "|" (get_ids r.revisions)) "))::"))))),
)
refresh_from source_descendants id r =
    (r, look_up (get_ids_from_revset (append "(" (append (join "|" (get_ids r.revisions)) ")::"))))

unfoldable pub refresh_highlighted_ids : Operation → Operation × Effect
refresh_highlighted_ids r = elim r.to [
  | none ↦ (r, nothing)
  | some c ↦ refresh_from r.source (get_change_id c) r
]

-- What the answer of jj becomes.
abbrev pub highlighted_from : List String → List String
highlighted_from (id ∷ []) = if is_empty id then [] else id ∷ []
highlighted_from ids = ids

unfoldable pub read_highlighted : String → List String
read_highlighted output = highlighted_from (split_lines (trim_space output))

unfoldable pub set_selected_revision : Option Commit → Operation → Operation × Effect
set_selected_revision none r = (r, nothing)
set_selected_revision (some commit) r =
    if equal r.to (some commit)
    then (r, nothing)
    else refresh_highlighted_ids (record r { to = some commit })

unfoldable pub update : Event → Operation → Option (Operation × Effect)
update (target_selected target force) r =
    forget (handle_intent (apply force) (record r { target_name = trim_space target }))
update (update_highlighted_ids ids) r = some (record r { highlighted_ids = ids }, nothing)
update (selection_changed none) r = some (r, nothing)
update (selection_changed (some selected)) r =
    some (set_selected_revision (some (commit_of selected)) r)
update (intent i) r = forget (handle_intent i r)
update other_event r = some (r, nothing)

unfoldable pub new_operation : SelectedRevisions → Option Commit → Source → ModeTarget → Operation
new_operation revisions current source target = record {
  revisions = revisions;
  insert_start = none;
  to = current;
  source = source;
  target = target;
  target_name = "";
  highlighted_ids = [];
  skip_emptied = false;
}
