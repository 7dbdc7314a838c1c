-- ===== src/Jj/Commands/Changes.antt =====
-- The commands that change the repository (internal/jj/commands.go).
use Prim.Native.String.{◌++◌ as append}
use jjui.Jj.Commands.{flag_if, escaped_files, CommandWithStdin}
use jjui.Jj.Files.{FileName}
use jjui.Jj.Selections.{SelectedRevisions, as_args, as_prefixed_args, prefixed}
use jjui.Prelude.{String, Bool, List, [], ◌∷◌, ◌++◌}

unfoldable pub new : SelectedRevisions → List String
new revisions = "new" ∷ as_args revisions

unfoldable pub new_insert : SelectedRevisions → SelectedRevisions → List String
new_insert insert_after insert_before =
    "new" ∷ as_prefixed_args insert_after "--insert-after"
    ++ as_prefixed_args insert_before "--insert-before"

unfoldable pub commit_working_copy : List String
commit_working_copy = "commit" ∷ []

unfoldable pub edit : String → Bool → List String
edit change_id ignore_immutable =
    "edit" ∷ "-r" ∷ change_id ∷ flag_if ignore_immutable "--ignore-immutable"

unfoldable pub diff_edit : String → List String
diff_edit change_id = "diffedit" ∷ "-r" ∷ change_id ∷ []

unfoldable pub split : String → List FileName → (parallel interactive : Bool) → List String
split revision files parallel interactive =
    "split" ∷ "-r" ∷ revision ∷ flag_if parallel "--parallel"
    ++ (flag_if interactive "--interactive" ++ escaped_files files)

unfoldable pub describe : SelectedRevisions → List String
describe revisions = "describe" ∷ "--editor" ∷ as_args revisions

unfoldable pub set_description : (revision description : String) → Bool → CommandWithStdin
set_description revision description ignore_immutable = record {
  args = "describe" ∷ "-r" ∷ revision ∷ "--stdin" ∷ flag_if ignore_immutable "--ignore-immutable";
  input = description;
}

unfoldable pub abandon : SelectedRevisions → Bool → List String
abandon revision ignore_immutable =
    "abandon" ∷ "--retain-bookmarks" ∷ as_args revision
    ++ flag_if ignore_immutable "--ignore-immutable"

unfoldable pub restore : String → List FileName → Bool → List String
restore revision files interactive =
    "restore" ∷ "-c" ∷ revision ∷ flag_if interactive "--interactive" ++ escaped_files files

unfoldable pub restore_evolog : (source into : String) → List String
restore_evolog source into =
    "restore" ∷ "--from" ∷ source ∷ "--into" ∷ into ∷ "--restore-descendants" ∷ []

unfoldable pub undo : List String
undo = "undo" ∷ []

unfoldable pub redo : List String
redo = "redo" ∷ []

unfoldable pub snapshot : List String
snapshot = "debug" ∷ "snapshot" ∷ []

unfoldable pub bookmark_set : (revision name : String) → List String
bookmark_set revision name = "bookmark" ∷ "set" ∷ "-r" ∷ revision ∷ name ∷ []

unfoldable pub bookmark_rename : (old_name new_name : String) → List String
bookmark_rename old_name new_name = "bookmark" ∷ "rename" ∷ old_name ∷ new_name ∷ []

unfoldable pub squash :
    SelectedRevisions
    → String
    → List FileName
    → (keep_emptied use_destination_message interactive ignore_immutable : Bool) → List String
squash source destination files keep_emptied use_destination_message interactive ignore_immutable =
    "squash" ∷ as_prefixed_args source "--from"
    ++ ("--into" ∷ destination ∷ flag_if keep_emptied "--keep-emptied"
        ++ (flag_if use_destination_message "--use-destination-message"
            ++ (flag_if interactive "--interactive"
                ++ (flag_if ignore_immutable "--ignore-immutable" ++ escaped_files files))))

unfoldable pub git_fetch : List String → List String
git_fetch flags = "git" ∷ "fetch" ∷ flags

unfoldable pub git_push : List String → List String
git_push flags = "git" ∷ "push" ∷ flags

unfoldable pub rebase :
    SelectedRevisions
    → (source_prefix to target : String) → (skip_emptied ignore_immutable : Bool) → List String
rebase source source_prefix to target skip_emptied ignore_immutable =
    "rebase" ∷ as_prefixed_args source source_prefix
    ++ (target ∷ to ∷ flag_if ignore_immutable "--ignore-immutable"
        ++ flag_if skip_emptied "--skip-emptied")

unfoldable pub rebase_insert :
    SelectedRevisions
    → (source_prefix insert_after insert_before : String) → (skip_emptied ignore_immutable : Bool)
    → List String
rebase_insert source source_prefix insert_after insert_before skip_emptied ignore_immutable =
    "rebase" ∷ as_prefixed_args source source_prefix
    ++ ("--insert-before"
          ∷ insert_before
          ∷ "--insert-after"
          ∷ insert_after
          ∷ flag_if ignore_immutable "--ignore-immutable"
        ++ flag_if skip_emptied "--skip-emptied")

-- The removed parents in the revset.
unfoldable pub less_parents : String → List String → String
less_parents revset [] = revset
less_parents revset (r ∷ rs) = less_parents (append revset (append " ~ " r)) rs

unfoldable pub set_parents : String → (parents_to_add parents_to_remove : List String) → List String
set_parents to parents_to_add parents_to_remove =
    "rebase"
    ∷ "-s"
    ∷ to
    ∷ "-d"
    ∷ less_parents (append "parents(" (append to ")")) parents_to_remove
    ∷ prefixed "-d" parents_to_add

unfoldable pub revert : SelectedRevisions → (to source target : String) → List String
revert revisions to source target = "revert" ∷ as_prefixed_args revisions source ++ target ∷ to ∷ []

unfoldable pub revert_insert :
    SelectedRevisions → (insert_after insert_before : String) → List String
revert_insert source insert_after insert_before =
    "revert" ∷ as_args source
    ++ "--insert-before" ∷ insert_before ∷ "--insert-after" ∷ insert_after ∷ []

unfoldable pub duplicate : SelectedRevisions → (to target : String) → List String
duplicate source to target = "duplicate" ∷ as_prefixed_args source "-r" ++ target ∷ to ∷ []

unfoldable pub duplicate_insert :
    SelectedRevisions → (insert_after insert_before : String) → List String
duplicate_insert source insert_after insert_before =
    "duplicate" ∷ as_prefixed_args source "-r"
    ++ "--insert-before" ∷ insert_before ∷ "--insert-after" ∷ insert_after ∷ []

unfoldable pub absorb : String → (into : List String) → List FileName → List String
absorb change_id into files =
    "absorb" ∷ "--from" ∷ change_id ∷ "--color" ∷ "never" ∷ prefixed "--into" into
    ++ escaped_files files

unfoldable pub op_restore : String → List String
op_restore operation_id = "op" ∷ "restore" ∷ operation_id ∷ []

unfoldable pub op_revert : String → List String
op_revert operation_id = "op" ∷ "revert" ∷ operation_id ∷ []
