-- ===== src/Jj/Commands/Queries.antt =====
-- The commands that read the repository (internal/jj/commands.go). The template of the
-- configuration that `Log` looks up is its argument.
use Prim.Native.String.{◌++◌ as append}
use jjui.Jj.Commands.{flag_if}
use jjui.Jj.Files.{FileName, escaped, file_is_empty, new_file_name}
use jjui.Jj.Selections.{SelectedRevisions, Commit, get_ids}
use jjui.Prelude.{zero, suc, String, Bool, not, List, [], ◌∷◌, ◌++◌, str_eq, if◌then◌else◌}
use jjui.Prelude.Int.{ℤ, pos, negsuc}
use jjui.Prelude.Texts.{join, itoa}

abbrev pub jjui_prefix : String
jjui_prefix = "_PREFIX:"

-- The tail of arguments of several queries.
abbrev quiet_with : String → List String
quiet_with template =
    "--color" ∷ "never" ∷ "--no-graph" ∷ "--quiet" ∷ "--ignore-working-copy" ∷ "--template"
    ∷ template ∷ []

unfoldable pub config_list_all : List String
config_list_all =
    "config" ∷ "list" ∷ "--color" ∷ "never" ∷ "--include-defaults" ∷ "--ignore-working-copy" ∷ []

-- The limit is not passed where it is not positive.
abbrev pub limit_args : ℤ → List String
limit_args (pos zero) = []
limit_args (pos (suc n)) = "--limit" ∷ itoa (suc n) ∷ []
limit_args (negsuc n) = []

unfoldable pub log_prefix : String
log_prefix = append "stringify('" (
    append jjui_prefix (
      append "' ++ separate('" (
        append jjui_prefix
          "', change_id.shortest() ++ if(divergent, \"/\" ++ change_offset), commit_id.shortest(), bookmarks.len() > 0, local_bookmarks.len() > 0, current_working_copy || working_copies.len() > 0, root, empty))")))

unfoldable pub log : (config_template revset : String) → ℤ → (jj_template : String) → List String
log config_template revset limit jj_template =
    "log" ∷ "--color" ∷ "always" ∷ "--quiet" ∷ (if str_eq revset "" then [] else "-r" ∷ revset ∷ [])
    ++ limit_args limit
    ++ "-T"
      ∷ append log_prefix (
          append " ++ ' ' ++ " (if str_eq config_template "" then jj_template else config_template))
      ∷ []

unfoldable pub get_description : String → List String
get_description revision =
    "log" ∷ "-r" ∷ revision ∷ "--template" ∷ "description" ∷ "--no-graph" ∷ "--ignore-working-copy"
    ∷ "--color" ∷ "never" ∷ "--quiet" ∷ []

unfoldable pub diff : String → FileName → List String → List String
diff revision file_name extra_args =
    "diff"
      ∷ "-r"
      ∷ revision
      ∷ "--color"
      ∷ "always"
      ∷ "--ignore-working-copy"
      ∷ (if file_is_empty file_name then [] else escaped file_name ∷ [])
    ++ extra_args

unfoldable pub diff_range : (source to : String) → List String
diff_range source to =
    "diff" ∷ "--from" ∷ source ∷ (if str_eq to "" then [] else "--to" ∷ to ∷ [])
    ++ "--color" ∷ "always" ∷ "--ignore-working-copy" ∷ []

unfoldable pub annotation_diff : String → List String
annotation_diff revision =
    "diff" ∷ "-r" ∷ revision ∷ "--git" ∷ "--color" ∷ "never" ∷ "--ignore-working-copy" ∷ []

unfoldable pub file_show : (revision file_name : String) → List String
file_show revision file_name =
    "file"
    ∷ "show"
    ∷ "-r"
    ∷ revision
    ∷ "--color"
    ∷ "never"
    ∷ "--no-pager"
    ∷ "--quiet"
    ∷ "--ignore-working-copy"
    ∷ "--template"
    ∷ ""
    ∷ escaped (new_file_name file_name)
    ∷ []

unfoldable pub status : String → List String
status revision =
    "log" ∷ "-r" ∷ revision ∷ "--summary" ∷ "--no-graph" ∷ "--color" ∷ "never" ∷ "--quiet"
    ∷ "--template" ∷ "separate(\";\", diff.files().map(|x| x.target().conflict())) ++ \" $\\n\""
    ∷ "--ignore-working-copy" ∷ []

unfoldable pub tag_list : List String
tag_list =
    "tag" ∷ "list" ∷ "--template" ∷ "name ++ '\n'" ∷ "--color" ∷ "never" ∷ "--ignore-working-copy"
    ∷ []

unfoldable pub git_remote_list : List String
git_remote_list = "git" ∷ "remote" ∷ "list" ∷ []

unfoldable pub evolog_prefix : String
evolog_prefix = append "stringify('" (
    append jjui_prefix (
      append "' ++ separate('" (
        append jjui_prefix
          "', commit.change_id().shortest(), commit.commit_id().shortest(), commit.root(), commit.empty()))")))

unfoldable pub evolog : String → List String
evolog revision =
    "evolog"
    ∷ "-r"
    ∷ revision
    ∷ "--color"
    ∷ "always"
    ∷ "--quiet"
    ∷ "--ignore-working-copy"
    ∷ "--template"
    ∷ append evolog_prefix (append " ++ ' ' ++ " "builtin_evolog_compact")
    ∷ []

unfoldable pub op_log_id : Bool → List String
op_log_id snapshot =
    "op"
    ∷ "log"
    ∷ "--color"
    ∷ "never"
    ∷ "--quiet"
    ∷ "--no-graph"
    ∷ "--limit"
    ∷ "1"
    ∷ "--template"
    ∷ "id"
    ∷ flag_if (not snapshot) "--ignore-working-copy"

unfoldable pub op_log : ℤ → List String
op_log limit =
    "op" ∷ "log" ∷ "--color" ∷ "always" ∷ "--quiet" ∷ "--ignore-working-copy" ∷ limit_args limit

unfoldable pub op_show : String → List String
op_show operation_id =
    "op" ∷ "show" ∷ operation_id ∷ "--color" ∷ "always" ∷ "--ignore-working-copy" ∷ []

unfoldable pub get_parent : SelectedRevisions → List String
get_parent revisions =
    let joined = join "|" (get_ids revisions) in
    "log"
    ∷ "-r"
    ∷ append "heads(::fork_point(" (append joined (append ") & ~present(" (append joined "))")))
    ∷ "-n"
    ∷ "1"
    ∷ quiet_with "commit_id.shortest()"

unfoldable pub get_parents : String → List String
get_parents revision =
    "log" ∷ "-r" ∷ revision ∷ quiet_with "parents.map(|x| x.commit_id().shortest())"

unfoldable pub get_first_child : Commit → List String
get_first_child revision =
    "log" ∷ "-r" ∷ append revision.commit_id "+" ∷ "-n" ∷ "1" ∷ quiet_with "commit_id.shortest()"

unfoldable pub files_in_revision : Commit → List String
files_in_revision revision =
    "file" ∷ "list" ∷ "-r" ∷ revision.commit_id ∷ "--color" ∷ "never" ∷ "--no-pager" ∷ "--quiet"
    ∷ "--ignore-working-copy" ∷ "--template" ∷ "self.path() ++ \"\n\"" ∷ []

unfoldable pub get_ids_from_revset : String → List String
get_ids_from_revset revset =
    "log"
    ∷ "-r"
    ∷ revset
    ∷ quiet_with "change_id.shortest() ++ if(divergent, \"/\" ++ change_offset) ++ \"\\n\""

unfoldable pub absorb_default_targets : String → List String
absorb_default_targets source = get_ids_from_revset (append "mutable() & ::" source)

unfoldable pub get_revision_summaries_from_revset : String → List String
get_revision_summaries_from_revset revset =
    "log"
    ∷ "-r"
    ∷ revset
    ∷ quiet_with
        "change_id.shortest() ++ if(divergent, \"/\" ++ change_offset) ++ \"\\t\" ++ description.first_line() ++ \"\\n\""

unfoldable pub resolve_revision_id : String → List String
resolve_revision_id revision =
    "log"
    ∷ "-r"
    ∷ revision
    ∷ "-n"
    ∷ "1"
    ∷ quiet_with "change_id.shortest() ++ \";\" ++ commit_id.shortest() ++ \"\\n\""

unfoldable pub revset_validate : String → List String
revset_validate revset = "log" ∷ "-r" ∷ revset ∷ "-n" ∷ "1" ∷ "--ignore-working-copy" ∷ []
