-- ===== src/Jj/Commands/Looking.antt =====
-- The commands that only look at the repository (internal/jj/commands.go).
use jjui.Jj.Commands.Queries.{
  config_list_all, get_description, diff, diff_range, annotation_diff, file_show, status, tag_list,
  evolog, op_log_id, op_log, get_parent, get_parents, get_first_child, files_in_revision,
  get_ids_from_revset, get_revision_summaries_from_revset, absorb_default_targets,
  resolve_revision_id, revset_validate,
}
use jjui.Jj.Commands.Reading.{Arg, option, switch, file, operand, read_args}
use jjui.Jj.Files.{FileName}
use jjui.Jj.Selections.{SelectedRevisions, Commit, get_ids}
use Prim.Native.String.{◌++◌ as append}
use jjui.Prelude.{
  String, ◌≡◌, Bool, true, false, Option, none, some, List, [], ◌∷◌, str_eq, if◌then◌else◌, any,
}
use jjui.Prelude.Int.{ℤ}
use jjui.Prelude.Texts.{join}

-- The calls that look at revisions, each with one revset, and some that look at anything else.
-- Left out are `Log`, a diff with extra arguments, `op show`, `OpLogId` with a snapshot, the lists of
-- bookmarks, and that of the remotes, which jj is asked for without the switch.
pub data Query : Type 0 where
  describing diffing_annotation showing_status evolving seeking_parents seeking_ids : String → Query
  seeking_summaries resolving validating seeking_targets : String → Query
  diffing : String → FileName → Query
  showing_file : String → String → Query
  seeking_parent : SelectedRevisions → Query
  seeking_child listing_files : Commit → Query
  listing_config listing_tags seeking_operation : Query
  listing_operations : ℤ → Query
  comparing : String → String → Query

abbrev pub query_args : Query → List String
query_args (describing r) = get_description r
query_args (diffing_annotation r) = annotation_diff r
query_args (showing_status r) = status r
query_args (evolving r) = evolog r
query_args (seeking_parents r) = get_parents r
query_args (seeking_ids r) = get_ids_from_revset r
query_args (seeking_summaries r) = get_revision_summaries_from_revset r
query_args (resolving r) = resolve_revision_id r
query_args (validating r) = revset_validate r
query_args (seeking_targets r) = absorb_default_targets r
query_args (diffing r f) = diff r f []
query_args (showing_file r f) = file_show r f
query_args (seeking_parent s) = get_parent s
query_args (seeking_child c) = get_first_child c
query_args (listing_files c) = files_in_revision c
query_args listing_config = config_list_all
query_args listing_tags = tag_list
query_args seeking_operation = op_log_id false
query_args (listing_operations limit) = op_log limit
query_args (comparing a b) = diff_range a b

-- The revset that is looked at.
abbrev pub looked_at : Query → Option String
looked_at (describing r) = some r
looked_at (diffing_annotation r) = some r
looked_at (showing_status r) = some r
looked_at (evolving r) = some r
looked_at (seeking_parents r) = some r
looked_at (seeking_ids r) = some r
looked_at (seeking_summaries r) = some r
looked_at (resolving r) = some r
looked_at (validating r) = some r
looked_at (seeking_targets r) = some (append "mutable() & ::" r)
looked_at (diffing r f) = some r
looked_at (showing_file r f) = some r
looked_at (seeking_parent s) =
    let joined = join "|" (get_ids s) in
    some
      (append "heads(::fork_point(" (append joined (append ") & ~present(" (append joined "))"))))
looked_at (seeking_child c) = some (append c.commit_id "+")
looked_at (listing_files c) = some c.commit_id
looked_at _ = none

abbrev pub is_ignoring : Arg → Bool
is_ignoring (switch s) = str_eq s "--ignore-working-copy"
is_ignoring _ = false

abbrev pub revset_of : List Arg → Option String
revset_of [] = none
revset_of (option flag v ∷ args) = if str_eq flag "-r" then some v else revset_of args
revset_of (switch s ∷ args) = revset_of args
revset_of (file p ∷ args) = revset_of args
revset_of (operand s ∷ args) = revset_of args

-- Arguments that jj can read, with the switch that leaves the working copy alone, and a revset.
abbrev pub Looks : List String → Option String → Type 0
Looks args revset = elim (read_args none args) [
  | none ↦ ⊥
  | some read ↦ (any is_ignoring read ≡ true) × (revset_of read ≡ revset)
]
