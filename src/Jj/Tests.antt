-- ===== src/Jj/Tests.antt =====
-- Paths with quotes, a selection of two revisions, and the commands on them (internal/jj).
use jjui.Jj.Files.{
  FileName, escaped, shell_escaped, read_file_pattern, replace_char, read_file_pattern-escaped,
}
use jjui.Jj.Selections.{
  Commit, SelectedRevisions, new_selected_revisions, get_ids, last, equal, is_root, get_change_id,
  contains_commit, not_nil, equal_commits, as_prefixed_args, prefixed,
}
use jjui.Jj.Toggling.{IsDistinct}
use jjui.Jj.Commands.{escaped_files}
use jjui.Jj.Commands.Changes.{set_parents, less_parents, squash}
use jjui.Jj.Commands.Queries.{op_log}
use jjui.Jj.Commands.Reading.{read_args, takes_value}
use jjui.Jj.Commands.Requests.{Request, rebasing, args_of, asked, IsWellFlagged, read_args-args_of}
use jjui.Prelude.{String, ◌≡◌, refl, true, false, none, some, List, [], ◌∷◌}
use jjui.Prelude.Int.{pos}
use jjui.Prelude.Texts.{itoa}

abbrev odd_name : FileName
odd_name = record { path = "a\"b\\c'd" }

escaped_odd : escaped odd_name ≡ "file:\"a\\\"b\\\\c'd\""
unfolding escaped replace_char
escaped_odd = refl

shell_escaped_odd : shell_escaped odd_name ≡ "'a\"b\\c'\\''d'"
unfolding shell_escaped replace_char
shell_escaped_odd = refl

abbrev commit_named : String → String → Commit
commit_named change commit = record {
  change_id = change;
  is_working_copy = false;
  hidden = false;
  has_bookmarks = false;
  has_local_bookmarks = false;
  has_workspace = false;
  root = false;
  is_empty_commit = false;
  commit_id = commit;
}

abbrev hidden_commit : Commit
hidden_commit = record (commit_named "kk" "c3") { hidden = true }

abbrev two_selected : SelectedRevisions
two_selected = record { revisions = commit_named "qp" "c1" ∷ hidden_commit ∷ [] }

two_selected-IsDistinct : IsDistinct two_selected.revisions
unfolding contains_commit get_change_id
two_selected-IsDistinct = (refl, (refl, tt))

ids_of_two : get_ids two_selected ≡ "qp" ∷ "c3" ∷ []
unfolding get_ids get_change_id
ids_of_two = refl

selected_are_not_nil :
    new_selected_revisions (none ∷ some hidden_commit ∷ [])
    ≡ record { revisions = hidden_commit ∷ [] }
unfolding new_selected_revisions not_nil
selected_are_not_nil = refl

last_of_two : last two_selected ≡ "c3"
unfolding last get_change_id
last_of_two = refl

equal_without_commit : equal (some (commit_named "qp" "")) (some (commit_named "qp" "c1")) ≡ true
unfolding equal equal_commits get_change_id
equal_without_commit = refl

root_by_id : is_root (commit_named "zzzzzzzz" "0") ≡ true
unfolding is_root
root_by_id = refl

-- The hidden commit is deselected, selected again, and "qp" deselected.
abbrev toggles : List Commit
toggles = hidden_commit ∷ hidden_commit ∷ commit_named "qp" "c1" ∷ []

read_file_pattern-escaped_example : read_file_pattern (escaped odd_name) ≡ some "a\"b\\c'd"
read_file_pattern-escaped_example = read_file_pattern-escaped odd_name

abbrev rebase_of_two : Request
rebase_of_two = rebasing two_selected "-s" "trunk" "--insert-after" true false

rebase_of_two-IsWellFlagged : IsWellFlagged rebase_of_two
unfolding takes_value
rebase_of_two-IsWellFlagged = (refl, refl)

read_args-args_of_example : read_args none (args_of rebase_of_two) ≡ some (asked rebase_of_two)
read_args-args_of_example = read_args-args_of rebase_of_two rebase_of_two-IsWellFlagged

squash_two :
    squash two_selected "trunk" (odd_name ∷ []) true false false true
    ≡ "squash" ∷ "--from" ∷ "qp" ∷ "--from" ∷ "c3" ∷ "--into" ∷ "trunk" ∷ "--keep-emptied"
      ∷ "--ignore-immutable" ∷ "file:\"a\\\"b\\\\c'd\"" ∷ []
unfolding squash as_prefixed_args prefixed get_change_id escaped_files escaped replace_char
squash_two = refl

set_two_parents :
    set_parents "x" ("a" ∷ []) ("b" ∷ "c" ∷ [])
    ≡ "rebase" ∷ "-s" ∷ "x" ∷ "-d" ∷ "parents(x) ~ b ~ c" ∷ "-d" ∷ "a" ∷ []
unfolding set_parents less_parents prefixed
set_two_parents = refl

op_log_limited :
    op_log (pos 120)
    ≡ "op" ∷ "log" ∷ "--color" ∷ "always" ∷ "--quiet" ∷ "--ignore-working-copy" ∷ "--limit" ∷ "120"
      ∷ []
unfolding op_log itoa
op_log_limited = refl
