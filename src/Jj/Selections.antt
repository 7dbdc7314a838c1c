-- ===== src/Jj/Selections.antt =====
-- Commits and the selected revisions (internal/jj/commit.go, internal/jj/selected_revisions.go). A
-- pointer that may be nil is an option; the commits of a selection are not nil.
use jjui.Prelude.{
  String, Bool, true, false, not, ◌||◌, Option, none, some, List, [], ◌∷◌, ◌++◌, map, str_eq,
  if◌then◌else◌, any,
}

pub record Commit : Type 0 where
  pub change_id : String
  pub is_working_copy : Bool
  pub hidden : Bool
  pub has_bookmarks : Bool
  pub has_local_bookmarks : Bool
  pub has_workspace : Bool
  pub root : Bool
  pub is_empty_commit : Bool
  pub commit_id : String

abbrev pub root_change_id : String
root_change_id = "zzzzzzzz"

unfoldable pub is_root : Commit → Bool
is_root c = c.root || str_eq c.change_id root_change_id

unfoldable pub get_change_id : Commit → String
get_change_id c = if c.hidden then c.commit_id else c.change_id

unfoldable pub equal_commits : Commit → Commit → Bool
equal_commits c other =
    if not (str_eq (get_change_id c) (get_change_id other))
    then false
    else if str_eq c.commit_id "" || str_eq other.commit_id ""
    then true
    else str_eq c.commit_id other.commit_id

-- `Equal`, where either may be nil.
unfoldable pub equal : Option Commit → Option Commit → Bool
equal none none = true
equal none (some c) = false
equal (some c) none = false
equal (some c) (some other) = equal_commits c other

pub record SelectedRevisions : Type 0 where
  pub revisions : List Commit

unfoldable pub not_nil : List (Option Commit) → List Commit
not_nil [] = []
not_nil (none ∷ cs) = not_nil cs
not_nil (some c ∷ cs) = c ∷ not_nil cs

unfoldable pub new_selected_revisions : List (Option Commit) → SelectedRevisions
new_selected_revisions cs = record { revisions = not_nil cs }

abbrev pub same_id : Commit → Commit → Bool
same_id a b = str_eq (get_change_id a) (get_change_id b)

unfoldable pub contains_commit : List Commit → Commit → Bool
contains_commit rs c = any (λ r. same_id r c) rs

unfoldable pub contains : SelectedRevisions → Option Commit → Bool
contains s none = false
contains s (some c) = contains_commit s.revisions c

-- The revisions less the first with the identifier, for `slices.IndexFunc` and the two slices.
unfoldable pub remove_first : List Commit → Commit → List Commit
remove_first [] c = []
remove_first (r ∷ rs) c = let rest = remove_first rs c in if same_id r c then rs else r ∷ rest

unfoldable pub remove : SelectedRevisions → Option Commit → SelectedRevisions
remove s none = s
remove s (some c) = record { revisions = remove_first s.revisions c }

unfoldable pub add : SelectedRevisions → Option Commit → SelectedRevisions
add s none = s
add s (some c) = record { revisions = s.revisions ++ c ∷ [] }

unfoldable pub toggle : SelectedRevisions → Option Commit → SelectedRevisions
toggle s none = s
toggle s (some c) = if contains s (some c) then remove s (some c) else add s (some c)

unfoldable pub get_ids : SelectedRevisions → List String
get_ids s = map get_change_id s.revisions

unfoldable pub prefixed : String → List String → List String
prefixed prefix [] = []
prefixed prefix (i ∷ is) = prefix ∷ i ∷ prefixed prefix is

unfoldable pub as_prefixed_args : SelectedRevisions → String → List String
as_prefixed_args s prefix = prefixed prefix (map get_change_id s.revisions)

unfoldable pub as_args : SelectedRevisions → List String
as_args s = as_prefixed_args s "-r"

abbrev pub last_id : List Commit → String
last_id [] = ""
last_id (c ∷ []) = get_change_id c
last_id (c ∷ d ∷ cs) = last_id (d ∷ cs)

unfoldable pub last : SelectedRevisions → String
last s = last_id s.revisions
