-- ===== src/Revisions/Starting/Given.antt =====
-- What a started operation works on (internal/ui/revisions/revisions.go).
use jjui.Revisions.Starting.{
  OperationKind, Started, operation, nothing_started, squash, to_parent_or_down, start_squash,
  given_or_selected, start_operation,
}
use jjui.Jj.Selections.{Commit, SelectedRevisions, not_nil, new_selected_revisions}
use jjui.Jj.Commands.Queries.{get_parent}
use jjui.Jj.Files.{FileName}
use jjui.Prelude.{
  ap, ◌∙◌, arith, ℕ, ◌+◌, ◌-◌, min, ◌≡◌, refl, String, Bool, true, false, Option, none, some, List,
  [], ◌∷◌, ◌==◌, keep, length, get_elem?, found_at, ltb,
}
use jjui.Revisions.{
  Model, selected_revision, selected_revisions, select_revision_exact, is_checked, some_all,
  set_cursor,
}
use jjui.Revisions.Cursor.{is_placed, is_within, is_within-select_revision_exact}
use jjui.Revisions.Reachable.{Reachable, is_placed-reachable}

-- The revisions of the intent; without any, those of the rows that are checked, in the order of the
-- rows; and without any of these, the one under the cursor.
abbrev pub or_under : Commit → List Commit → List Commit
or_under under [] = under ∷ []
or_under under (c ∷ cs) = c ∷ cs

abbrev pub chosen : List Commit → Model → Commit → List Commit
chosen (d ∷ ds) m under = d ∷ ds
chosen [] m under = or_under under (keep (is_checked m.checked_revisions) m.rows)

abbrev pub works_on : List Commit → OperationKind → Commit → Started
works_on cs kind under = operation kind (record { revisions = cs }) (some under)

-- Where the cursor goes before a squash: to the parent, if it is a row, or else one row down, but not
-- past the last row.
abbrev pub goes_to : Option ℕ → Model → ℕ
goes_to (some parent) m = parent
goes_to none m = min (m.cursor + 1) (length m.rows - 1)

-- The operation on the chosen revisions, with the row under the cursor, and nothing else; and the
-- squash, with the row that the cursor goes to.
pub record WorksOn (run : List String → String × Bool) (m : Model) (given : List Commit)
    (kind : OperationKind) (files : List FileName) : Type 0 where
  pub under : Commit
  pub at_cursor : get_elem? m.rows m.cursor ≡ some under
  pub starts :
      start_operation kind (record { revisions = given }) m
      ≡ works_on (chosen given m under) kind under
  pub to : ℕ
  pub goes :
      to
      ≡ goes_to
          (select_revision_exact
            (run (get_parent (record { revisions = chosen given m under }))).0
            m.rows)
          m
  pub target : Commit
  pub at_target : get_elem? m.rows to ≡ some target
  pub squashes :
      (start_squash run files (record { revisions = given }) m).1
      ≡ works_on (chosen given m under) (squash files) target
  pub moves : (start_squash run files (record { revisions = given }) m).0.cursor ≡ to
  pub keeps_rows : (start_squash run files (record { revisions = given }) m).0.rows ≡ m.rows

not_nil-some_all : (cs : List Commit) → not_nil (some_all cs) ≡ cs
unfolding not_nil
not_nil-some_all [] = refl
not_nil-some_all (c ∷ cs) = ap (λ xs. c ∷ xs) (not_nil-some_all cs)

kept_or_under :
    (kept : List Commit) (o : Option Commit) (x : Commit)
    → o ≡ some x
    → (elim kept as (λ ks. SelectedRevisions) [
      | [] ↦ new_selected_revisions (o ∷ [])
      | c ∷ cs ↦ new_selected_revisions (some_all (c ∷ cs))
    ])
      ≡ record { revisions = or_under x kept }
unfolding new_selected_revisions not_nil
kept_or_under [] o x e = rw e refl
kept_or_under (c ∷ cs) o x e = ap (λ xs. record { revisions = c ∷ xs }) (not_nil-some_all cs)

given_or_selected-chosen :
    (given : List Commit) (m : Model) (x : Commit)
    → selected_revision m ≡ some x
    → given_or_selected (record { revisions = given }) m ≡ record { revisions = chosen given m x }
unfolding given_or_selected selected_revisions
given_or_selected-chosen [] m x e =
    kept_or_under (keep (is_checked m.checked_revisions) m.rows) (selected_revision m) x e
given_or_selected-chosen (c ∷ cs) m x e = refl

-- There is a chosen revision.
some_chosen :
    (given : List Commit) (m : Model) (x : Commit)
    → (c : Commit) × (cs : List Commit) × (chosen given m x ≡ c ∷ cs)
some_chosen (c ∷ cs) m x = (c, cs, refl)
some_chosen [] m x = go (keep (is_checked m.checked_revisions) m.rows)
  where
    go : (kept : List Commit) → (c : Commit) × (cs : List Commit) × (or_under x kept ≡ c ∷ cs)
    go [] = (x, [], refl)
    go (c ∷ cs) = (c, cs, refl)

moved-goes :
    (run : List String → String × Bool) (selected : SelectedRevisions) (o : Option ℕ) (m : Model)
    → select_revision_exact (run (get_parent selected)).0 m.rows ≡ o
    → is_within (length m.rows) o ≡ true
    → is_placed m ≡ true
    → length m.rows == 0 ≡ false
    → ((to_parent_or_down run selected m).cursor ≡ goes_to o m)
      × ((to_parent_or_down run selected m).rows ≡ m.rows)
unfolding to_parent_or_down set_cursor
moved-goes run selected none m e w h k = rw (to_parent_or_down, e) (ground arith)
moved-goes run selected (some i) m e w h k = rw (to_parent_or_down, e) (ground arith)

goes-within :
    (o : Option ℕ) (m : Model)
    → is_within (length m.rows) o ≡ true
    → length m.rows == 0 ≡ false
    → ltb (goes_to o m) (length m.rows) ≡ true
goes-within none m w k = ground arith
goes-within (some i) m w k = w

started_of :
    (xs : List Commit) (c : Commit) (cs : List Commit) (s : Started)
    → xs ≡ c ∷ cs
    → (elim xs as (λ ys. Started) [ [] ↦ nothing_started | d ∷ ds ↦ s ]) ≡ s
started_of xs c cs s e = rw e refl

moved_of :
    (xs : List Commit) (c : Commit) (cs : List Commit) (m : Model) (s : Model × Started)
    → xs ≡ c ∷ cs
    → (elim xs as (λ ys. Model × Started) [ [] ↦ (m, nothing_started) | d ∷ ds ↦ s ]) ≡ s
moved_of xs c cs m s e = rw e refl

operation_started :
    (kind : OperationKind) (given : List Commit) (m : Model) (x : Commit)
    → selected_revision m ≡ some x
    → start_operation kind (record { revisions = given }) m ≡ works_on (chosen given m x) kind x
unfolding start_operation
operation_started kind given m x e =
    let s = given_or_selected-chosen given m x e in
    let (c, cs, f) = some_chosen given m x in
    rw (start_operation, s, e) (started_of (chosen given m x) c cs _ f)

squash_started :
    (run : List String → String × Bool) (files : List FileName) (given : List Commit) (m : Model)
    (x y : Commit)
    → selected_revision m ≡ some x
    → selected_revision (to_parent_or_down run (record { revisions = chosen given m x }) m) ≡ some y
    → start_squash run files (record { revisions = given }) m ≡ (
      to_parent_or_down run (record { revisions = chosen given m x }) m,
      works_on (chosen given m x) (squash files) y,
    )
unfolding start_squash
squash_started run files given m x y e g =
    let now : SelectedRevisions = record { revisions = chosen given m x } in
    let sel : SelectedRevisions = given_or_selected (record { revisions = given }) m in
    let s : sel ≡ now = given_or_selected-chosen given m x e in
    let (c, cs, f) = some_chosen given m x in
    let after = λ (r : SelectedRevisions). to_parent_or_down run r m in
    let of : SelectedRevisions → Option Commit → Model × Started =
      λ r o. (after r, operation (squash files) r o) in
    moved_of sel.revisions c cs m (of sel (selected_revision (after sel)))
      (ap (λ (r : SelectedRevisions). r.revisions) s ∙ f)
    ∙ ap (λ (r : SelectedRevisions). of r (selected_revision (after r))) s
    ∙ ap (of now) g

-- In each state that messages lead to and that has rows, rebase, revert, duplicate and abandon start
-- on the revisions of the intent; without any, on the checked ones in the order of the rows; and
-- without any of these, on the one under the cursor; and they are handed the one under the cursor. So
-- is squash, after the cursor went to the parent of these revisions, if that is a row, or else one
-- row down, but not past the last one.
pub start_operation-WorksOn :
    (run : List String → String × Bool) (m : Model) (given : List Commit) (kind : OperationKind)
    (files : List FileName)
    → Reachable run m
    → length m.rows == 0 ≡ false
    → WorksOn run m given kind files
unfolding selected_revision
start_operation-WorksOn run m given kind files r h =
    let p = is_placed-reachable run m r in
    let (x, e) = found_at m.rows m.cursor (ground (arith, p, h)) in
    let now : SelectedRevisions = record { revisions = chosen given m x } in
    let o = select_revision_exact (run (get_parent now)).0 m.rows in
    let w = is_within-select_revision_exact (run (get_parent now)).0 m.rows in
    let (at, rows) = moved-goes run now o m refl w p h in
    let (y, f) = found_at m.rows (goes_to o m) (goes-within o m w h) in
    let g : selected_revision (to_parent_or_down run now m) ≡ some y = rw (rows, at) f in
    let s = squash_started run files given m x y e g in
    record {
      under = x;
      at_cursor = e;
      starts = operation_started kind given m x e;
      to = goes_to o m;
      goes = refl;
      target = y;
      at_target = f;
      squashes = ap (λ q. q.1) s;
      moves = ap (λ q. q.0.cursor) s ∙ at;
      keeps_rows = ap (λ q. q.0.rows) s ∙ rows;
    }
