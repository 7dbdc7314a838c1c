-- ===== src/Revisions/Cursor.antt =====
-- The cursor (internal/ui/revisions/revisions.go): the states that messages lead to, and the row that
-- it stands on.
use jjui.Jj.Selections.{Commit, get_change_id}
use jjui.Operations.{SelectedRevision}
use jjui.Prelude.{
  ℕ, suc, ◌≡◌, refl, inl, inr, String, Bool, true, not, ◌&&◌, ◌||◌, Option, none, some, List, [],
  ◌∷◌, arith, ltb, leb, ◌==◌, if◌then◌else◌, length, Bool-cases,
}
use jjui.Prelude.Int.{ℤ, pos}
use jjui.Prelude.Texts.{is_empty}
use jjui.Revisions.{
  Model, set_cursor, index_of, select_revision_exact, is_revision, selected_revision,
  toggle_checked_revision, request_more_rows, clear_checked_revisions,
}
use jjui.Revisions.Loading.{
  show_rows, target_cursor, take_reload, or_else, index_or, id_or_empty, move_to, update_graph_rows,
  refresh,
}
use jjui.Revisions.Messages.{streaming_ready}

abbrev pub is_placed : Model → Bool
is_placed m = leb (length m.rows) 0 || ltb m.cursor (length m.rows)

-- An index that was found is one of so many rows.
abbrev pub is_within : ℕ → Option ℕ → Bool
is_within n none = true
is_within n (some i) = ltb i n

within_step :
    (n : ℕ) (o : Option ℕ) (b : Bool)
    → is_within n o ≡ true
    → is_within (suc n) (if b then some 0 else elim o [ none ↦ none | some i ↦ some (suc i) ])
      ≡ true
within_step n none b h = ground arith
within_step n (some i) b h = ground arith

pub is_within-index_of :
    (p : Commit → Bool) (rows : List Commit) → is_within (length rows) (index_of p rows) ≡ true
unfolding index_of
is_within-index_of p [] = refl
is_within-index_of p (c ∷ cs) =
    within_step (length cs) (index_of p cs) (p c) (is_within-index_of p cs)

pub is_within-select_revision_exact :
    (r : String) (rows : List Commit)
    → is_within (length rows) (select_revision_exact r rows) ≡ true
unfolding select_revision_exact
is_within-select_revision_exact r rows = is_within-index_of (is_revision r) rows

is_within-or_else :
    (n : ℕ) (a b : Option ℕ)
    → is_within n a ≡ true
    → is_within n b ≡ true
    → is_within n (or_else a b) ≡ true
is_within-or_else n none b h k = k
is_within-or_else n (some i) b h k = h

-- The rows change to those that the index is among.
placed_in_graph :
    (rows : List Commit) (o : Option ℕ) (view : Bool) (m : Model)
    → is_within (length rows) o ≡ true
    → is_placed (
        if length rows == 0
        then record m { rows = rows; cursor = 0 }
        else if view
        then set_cursor (pos (index_or o 0)) (record m { rows = rows })
        else record m { rows = rows; cursor = index_or o 0 })
      ≡ true
unfolding set_cursor
placed_in_graph rows none view m h = ground arith
placed_in_graph rows (some i) view m h = ground arith

pub is_placed-update_graph_rows :
    (rows : List Commit) (r : String) (view : Bool) (m : Model)
    → is_placed (update_graph_rows rows r view m) ≡ true
unfolding update_graph_rows
is_placed-update_graph_rows rows r view m =
    let wanted = if is_empty r then id_or_empty (selected_revision m) else r in
    placed_in_graph rows
      (or_else (select_revision_exact wanted rows) (select_revision_exact "@" rows)) view m
      (is_within-or_else (length rows) (select_revision_exact wanted rows)
        (select_revision_exact "@" rows) (is_within-select_revision_exact wanted rows)
        (is_within-select_revision_exact "@" rows))

-- The first row, where the cursor is past the last one.
abbrev fallback : Model → Option ℕ
fallback m = if not (length m.rows == 0) && leb (length m.rows) m.cursor then some 0 else none

is_placed-move_to :
    (a b : Option ℕ) (k : Bool) (m : Model)
    → is_within (length m.rows) a ≡ true
    → is_within (length m.rows) b ≡ true
    → is_placed (move_to (or_else a (or_else b (fallback m))) k m) ≡ true
unfolding set_cursor
is_placed-move_to none none k m h g = ground arith
is_placed-move_to none (some i) k m h g = ground arith
is_placed-move_to (some i) b k m h g = ground arith

within_chosen :
    (r : String) (rows : List Commit)
    → is_within (length rows) (if is_empty r then none else select_revision_exact r rows) ≡ true
within_chosen r rows = elim (Bool-cases (is_empty r)) [
  | inl e ↦ rw e refl
  | inr e ↦ rw e (is_within-select_revision_exact r rows)
]

within_current :
    (c : Option Commit) (rows : List Commit)
    → is_within
        (length rows)
        (elim c [ none ↦ none | some x ↦ select_revision_exact (get_change_id x) rows ])
      ≡ true
within_current none rows = refl
within_current (some c) rows = is_within-select_revision_exact (get_change_id c) rows

pub is_placed-show_rows : (t : ℕ) (m : Model) → is_placed (show_rows t m) ≡ true
unfolding show_rows target_cursor
is_placed-show_rows t m =
    let r = (take_reload t m).0 in
    let shown = record (take_reload t m).1 { rows = m.off_screen_rows } in
    let cur = selected_revision m in
    is_placed-move_to
      (if is_empty r.selected_revision
        then none
        else select_revision_exact r.selected_revision shown.rows)
      (elim cur [ none ↦ none | some x ↦ select_revision_exact (get_change_id x) shown.rows ])
      r.keep_selections shown (within_chosen r.selected_revision shown.rows)
      (within_current cur shown.rows)

pub is_placed-set_cursor :
    (i : ℤ) (m : Model) → is_placed m ≡ true → is_placed (set_cursor i m) ≡ true
unfolding set_cursor
is_placed-set_cursor i m h = ground arith

is_placed-toggle_checked_revision :
    (i : SelectedRevision) (m : Model)
    → is_placed m ≡ true
    → is_placed (toggle_checked_revision i m) ≡ true
unfolding toggle_checked_revision
is_placed-toggle_checked_revision i m h = h

pub is_placed-request_more_rows :
    (t : ℕ) (m : Model) → is_placed m ≡ true → is_placed (request_more_rows t m).0 ≡ true
unfolding request_more_rows
is_placed-request_more_rows t m h = ground arith

pub is_placed-refresh :
    (s : String) (k : Bool) (m : Model) → is_placed m ≡ true → is_placed (refresh s k m) ≡ true
unfolding refresh clear_checked_revisions
is_placed-refresh s k m h = ground arith

pub is_placed-streaming_ready :
    (s : String) (a b : Bool) (t : ℕ) (m : Model)
    → is_placed m ≡ true
    → is_placed (streaming_ready s a b t m).0 ≡ true
unfolding streaming_ready request_more_rows
is_placed-streaming_ready s a b t m h = ground arith
