-- ===== src/Revisions/Placed.antt =====
-- The rows and the cursor of the list of revisions after a click, a batch and a move
-- (internal/ui/revisions/revisions.go).
use jjui.Jj.Commands.Queries.{get_parent, get_first_child}
use jjui.Jj.Selections.{Commit}
use jjui.Prelude.{
  ℕ, zero, suc, ◌+◌, ◌-◌, min, max, ◌≡◌, refl, inl, inr, String, Bool, true, false, not, ◌&&◌, ◌||◌,
  Option, none, some, List, ◌++◌, arith, ltb, ◌==◌, if◌then◌else◌, length, get_elem?, found_at,
  Bool-cases, Option-cases,
}
use jjui.Prelude.Int.{ℤ, pos, ltb_ℤ, ◌+ℤ◌}
use jjui.Prelude.Texts.{is_empty}
use jjui.Revisions.{
  Model, set_cursor, toggle_at, toggle_range, select_revision_exact, selected_revision,
  selected_revisions, click, range_select, item_of, toggle_checked_revision, request_more_rows,
}
use jjui.Revisions.Loading.{append_rows_batch, show_rows}
use jjui.Revisions.Cursor.{
  is_placed, is_placed-set_cursor, is_placed-request_more_rows, is_placed-show_rows,
}
use jjui.Revisions.Messages.{alone}
use jjui.Revisions.Moves.{
  NavigationTarget, target_none, target_parent, target_child, target_working_copy, Navigate, Window,
  true_or, set_if_found, resolve_navigation_revision, jump_to_parent, ensuring, step_of, move_by,
  navigate_to, navigate_to_child, ensured, navigate_target, navigate, reveal_revision,
}

placed_either :
    (a b : Bool) (x y z : Model × Bool)
    → is_placed x.0 ≡ true
    → is_placed y.0 ≡ true
    → is_placed z.0 ≡ true
    → is_placed (if a then x else if b then y else z).0 ≡ true
placed_either true b x y z h k l = h
placed_either false true x y z h k l = k
placed_either false false x y z h k l = l

pub is_placed-append_rows_batch :
    (l : ℤ) (rows : List Commit) (more : Bool) (t : ℕ) (m : Model)
    → is_placed m ≡ true
    → is_placed (append_rows_batch l rows more t m).0 ≡ true
unfolding append_rows_batch
is_placed-append_rows_batch l rows more t m h =
    let all = m.off_screen_rows ++ rows in
    let next = record m {
      request_in_flight = false;
      off_screen_rows = all;
      has_more = more;
      is_loading = more && ltb 0 (length all);
    } in
    placed_either (not (t == m.tag))
      (more && (ltb (length all) (m.cursor + 1) || ltb_ℤ (pos (length all)) (l +ℤ pos 1)))
      (record m { request_in_flight = false }, false) (request_more_rows t next)
      (show_rows t next, false) h (is_placed-request_more_rows t next h)
      (is_placed-show_rows t next)

pub is_placed-toggle_at :
    (o : Option Commit) (m : Model) → is_placed m ≡ true → is_placed (toggle_at o m) ≡ true
unfolding toggle_checked_revision
is_placed-toggle_at none m h = h
is_placed-toggle_at (some c) m h = h

is_placed-toggle_range :
    (n i : ℕ) (m : Model) → is_placed m ≡ true → is_placed (toggle_range n i m) ≡ true
unfolding toggle_range
is_placed-toggle_range zero i m h = h
is_placed-toggle_range (suc n) i m h =
    is_placed-toggle_range n (i + 1) (toggle_at (get_elem? m.rows i) m)
      (is_placed-toggle_at (get_elem? m.rows i) m h)

is_placed-move_by :
    (s : ℤ) (a b : Bool) (m : Model) → is_placed m ≡ true → is_placed (move_by s a b m).0 ≡ true
unfolding move_by set_cursor request_more_rows
is_placed-move_by s a b m h = ground arith

is_placed-set_if_found :
    (o : Option ℕ) (m : Model) → is_placed m ≡ true → is_placed (set_if_found o m) ≡ true
is_placed-set_if_found none m h = h
is_placed-set_if_found (some i) m h = is_placed-set_cursor (pos i) m h

pub selected_some :
    (m : Model)
    → is_placed m ≡ true
    → (length m.rows == 0) ≡ false
    → (c : Commit) × (selected_revision m ≡ some c)
unfolding selected_revision
selected_some m h e = found_at m.rows m.cursor (ground arith)

abbrev pub Answers : Option (Model × Bool) → Type 0
Answers r = (t : Model) × (more : Bool) × (r ≡ some (t, more)) × (is_placed t ≡ true)

pub click-Answers :
    (i : ℕ) (ctrl alt : Bool) (m : Model)
    → is_placed m ≡ true
    → (alt || not ctrl || ltb i (length m.rows)) ≡ true
    → Answers (alone (click i ctrl alt m))
unfolding click range_select
click-Answers i ctrl true m h e = (
  range_select i m,
  false,
  refl,
  is_placed-set_cursor (pos i)
      (toggle_range (max m.cursor i + 1 - min m.cursor i) (min m.cursor i) m)
      (is_placed-toggle_range (max m.cursor i + 1 - min m.cursor i) (min m.cursor i) m h),
)
click-Answers i false false m h e =
    (set_cursor (pos i) m, false, refl, is_placed-set_cursor (pos i) m h)
click-Answers i true false m h e =
    let (c, at) = found_at m.rows i e in
    (
      toggle_checked_revision (item_of c) (set_cursor (pos i) m),
      false,
      rw at refl,
      is_placed-toggle_at (some c) (set_cursor (pos i) m) (is_placed-set_cursor (pos i) m h),
    )

is_placed-navigate_to :
    (run : List String → String × Bool) (r : String) (e : Bool) (m : Model)
    → is_placed m ≡ true
    → is_placed (navigate_to run r e m) ≡ true
unfolding navigate_to
is_placed-navigate_to run r e m h = elim (Option-cases (select_revision_exact r m.rows)) [
  | inr (i, at) ↦ rw (navigate_to, at) (is_placed-set_cursor (pos i) (ensuring e m) h)
  | inl at ↦ elim (Option-cases (resolve_navigation_revision run r m.rows)) [
    | inr (i, at') ↦ rw (navigate_to, at, at') (is_placed-set_cursor (pos i) (ensuring e m) h)
    | inl at' ↦ rw (navigate_to, at, at') h
  ]
]

navigate_to_child-Answers :
    (run : List String → String × Bool) (e : Bool) (m : Model)
    → is_placed m ≡ true
    → (length m.rows == 0) ≡ false
    → Answers (ensured e (navigate_to_child run m))
unfolding navigate_to_child
navigate_to_child-Answers run e m h k =
    let (c, at) = selected_some m h k in
    let o = select_revision_exact (run (get_first_child c)).0 m.rows in
    (
      ensuring e (set_if_found o m),
      false,
      rw (navigate_to_child, at) refl,
      is_placed-set_if_found o m h,
    )

pub is_placed-reveal_revision :
    (r : String) (m : Model) → is_placed m ≡ true → is_placed (reveal_revision r m) ≡ true
unfolding reveal_revision
is_placed-reveal_revision r m h = is_placed-set_if_found (select_revision_exact r m.rows) m h

navigate_target-Answers :
    (run : List String → String × Bool) (n : Navigate) (t : NavigationTarget) (w : Window)
    (m : Model)
    → n.target ≡ t
    → is_placed m ≡ true
    → (length m.rows == 0) ≡ false
    → Answers (navigate_target run n w m)
unfolding navigate_target jump_to_parent step_of
navigate_target-Answers run n target_none w m e h k =
    let ensure = true_or n.ensure_view in
    let allow = true_or n.allow_stream in
    (
      (move_by (step_of n w) ensure allow m).0,
      (move_by (step_of n w) ensure allow m).1,
      rw (navigate_target, e) refl,
      is_placed-move_by (step_of n w) ensure allow m h,
    )
navigate_target-Answers run n target_parent w m e h k =
    let ensure = true_or n.ensure_view in
    (
      ensuring ensure (jump_to_parent run m),
      false,
      rw (navigate_target, e) refl,
      is_placed-set_if_found
          (select_revision_exact (run (get_parent (selected_revisions m))).0 m.rows) m h,
    )
navigate_target-Answers run n target_child w m e h k =
    rw (navigate_target, e) (navigate_to_child-Answers run (true_or n.ensure_view) m h k)
navigate_target-Answers run n target_working_copy w m e h k =
    let ensure = true_or n.ensure_view in
    (
      ensuring ensure (set_if_found (select_revision_exact "@" m.rows) m),
      false,
      rw (navigate_target, e) refl,
      is_placed-set_if_found (select_revision_exact "@" m.rows) m h,
    )

pub navigate-Answers :
    (run : List String → String × Bool) (n : Navigate) (w : Window) (m : Model)
    → is_placed m ≡ true
    → Answers (navigate run n w m)
unfolding navigate
navigate-Answers run n w m h = elim (Bool-cases (length m.rows == 0)) [
  | inl e ↦ (m, false, rw (navigate, e) refl, h)
  | inr e ↦ elim (Bool-cases (is_empty n.change_id)) [
    | inl i ↦ rw (navigate, e, i) (navigate_target-Answers run n n.target w m refl h e)
    | inr i ↦ (
      navigate_to run n.change_id (true_or n.ensure_view) m,
      false,
      rw (navigate, e, i) refl,
      is_placed-navigate_to run n.change_id (true_or n.ensure_view) m h,
    )
  ]
]
