-- ===== src/Revisions/Answered.antt =====
-- The rows and the cursor of the list of revisions after each message (Update of
-- internal/ui/revisions/revisions.go).
use jjui.Jj.Selections.{Commit}
use jjui.Prelude.{
  ℕ, ◌≡◌, refl, inl, inr, String, Bool, true, false, not, ◌||◌, some, List, arith, ltb, ◌==◌,
  length, Bool-cases,
}
use jjui.Prelude.Int.{ℤ}
use jjui.Revisions.{
  Model, set_cursor, toggle_at, selected_revision, request_more_rows, go_to_top, go_to_bottom,
}
use jjui.Revisions.Loading.{append_rows_batch, refresh, update_revisions, take_reload}
use jjui.Revisions.Cursor.{
  is_placed, is_placed-set_cursor, is_placed-refresh, is_placed-streaming_ready,
  is_placed-update_graph_rows,
}
use jjui.Revisions.Messages.{
  Msg, item_clicked, viewport_scroll, update_revisions_failed, update_revisions_msg,
  streaming_ready_msg, append_rows_batch_msg, toggle_select, navigate_msg, go_to_top_msg,
  go_to_bottom_msg, refresh_msg, found_msg, reveal_msg, update, streaming_ready,
}
use jjui.Revisions.Moves.{scroll, reveal_revision}
use jjui.Revisions.Placed.{
  is_placed-append_rows_batch, is_placed-toggle_at, Answers, click-Answers,
  is_placed-reveal_revision, navigate-Answers,
}

pub is_placed-go_to_top : (m : Model) → is_placed m ≡ true → is_placed (go_to_top m) ≡ true
unfolding go_to_top set_cursor
is_placed-go_to_top m h = ground arith

pub is_placed-go_to_bottom : (m : Model) → is_placed m ≡ true → is_placed (go_to_bottom m).0 ≡ true
unfolding go_to_bottom set_cursor request_more_rows
is_placed-go_to_bottom m h = ground arith

is_placed-scroll : (d l : ℤ) (m : Model) → is_placed m ≡ true → is_placed (scroll d l m).0 ≡ true
unfolding scroll request_more_rows
is_placed-scroll d l m h = ground arith

is_placed-update_revisions :
    (rows : List Commit) (t : ℕ) (m : Model)
    → is_placed m ≡ true
    → is_placed (update_revisions rows t m) ≡ true
unfolding update_revisions
is_placed-update_revisions rows t m h = elim (Bool-cases (not (t == m.tag))) [
  | inl e ↦ rw (update_revisions, e) h
  | inr e ↦
      rw (update_revisions, e)
        (let taken = take_reload t (record m { is_loading = false }) in
          is_placed-update_graph_rows rows taken.0.selected_revision (not taken.0.keep_selections)
            taken.1)
]

abbrev answered : (r : Model × Bool) → is_placed r.0 ≡ true → Answers (some r)
answered r h = (r.0, r.1, refl, h)

-- A click with Ctrl is on a row.
abbrev pub is_inside : Msg → Model → Bool
is_inside (item_clicked index ctrl alt blocked) m =
    blocked || alt || not ctrl || ltb index (length m.rows)
is_inside msg m = true

pub update-Answers :
    (run : List String → String × Bool) (msg : Msg) (m : Model)
    → is_inside msg m ≡ true
    → is_placed m ≡ true
    → Answers (update run msg m)
unfolding update
update-Answers run (item_clicked index ctrl alt true) m i h = answered (m, false) h
update-Answers run (item_clicked index ctrl alt false) m i h = click-Answers index ctrl alt m h i
update-Answers run (viewport_scroll d l true) m i h = answered (m, false) h
update-Answers run (viewport_scroll d l false) m i h =
    answered (scroll d l m) (is_placed-scroll d l m h)
update-Answers run update_revisions_failed m i h =
    answered (record m { is_loading = false }, false) h
update-Answers run (update_revisions_msg rows t) m i h =
    answered (update_revisions rows t m, false) (is_placed-update_revisions rows t m h)
update-Answers run (streaming_ready_msg s a b t) m i h =
    answered (streaming_ready s a b t m) (is_placed-streaming_ready s a b t m h)
update-Answers run (append_rows_batch_msg l rows more t) m i h =
    answered (append_rows_batch l rows more t m) (is_placed-append_rows_batch l rows more t m h)
update-Answers run toggle_select m i h =
    answered (toggle_at (selected_revision m) m, false)
      (is_placed-toggle_at (selected_revision m) m h)
update-Answers run (navigate_msg n w) m i h = navigate-Answers run n w m h
update-Answers run go_to_top_msg m i h = answered (go_to_top m, false) (is_placed-go_to_top m h)
update-Answers run go_to_bottom_msg m i h = answered (go_to_bottom m) (is_placed-go_to_bottom m h)
update-Answers run (refresh_msg s k) m i h =
    answered (refresh s k m, false) (is_placed-refresh s k m h)
update-Answers run (found_msg j) m i h =
    answered (set_cursor j m, false) (is_placed-set_cursor j m h)
update-Answers run (reveal_msg r) m i h =
    answered (reveal_revision r m, false) (is_placed-reveal_revision r m h)
