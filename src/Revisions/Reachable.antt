-- ===== src/Revisions/Reachable.antt =====
-- The states that messages lead to (internal/ui/revisions/revisions.go).
use jjui.Jj.Selections.{Commit}
use jjui.Operations.Runs.{run_events}
use mathlib.Core.Bool.{false≢true}
use jjui.Prelude.{
  ℕ, ◌≡◌, refl, sym, ap, ◌∙◌, ◌⊎◌, inl, inr, String, Bool, true, false, not, Option, none, some,
  List, [], ◌∷◌, ◌==◌, length, Bool-cases, All,
}
use jjui.Revisions.{Model, new_model, selected_revision}
use jjui.Revisions.Loading.{update_revisions, append_rows_batch}
use jjui.Revisions.Cursor.{is_placed}
use jjui.Revisions.Messages.{
  Msg, update_revisions_msg, streaming_ready_msg, append_rows_batch_msg, update, streaming_ready,
}
use jjui.Revisions.Answered.{is_inside, update-Answers}
use jjui.Revisions.Placed.{selected_some}

-- The states from the first one on.
pub data Reachable (run : List String → String × Bool) : Model → Type 0 where
  start : Reachable run new_model
  step :
      {m t : Model} (msg : Msg) (more : Bool)
      → Reachable run m
      → is_inside msg m ≡ true
      → update run msg m ≡ some (t, more)
      → Reachable run t

abbrev pub OnRow : Model → Type 0
OnRow m = (length m.rows == 0 ≡ true) ⊎ (c : Commit) × (selected_revision m ≡ some c)

pub row_of_placed : (m : Model) → is_placed m ≡ true → OnRow m
row_of_placed m h = elim (Bool-cases (length m.rows == 0)) [
  | inl e ↦ inl e
  | inr e ↦ inr (selected_some m h e)
]

abbrev is_placed_after : Option (Model × Bool) → Bool
is_placed_after none = false
is_placed_after (some r) = is_placed r.0

module _ (run : List String → String × Bool) where
  pub is_placed-reachable : (m : Model) → Reachable run m → is_placed m ≡ true
  is_placed-reachable m start = refl
  is_placed-reachable m (step {m = s} msg more r i e) =
      let (t, n, f, h) = update-Answers run msg s i (is_placed-reachable s r) in
      ap is_placed_after (sym e ∙ f) ∙ h

  -- In each state that messages lead to, a message is answered without a panic, unless it is a click
  -- with Ctrl past the last row, and then there are no rows or the cursor is on one of them.
  pub update-OnRow :
      (m : Model) (msg : Msg)
      → Reachable run m
      → is_inside msg m ≡ true
      → (t : Model) × (more : Bool) × (update run msg m ≡ some (t, more))
        × Reachable run t
        × OnRow t
  update-OnRow m msg r i =
      let (t, more, e, h) = update-Answers run msg m i (is_placed-reachable m r) in
      (t, more, e, step msg more r i e, row_of_placed t h)

-- An answer to a load that another one has followed.
abbrev pub is_stale : ℕ → Msg → Bool
is_stale tag (update_revisions_msg rows t) = not (t == tag)
is_stale tag (streaming_ready_msg highlighted has_streamer failed t) = not (t == tag)
is_stale tag (append_rows_batch_msg last_row_index rows has_more t) = not (t == tag)
is_stale tag msg = false

abbrev pub Stays : Model → Option (Model × Bool) → Type 0
Stays m r = (b : Bool) × (r ≡ some (record m { request_in_flight = b }, false))

pub update-Stays :
    (run : List String → String × Bool) (msg : Msg) (m : Model)
    → is_stale m.tag msg ≡ true
    → Stays m (update run msg m)
unfolding update update_revisions streaming_ready append_rows_batch
update-Stays run (update_revisions_msg rows t) m h =
    (m.request_in_flight, rw (update_revisions, h) refl)
update-Stays run (streaming_ready_msg s a b t) m h =
    (m.request_in_flight, rw (streaming_ready, h) refl)
update-Stays run (append_rows_batch_msg l rows more t) m h = (false, rw (append_rows_batch, h) refl)
update-Stays run msg m h = absurd (false≢true h)

-- Whatever answers come to loads that another one has followed, none of them changes the list of
-- revisions: only the note that a request is under way may be gone.
pub run_events-Stays :
    (run : List String → String × Bool) (msgs : List Msg) (m : Model)
    → All (λ msg. is_stale m.tag msg ≡ true) msgs
    → (b : Bool) × (run_events (update run) msgs m ≡ some (record m { request_in_flight = b }))
unfolding run_events
run_events-Stays run [] m h = (m.request_in_flight, refl)
run_events-Stays run (msg ∷ msgs) m h =
    let (b, e) = update-Stays run msg m h.0 in
    let (c, f) = run_events-Stays run msgs (record m { request_in_flight = b }) h.1 in
    (c, rw (run_events, e) f)
