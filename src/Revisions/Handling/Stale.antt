-- ===== src/Revisions/Handling/Stale.antt =====
-- Answers to loads that another one has followed, on their way through Update of
-- internal/ui/revisions/revisions.go.
use jjui.Jj.Selections.{Commit}
use mathlib.Core.Bool.{false≢true}
use jjui.Prelude.{
  ◌≡◌, refl, String, Bool, true, false, not, Option, none, some, List, [], ◌∷◌, ◌++◌, ◌==◌, All,
}
use jjui.Revisions.Handling.{
  Message, loaded_msg, streaming_msg, batch_msg, Updated, listed, handle, on_loaded, on_batch,
  on_streaming,
}
use jjui.Revisions.Intents.{Intent}
use jjui.Revisions.Layers.{RevisionsView}
use jjui.Revisions.Messages.{
  update_revisions_msg, streaming_ready_msg, append_rows_batch_msg, update,
}
use jjui.Revisions.Reachable.{Stays, update-Stays}
use jjui.Revisions.Sending.{Models}
use jjui.Prelude.{ℕ}
use jjui.Revisions.{Model}

abbrev pub is_stale_answer : ℕ → Message → Bool
is_stale_answer tag (loaded_msg rows t) = not (t == tag)
is_stale_answer tag (streaming_msg highlighted has_streamer failed t) = not (t == tag)
is_stale_answer tag (batch_msg last_row_index rows has_more t) = not (t == tag)
is_stale_answer tag msg = false

abbrev pub with_request : Bool → RevisionsView → RevisionsView
with_request b v = record v { list = record v.list { request_in_flight = b } }

module _ (run : List String → String × Bool) (texts_of : Commit → List String) {F : Type 0}
    (models : Models Message Intent F) where
  -- The messages one after the other, with all that the program is asked for.
  unfoldable pub handle_all : List Message → RevisionsView → Updated F
  handle_all [] v = some (v, [])
  handle_all (msg ∷ msgs) v = elim (handle run texts_of models msg v) [
    | none ↦ none
    | some (w, effects) ↦ elim (handle_all msgs w) [
      | none ↦ none
      | some (u, more) ↦ some (u, effects ++ more)
    ]
  ]

  abbrev Quiet : RevisionsView → Updated F → Type 0
  Quiet v r = (b : Bool) × (r ≡ some (with_request b v, []))

  listed-Quiet :
      (v : RevisionsView) (r : Option (Model × Bool)) → Stays v.list r → Quiet v (listed r v)
  listed-Quiet v r (b, e) = (b, rw e refl)

  handle-Quiet :
      (msg : Message) (v : RevisionsView)
      → is_stale_answer v.list.tag msg ≡ true
      → Quiet v (handle run texts_of models msg v)
  unfolding handle on_loaded on_batch on_streaming
  handle-Quiet (loaded_msg rows t) v h =
      rw (on_loaded, h)
        (listed-Quiet v (update run (update_revisions_msg rows t) v.list)
          (update-Stays run (update_revisions_msg rows t) v.list h))
  handle-Quiet (streaming_msg s a b t) v h =
      rw (on_streaming, h)
        (listed-Quiet v (update run (streaming_ready_msg s a b t) v.list)
          (update-Stays run (streaming_ready_msg s a b t) v.list h))
  handle-Quiet (batch_msg l rows more t) v h =
      rw (on_batch, h)
        (listed-Quiet v (update run (append_rows_batch_msg l rows more t) v.list)
          (update-Stays run (append_rows_batch_msg l rows more t) v.list h))
  handle-Quiet msg v h = absurd (false≢true h)

  -- Whatever answers come to loads that another one has followed, none of them changes the list, its
  -- operation or its layers, and the program is asked for nothing: only the note that a request is
  -- under way may be gone.
  pub handle_all-Quiet :
      (msgs : List Message) (v : RevisionsView)
      → All (λ msg. is_stale_answer v.list.tag msg ≡ true) msgs
      → (b : Bool) × (handle_all msgs v ≡ some (with_request b v, []))
  unfolding handle_all
  handle_all-Quiet [] v h = (v.list.request_in_flight, refl)
  handle_all-Quiet (msg ∷ msgs) v h =
      let (b, e) = handle-Quiet msg v h.0 in
      let (c, f) = handle_all-Quiet msgs (with_request b v) h.1 in (c, rw (handle_all, e, f) refl)
