-- ===== src/Split/Events/Focused.antt =====
-- Whatever happens to the pane, the focus and the share stay in order (internal/ui/split.go).
use mathlib.Core.Option
use jjui.Split.{SplitContainer, is_none, close, active_content, register_content}
use jjui.Split.Kept.{IsKept, close-IsKept}
use jjui.Split.Share.{Numbers, set_auto_position, adjust, new_split_state, places as places_share}
use jjui.Split.Bounds.{adjust-IsBounded, auto-IsBounded, new_split_state-IsBounded}
use jjui.Split.Areas.{drag_separator}
use jjui.Split.Pane.{PaneViews, SplitPane, drag_pane, end_drag, render_pane, update_shown}
use jjui.Split.Handling.{
  Input, of_message, Message, update_revisions_success, selection_changed, mouse_release,
  mouse_motion, bookmark_content_id, preview_content_id, handle_split_mouse_msg, update_split,
  update_split_auto_position, sync_bookmark_pane_context, PreviewPosition, get_preview_position,
  split_placement_from, new_content, new_split_container, new_split_pane, started_pane,
  init_split_container,
}
use jjui.Layout.{Box}
use jjui.Split.Well.{
  if-both, IsWell, on_container-IsWell, on_share-IsWell, show_pane-IsWell, update_shown-IsWell,
  drag_separator-IsBounded,
}
use jjui.Split.Events.{
  Event, receives, asks, moves_mouse, updates, places, draws, closes_focused, close_if_focused,
  on_event, on_events,
}
use mathlib.Core.Path.{subst}
use jjui.Prelude.{
  ◌/◌, String, ◌≡◌, refl, inl, inr, Bool, Option, none, some, List, [], ◌∷◌, leb, Bool-cases,
}
use jjui.Prelude.Int.{ℤ}
use mathlib.Core.Option.{some-injective, none-ne-some}
use jjui.Split.Focus.{IsInSync}
use jjui.Split.Steps.{registers, Call-IsInSync}
use jjui.Split.Events.Told.{handle_split_msg-IsWell}
use jjui.Split.Events.Asked.{handle_split_intent-IsWell, sync_bookmark_pane_context-IsWell}

new_split_container-IsInSync : IsInSync new_split_container
new_split_container-IsInSync = record {
  unnamed = refl;
  registered = refl;
  focus = refl;
  marks = λ id. tt;
  primary = refl;
}

-- The container with its two contents.
registered-IsKept : IsKept (
    register_content bookmark_content_id new_content
      (register_content preview_content_id new_content new_split_container))
unfolding register_content
registered-IsKept =
    let with_preview : SplitContainer =
      register_content preview_content_id new_content new_split_container in
    let synced : IsInSync with_preview =
      Call-IsInSync new_split_container
        (registers preview_content_id new_content refl refl (refl, refl))
        new_split_container-IsInSync in
    record {
      in_sync =
          Call-IsInSync with_preview
            (registers bookmark_content_id new_content refl refl (refl, refl)) synced;
      has_bookmarks = refl;
      on_bookmarks = refl;
    }

of_some :
    {A B : Type 0} (P : B → Type 0) (f : A → B) (o : Option A) (b : B)
    → Option.map f o ≡ some b
    → ((a : A) → P (f a))
    → P b
of_some P f none b e h = absurd (none-ne-some b e)
of_some P f (some a) b e h = subst P (some-injective (f a) b e) (h a)

module _ {Share Own Cmd : Type 0} (numbers : Numbers Share) (views : PaneViews Own Input Cmd) where
  new_split_pane-IsWell :
      (percent : Share) (position : PreviewPosition) (own : Own)
      → IsWell numbers (new_split_pane numbers views percent position own)
  unfolding new_split_pane adjust
  new_split_pane-IsWell percent position own = record {
    container = registered-IsKept;
    share =
        adjust-IsBounded numbers (places_share (split_placement_from position))
          (new_split_state numbers percent) (new_split_state-IsBounded numbers percent);
  }

  started_pane-IsWell :
      (percent : Share) (show_at_start : Bool) (own : Own) (at : PreviewPosition)
      → IsWell numbers (started_pane numbers views percent show_at_start own at)
  unfolding started_pane
  started_pane-IsWell percent show_at_start own at =
      let p = new_split_pane numbers views percent at own in
      let well = new_split_pane-IsWell percent at own in
      if-both (IsWell numbers) show_at_start _ _
        (show_pane-IsWell numbers views preview_content_id p well) well

  init_split_container-IsWell :
      (percent : Share) (position : String) (show_at_start : Bool) (own : Own)
      (p : SplitPane Share Own)
      → init_split_container numbers views percent position show_at_start own ≡ some p
      → IsWell numbers p
  unfolding init_split_container
  init_split_container-IsWell percent position show_at_start own p e =
      of_some (IsWell numbers) (started_pane numbers views percent show_at_start own)
        (get_preview_position position) p e (started_pane-IsWell percent show_at_start own)

  drag_pane-IsWell :
      (x y : ℤ) (p : SplitPane Share Own)
      → IsWell numbers p
      → IsWell numbers (drag_pane numbers views x y p).0
  unfolding drag_pane
  drag_pane-IsWell x y p h =
      let drags = drag_separator numbers x y p.renderer in
      if-both (λ (r : SplitPane Share Own × Bool). IsWell numbers r.0) p.dragging _ _
        (on_share-IsWell numbers views (λ s. (drags s).0)
          (drag_separator-IsBounded numbers views x y p.renderer) p h)
        h

  synced-IsWell :
      (selected : Option String) (visible : List String) (message : Message)
      (p : SplitPane Share Own)
      → IsWell numbers p
      → IsWell numbers
          (update_shown numbers views
            (of_message message)
            (sync_bookmark_pane_context numbers views selected visible p)).0
  synced-IsWell selected visible message p h =
      update_shown-IsWell numbers views (of_message message)
        (sync_bookmark_pane_context numbers views selected visible p)
        (sync_bookmark_pane_context-IsWell numbers views selected visible p h)

  update_split-IsWell :
      (selected : Option String) (visible : List String) (message : Message)
      (p : SplitPane Share Own)
      → IsWell numbers p
      → IsWell numbers (update_split numbers views selected visible message p).0
  unfolding update_split
  update_split-IsWell selected visible update_revisions_success p h =
      synced-IsWell selected visible update_revisions_success p h
  update_split-IsWell selected visible selection_changed p h =
      synced-IsWell selected visible selection_changed p h
  update_split-IsWell selected visible message p h =
      update_shown-IsWell numbers views (of_message message) p h

  render_pane-IsWell :
      (box : Box) (p : SplitPane Share Own)
      → IsWell numbers p
      → IsWell numbers (render_pane numbers views box p).0
  unfolding render_pane
  render_pane-IsWell box p h = elim (Bool-cases (is_none (active_content p.container))) [
    | inl e ↦ rw e h
    | inr e ↦ rw e (record { container = h.container; share = h.share })
  ]

  close_if_focused-IsWell :
      (p : SplitPane Share Own)
      → IsWell numbers p
      → IsWell numbers (close_if_focused numbers views p)
  unfolding close_if_focused
  close_if_focused-IsWell p h =
      if-both (IsWell numbers) p.container.content_focused _ _
        (on_container-IsWell numbers views (λ sc. (close sc).0) close-IsKept p h) h

  on_event-IsWell :
      (e : Event Share) (p : SplitPane Share Own)
      → IsWell numbers p
      → IsWell numbers (on_event numbers views e p)
  unfolding on_event handle_split_mouse_msg end_drag update_split_auto_position
  on_event-IsWell (receives message) p h = handle_split_msg-IsWell numbers views message p h
  on_event-IsWell (asks increment selected visible intent) p h =
      handle_split_intent-IsWell numbers views increment selected visible intent p h
  on_event-IsWell (moves_mouse mouse_release) p h = record {
    container = h.container;
    share = h.share;
  }
  on_event-IsWell (moves_mouse (mouse_motion x y)) p h = drag_pane-IsWell x y p h
  on_event-IsWell (updates selected visible message) p h =
      update_split-IsWell selected visible message p h
  on_event-IsWell (places height width) p h =
      on_share-IsWell numbers views (set_auto_position numbers (leb (width / 2) height))
        (auto-IsBounded numbers (leb (width / 2) height)) p h
  on_event-IsWell (draws box) p h = render_pane-IsWell box p h
  on_event-IsWell closes_focused p h = close_if_focused-IsWell p h

  on_events_keeps :
      (es : List (Event Share)) (p : SplitPane Share Own)
      → IsWell numbers p
      → IsWell numbers (on_events numbers views es p)
  unfolding on_events
  on_events_keeps [] p h = h
  on_events_keeps (e ∷ es) p h =
      on_events_keeps es (on_event numbers views e p) (on_event-IsWell e p h)

  -- After a start that does not end the program, whatever the contents do and whatever happens to the
  -- pane: only the list of bookmarks has the focus, each content is marked as the container says, the
  -- primary view was last told the opposite, and the share is between ten and ninety-five percent.
  pub on_events-IsWell :
      (percent : Share) (position : String) (show_at_start : Bool) (own : Own)
      (p : SplitPane Share Own) (es : List (Event Share))
      → init_split_container numbers views percent position show_at_start own ≡ some p
      → IsWell numbers (on_events numbers views es p)
  on_events-IsWell percent position show_at_start own p es e =
      on_events_keeps es p (init_split_container-IsWell percent position show_at_start own p e)
