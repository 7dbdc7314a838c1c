-- ===== src/Split/Events/Asked.antt =====
-- Intents keep the focus and the share in order (internal/ui/split.go: handleSplitIntent).
use jjui.Split.{close, focus_primary}
use jjui.Split.Kept.{
  close-IsKept, focus_split_content-IsKept, toggle_focus-IsKept, show_bookmarks-active,
}
use jjui.Split.Share.{Numbers, resize, toggle_position, toggles_position, adjust}
use jjui.Split.Bounds.{adjust-IsBounded, resize-IsBounded}
use jjui.Split.Pane.{
  PaneViews, SplitPane, on_container, on_share, show_pane, toggle_pane, pane_scopes,
}
use jjui.Split.Handling.{
  Command, Input, of_intent, Intent, toggle_bookmark_pane, focus_next_pane, preview_toggle,
  preview_toggle_bottom, preview_expand, preview_shrink, preview_show, other_intent,
  bookmark_content_id, preview_content_id, sync_bookmark_pane_context,
}
use jjui.Split.Handling.Intents.{
  handle_split_intent, handle_pane_intent, route_to_content, open_bookmark_pane, toggle_preview,
  move_preview, update_preview,
}
use jjui.Split.Well.{
  if-both, IsWell, on_container-IsWell, on_share-IsWell, show_pane-changes, show_pane-IsWell,
  toggle_pane-IsWell, own-IsWell, update_content-IsWell, update_shown-IsWell,
}
use jjui.Scopes.{route_intent}
use mathlib.Core.Path.{subst}
use jjui.Prelude.{Bool, String, sym, inl, inr, Option, List, [], str_eq, Bool-cases}
use jjui.Split.Events.Told.{primary-IsWell, answered_shown-pane}

module _ {Share Own Cmd : Type 0} (numbers : Numbers Share) (views : PaneViews Own Input Cmd) where
  route_to_content-IsWell :
      (intent : Intent) (p : SplitPane Share Own)
      → IsWell numbers p
      → IsWell numbers (route_to_content numbers views intent p).0
  unfolding route_to_content
  route_to_content-IsWell intent p h =
      let own =
        (route_intent views.handle_intent (pane_scopes numbers views [] p) (of_intent intent)
          p.own).0 in
      if-both (λ (r : SplitPane Share Own × List (Command Cmd) × Bool). IsWell numbers r.0)
        p.container.content_focused _ _ (own-IsWell numbers views own p h) h

  pub sync_bookmark_pane_context-IsWell :
      (selected : Option String) (visible : List String) (p : SplitPane Share Own)
      → IsWell numbers p
      → IsWell numbers (sync_bookmark_pane_context numbers views selected visible p)
  unfolding sync_bookmark_pane_context
  sync_bookmark_pane_context-IsWell selected visible p h =
      update_content-IsWell numbers views bookmark_content_id _ p h

  -- The list of bookmarks has the focus once it is shown.
  open_bookmark_pane-IsWell :
      (selected : Option String) (visible : List String) (p : SplitPane Share Own)
      → IsWell numbers p
      → IsWell numbers (open_bookmark_pane numbers views selected visible p).0
  unfolding open_bookmark_pane
  open_bookmark_pane-IsWell selected visible p h =
      let q = sync_bookmark_pane_context numbers views selected visible p in
      let synced : IsWell numbers q = sync_bookmark_pane_context-IsWell selected visible p h in
      let r = (show_pane numbers views bookmark_content_id q).0 in
      let shown : IsWell numbers r = show_pane-IsWell numbers views bookmark_content_id q synced in
      record {
        container = focus_split_content-IsKept r.container shown.container (
            rw ((show_pane-changes numbers views bookmark_content_id q).0)
              (show_bookmarks-active q.container synced.container));
        share = shown.share;
      }

  toggle_preview-IsWell :
      (p : SplitPane Share Own)
      → IsWell numbers p
      → IsWell numbers (toggle_preview numbers views p).0
  unfolding toggle_preview
  toggle_preview-IsWell p h =
      primary-IsWell numbers views (toggle_pane numbers views preview_content_id p).0
        (toggle_pane-IsWell numbers views preview_content_id p h)

  move_preview-IsWell :
      (p : SplitPane Share Own) → IsWell numbers p → IsWell numbers (move_preview numbers views p).0
  unfolding move_preview toggle_position adjust
  move_preview-IsWell p h =
      let r = show_pane numbers views preview_content_id p in
      let moved = on_share (toggle_position numbers) (on_container focus_primary r.0) in
      subst (IsWell numbers) (sym (answered_shown-pane numbers views r.2 moved r.1)) (
        on_share-IsWell numbers views (toggle_position numbers)
          (adjust-IsBounded numbers toggles_position) (on_container focus_primary r.0)
          (primary-IsWell numbers views r.0
            (show_pane-IsWell numbers views preview_content_id p h)))

  update_preview-IsWell :
      (p : SplitPane Share Own)
      → IsWell numbers p
      → IsWell numbers (update_preview numbers views p).0
  unfolding update_preview
  update_preview-IsWell p h =
      let r = (show_pane numbers views preview_content_id p).0 in
      update_shown-IsWell numbers views (of_intent preview_show) (on_container focus_primary r)
        (primary-IsWell numbers views r (show_pane-IsWell numbers views preview_content_id p h))

  resized-IsWell :
      (delta : Share) (p : SplitPane Share Own)
      → IsWell numbers p
      → IsWell numbers (on_share (resize numbers delta) p)
  resized-IsWell delta p h =
      on_share-IsWell numbers views (resize numbers delta) (resize-IsBounded numbers delta) p h

  next_pane-IsWell :
      (increment : Share) (selected : Option String) (visible : List String)
      (p : SplitPane Share Own)
      → IsWell numbers p
      → IsWell numbers
          (handle_pane_intent numbers views increment selected visible focus_next_pane p).0
  unfolding handle_pane_intent
  next_pane-IsWell increment selected visible p h =
      elim (Bool-cases (str_eq p.container.active_content_id bookmark_content_id)) [
        | inl e ↦
            rw e (record {
              container = toggle_focus-IsKept p.container h.container e;
              share = h.share;
            })
        | inr e ↦ rw e h
      ]

  toggled_pane-IsWell :
      (increment : Share) (selected : Option String) (visible : List String)
      (p : SplitPane Share Own)
      → IsWell numbers p
      → IsWell numbers
          (handle_pane_intent numbers views increment selected visible toggle_bookmark_pane p).0
  unfolding handle_pane_intent
  toggled_pane-IsWell increment selected visible p h =
      elim (Bool-cases (str_eq p.container.active_content_id bookmark_content_id)) [
        | inl e ↦ rw e (on_container-IsWell numbers views (λ sc. (close sc).0) close-IsKept p h)
        | inr e ↦ rw e (open_bookmark_pane-IsWell selected visible p h)
      ]

  handle_pane_intent-IsWell :
      (increment : Share) (selected : Option String) (visible : List String) (intent : Intent)
      (p : SplitPane Share Own)
      → IsWell numbers p
      → IsWell numbers (handle_pane_intent numbers views increment selected visible intent p).0
  unfolding handle_pane_intent
  handle_pane_intent-IsWell increment selected visible toggle_bookmark_pane p h =
      toggled_pane-IsWell increment selected visible p h
  handle_pane_intent-IsWell increment selected visible focus_next_pane p h =
      next_pane-IsWell increment selected visible p h
  handle_pane_intent-IsWell increment selected visible preview_toggle p h =
      toggle_preview-IsWell p h
  handle_pane_intent-IsWell increment selected visible preview_toggle_bottom p h =
      move_preview-IsWell p h
  handle_pane_intent-IsWell increment selected visible preview_expand p h =
      resized-IsWell increment p h
  handle_pane_intent-IsWell increment selected visible preview_shrink p h =
      resized-IsWell (numbers.negated increment) p h
  handle_pane_intent-IsWell increment selected visible preview_show p h = update_preview-IsWell p h
  handle_pane_intent-IsWell increment selected visible (other_intent n) p h = h

  pub handle_split_intent-IsWell :
      (increment : Share) (selected : Option String) (visible : List String) (intent : Intent)
      (p : SplitPane Share Own)
      → IsWell numbers p
      → IsWell numbers (handle_split_intent numbers views increment selected visible intent p).0
  unfolding handle_split_intent
  handle_split_intent-IsWell increment selected visible intent p h =
      let routed = route_to_content-IsWell intent p h in
      if-both (λ (r : SplitPane Share Own × List (Command Cmd) × Bool). IsWell numbers r.0)
        (route_to_content numbers views intent p).2 _ _ routed
        (handle_pane_intent-IsWell increment selected visible intent
          (route_to_content numbers views intent p).0 routed)
