-- ===== src/Split/Events/Told.antt =====
-- Messages keep the focus and the share in order (internal/ui/split.go: handleSplitMsg).
use jjui.Split.{focus_primary}
use jjui.Split.Kept.{focus_primary-IsKept, focus_split_content-IsKept}
use jjui.Split.Share.{Numbers}
use jjui.Split.Pane.{PaneViews, SplitPane, on_container, show_pane, start_drag}
use jjui.Split.Handling.{
  Input, Message, show_preview, item_clicked, pane_clicked, bookmark_pane_clicked,
  bookmark_item_clicked, bookmark_remote_clicked, reveal_revision, begin_move_bookmark,
  move_bookmark_cancelled, begin_create_bookmark, split_drag, update_revisions_success,
  selection_changed, other_message, bookmark_content_id, preview_content_id, focus_bookmarks,
  handle_split_msg, answered_shown,
}
use jjui.Split.Well.{IsWell, on_container-IsWell, show_pane-IsWell, drag_separator-IsBounded}
use mathlib.Core.Path.{subst}
use jjui.Prelude.{ℕ, ◌≡◌, refl, sym, inl, inr, Bool, true, false, List, str_eq, ◌==◌, Bool-cases}
use jjui.Prelude.Int.{ℤ}

module _ {Share Own Cmd : Type 0} (numbers : Numbers Share) (views : PaneViews Own Input Cmd) where
  pub primary-IsWell :
      (p : SplitPane Share Own) → IsWell numbers p → IsWell numbers (on_container focus_primary p)
  primary-IsWell p h = on_container-IsWell numbers views focus_primary focus_primary-IsKept p h

  focus_bookmarks-IsWell :
      (p : SplitPane Share Own)
      → IsWell numbers p
      → IsWell numbers (focus_bookmarks numbers views p)
  unfolding focus_bookmarks
  focus_bookmarks-IsWell p h =
      elim (Bool-cases (str_eq p.container.active_content_id bookmark_content_id)) [
        | inl e ↦ rw e (record {
          container = focus_split_content-IsKept p.container h.container e;
          share = h.share;
        })
        | inr e ↦ rw e h
      ]

  pub answered_shown-pane :
      (shown : Bool) (p : SplitPane Share Own) (cmds : List Cmd)
      → (answered_shown numbers views shown p cmds).0 ≡ p
  answered_shown-pane true p cmds = refl
  answered_shown-pane false p cmds = refl

  start_drag-IsWell :
      (sender : ℕ) (x y : ℤ) (p : SplitPane Share Own)
      → IsWell numbers p
      → IsWell numbers (start_drag numbers views sender x y p)
  unfolding start_drag
  start_drag-IsWell sender x y p h = elim (Bool-cases (sender == p.renderer.reference)) [
    | inl e ↦ rw e (record {
      container = h.container;
      share = drag_separator-IsBounded numbers views x y p.renderer p.share h.share;
    })
    | inr e ↦ rw e h
  ]

  pub handle_split_msg-IsWell :
      (message : Message) (p : SplitPane Share Own)
      → IsWell numbers p
      → IsWell numbers (handle_split_msg numbers views message p).0
  unfolding handle_split_msg
  handle_split_msg-IsWell show_preview p h =
      let r = show_pane numbers views preview_content_id p in
      subst (IsWell numbers) (sym (answered_shown-pane r.2 (on_container focus_primary r.0) r.1))
        (primary-IsWell r.0 (show_pane-IsWell numbers views preview_content_id p h))
  handle_split_msg-IsWell item_clicked p h = primary-IsWell p h
  handle_split_msg-IsWell pane_clicked p h = primary-IsWell p h
  handle_split_msg-IsWell bookmark_pane_clicked p h = focus_bookmarks-IsWell p h
  handle_split_msg-IsWell bookmark_item_clicked p h = focus_bookmarks-IsWell p h
  handle_split_msg-IsWell bookmark_remote_clicked p h = focus_bookmarks-IsWell p h
  handle_split_msg-IsWell (reveal_revision commit) p h = primary-IsWell p h
  handle_split_msg-IsWell (begin_move_bookmark name) p h = primary-IsWell p h
  handle_split_msg-IsWell move_bookmark_cancelled p h = focus_bookmarks-IsWell p h
  handle_split_msg-IsWell begin_create_bookmark p h = primary-IsWell p h
  handle_split_msg-IsWell (split_drag renderer x y) p h = start_drag-IsWell renderer x y p h
  handle_split_msg-IsWell update_revisions_success p h = h
  handle_split_msg-IsWell selection_changed p h = h
  handle_split_msg-IsWell (other_message n) p h = h
