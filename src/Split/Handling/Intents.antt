-- ===== src/Split/Handling/Intents.antt =====
-- The intents of the pane (internal/ui/split.go: handleSplitIntent).
use jjui.Scopes.{route_intent}
use jjui.Split.{close, focus_split_content, focus_primary, toggle_focus}
use jjui.Split.Share.{Numbers, toggle_position, resize}
use jjui.Split.Pane.{
  PaneViews, SplitPane, on_container, on_share, show_pane, toggle_pane, update_shown, pane_scopes,
}
use jjui.Prelude.{Bool, true, false, Option, List, [], ◌++◌, String, str_eq, if◌then◌else◌}
use jjui.Split.Handling.{
  bookmark_content_id, preview_content_id, Input, of_intent, Intent, toggle_bookmark_pane,
  focus_next_pane, preview_toggle, preview_toggle_bottom, preview_expand, preview_shrink,
  preview_show, other_intent, Command, commands_of, answered_with, answered_shown,
  sync_bookmark_pane_context,
}

module _ {Share Own Cmd : Type 0} (numbers : Numbers Share) (views : PaneViews Own Input Cmd) where
  -- `handleSplitIntent` up to its switch: the focused content is asked first.
  unfoldable pub route_to_content :
      Intent → SplitPane Share Own → SplitPane Share Own × List (Command Cmd) × Bool
  route_to_content intent p =
      let (own, cmd, handled) =
        route_intent views.handle_intent (pane_scopes numbers views [] p) (of_intent intent)
          p.own in
      if p.container.content_focused
      then (record p { own = own }, commands_of cmd, handled)
      else (p, [], false)

  unfoldable pub open_bookmark_pane :
      Option String
      → List String
      → SplitPane Share Own
      → SplitPane Share Own × List (Command Cmd) × Bool
  open_bookmark_pane selected visible p =
      let (p', cmds, shown) =
        show_pane numbers views bookmark_content_id
          (sync_bookmark_pane_context numbers views selected visible p) in
      answered_with numbers views (on_container focus_split_content p') cmds

  unfoldable pub toggle_preview :
      SplitPane Share Own → SplitPane Share Own × List (Command Cmd) × Bool
  toggle_preview p =
      let (p', cmds, shown) = toggle_pane numbers views preview_content_id p in
      answered_shown numbers views true (on_container focus_primary p') cmds

  unfoldable pub move_preview :
      SplitPane Share Own → SplitPane Share Own × List (Command Cmd) × Bool
  move_preview p =
      let (p', cmds, shown) = show_pane numbers views preview_content_id p in
      answered_shown numbers views shown
        (on_share (toggle_position numbers) (on_container focus_primary p')) cmds

  unfoldable pub update_preview :
      SplitPane Share Own → SplitPane Share Own × List (Command Cmd) × Bool
  update_preview p =
      let (p', cmds, shown) = show_pane numbers views preview_content_id p in
      let (p'', more) =
        update_shown numbers views (of_intent preview_show) (on_container focus_primary p') in
      answered_with numbers views p'' (cmds ++ more)

  -- The switch of `handleSplitIntent`; `increment` is the configured step of the width.
  unfoldable pub handle_pane_intent :
      Share
      → Option String
      → List String
      → Intent
      → SplitPane Share Own
      → SplitPane Share Own × List (Command Cmd) × Bool
  handle_pane_intent increment selected visible toggle_bookmark_pane p =
      if str_eq p.container.active_content_id bookmark_content_id
      then (on_container (λ sc. (close sc).0) p, [], true)
      else open_bookmark_pane selected visible p
  handle_pane_intent increment selected visible focus_next_pane p =
      if str_eq p.container.active_content_id bookmark_content_id
      then (on_container toggle_focus p, [], true)
      else (p, [], true)
  handle_pane_intent increment selected visible preview_toggle p = toggle_preview p
  handle_pane_intent increment selected visible preview_toggle_bottom p = move_preview p
  handle_pane_intent increment selected visible preview_expand p =
      (on_share (resize numbers increment) p, [], true)
  handle_pane_intent increment selected visible preview_shrink p =
      (on_share (resize numbers (numbers.negated increment)) p, [], true)
  handle_pane_intent increment selected visible preview_show p = update_preview p
  handle_pane_intent increment selected visible (other_intent n) p = (p, [], false)

  unfoldable pub handle_split_intent :
      Share
      → Option String
      → List String
      → Intent
      → SplitPane Share Own
      → SplitPane Share Own × List (Command Cmd) × Bool
  handle_split_intent increment selected visible intent p =
      let (p', cmds, handled) = route_to_content intent p in
      let of_pane = handle_pane_intent increment selected visible intent p' in
      if handled then (p', cmds, true) else of_pane
