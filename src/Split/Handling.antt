-- ===== src/Split/Handling.antt =====
-- The pane in the program (internal/ui/split.go): what messages, intents and the mouse do to it. A
-- command of the program that is not one of a content is a constructor of its own.
pub mod Intents
use mathlib.Core.Option
use jjui.Split.{Content, SplitContainer, register_content, focus_split_content, focus_primary}
use jjui.Split.Share.{
  Numbers, Placement, placement_auto, placement_bottom, placement_right, new_split_state,
  set_placement, set_auto_position,
}
use jjui.Split.Areas.{SplitRenderer}
use jjui.Split.Pane.{
  PaneViews, SplitPane, on_container, on_share, show_pane, update_content, update_shown, start_drag,
  drag_pane, end_drag,
}
use jjui.Prelude.{
  ℕ, ◌/◌, Bool, true, false, Option, none, some, List, [], ◌∷◌, ◌++◌, map, String, str_eq, leb,
  if◌then◌else◌,
}
use jjui.Prelude.Int.{ℤ, pos}

abbrev pub preview_content_id : String
preview_content_id = "preview"

abbrev pub bookmark_content_id : String
bookmark_content_id = "bookmark-pane"

-- The messages that the pane is about, and any other one.
pub data Message : Type 0 where
  show_preview item_clicked pane_clicked : Message
  bookmark_pane_clicked bookmark_item_clicked bookmark_remote_clicked : Message
  reveal_revision begin_move_bookmark : String → Message
  move_bookmark_cancelled begin_create_bookmark : Message
  split_drag : (renderer : ℕ) (x y : ℤ) → Message
  update_revisions_success selection_changed : Message
  other_message : ℕ → Message

pub data Intent : Type 0 where
  toggle_bookmark_pane focus_next_pane preview_toggle preview_toggle_bottom : Intent
  preview_expand preview_shrink preview_show : Intent
  other_intent : ℕ → Intent

pub data MouseMessage : Type 0 where
  mouse_release : MouseMessage
  mouse_motion : (x y : ℤ) → MouseMessage

-- What a content is updated with.
pub data Input : Type 0 where
  of_message : Message → Input
  of_intent : Intent → Input
  revision_context : (current : String) (visible : List String) → Input

pub data Command (Cmd : Type 0) : Type 0 where
  of_content : Cmd → Command Cmd
  tell_highlighted : Command Cmd
  reveal move_bookmark : String → Command Cmd
  create_bookmark : Command Cmd

-- From internal/config/config.go.
pub data PreviewPosition : Type 0 where
  preview_position_auto preview_position_bottom preview_position_right : PreviewPosition

-- `none` for the error.
unfoldable pub get_preview_position : String → Option PreviewPosition
get_preview_position position =
    if str_eq position "auto"
    then some preview_position_auto
    else if str_eq position "bottom"
    then some preview_position_bottom
    else if str_eq position "right"
    then some preview_position_right
    else none

unfoldable pub split_placement_from : PreviewPosition → Placement
split_placement_from preview_position_bottom = placement_bottom
split_placement_from preview_position_right = placement_right
split_placement_from preview_position_auto = placement_auto

abbrev or_no_commit : Option String → String
or_no_commit none = ""
or_no_commit (some id) = id

abbrev pub commands_of : {Cmd : Type 0} → Option Cmd → List (Command Cmd)
commands_of none = []
commands_of (some cmd) = of_content cmd ∷ []

-- A content as it is made, without focus.
abbrev pub new_content : Content
new_content = record { focused = false; shown = false }

-- `NewSplitContainer`, with the primary view told of the focus: it is made with it.
abbrev pub new_split_container : SplitContainer
new_split_container = record {
  contents = λ id. none;
  active_content_id = "";
  content_focused = false;
  primary_focused = some true;
}

-- `NewRenderer`.
abbrev pub new_renderer : SplitRenderer
new_renderer = record {
  reference = 0;
  vertical = false;
  separator_thickness = pos 0;
  last_box = none;
}

module _ {Share Own Cmd : Type 0} (numbers : Numbers Share) (views : PaneViews Own Input Cmd) where
  -- A result with the commands of the contents.
  abbrev pub answered_with :
      SplitPane Share Own → List Cmd → SplitPane Share Own × List (Command Cmd) × Bool
  answered_with p cmds = (p, map of_content cmds, true)

  -- `tea.Batch(cmd, m.selectionChanged())` for a content that is newly shown, and else its command.
  abbrev pub answered_shown :
      Bool → SplitPane Share Own → List Cmd → SplitPane Share Own × List (Command Cmd) × Bool
  answered_shown true p cmds = (p, map of_content cmds ++ (tell_highlighted ∷ []), true)
  answered_shown false p cmds = answered_with p cmds

  -- The focus goes to the pane where its content is the list of bookmarks.
  unfoldable pub focus_bookmarks : SplitPane Share Own → SplitPane Share Own
  focus_bookmarks p =
      if str_eq p.container.active_content_id bookmark_content_id
      then on_container focus_split_content p
      else p

  unfoldable pub handle_split_msg :
      Message → SplitPane Share Own → SplitPane Share Own × List (Command Cmd) × Bool
  handle_split_msg show_preview p =
      let (p', cmds, shown) = show_pane numbers views preview_content_id p in
      answered_shown shown (on_container focus_primary p') cmds
  handle_split_msg item_clicked p = (on_container focus_primary p, [], false)
  handle_split_msg pane_clicked p = (on_container focus_primary p, [], false)
  handle_split_msg bookmark_pane_clicked p = (focus_bookmarks p, [], false)
  handle_split_msg bookmark_item_clicked p = (focus_bookmarks p, [], false)
  handle_split_msg bookmark_remote_clicked p = (focus_bookmarks p, [], false)
  handle_split_msg (reveal_revision commit) p =
      (on_container focus_primary p, reveal commit ∷ [], true)
  handle_split_msg (begin_move_bookmark name) p =
      (on_container focus_primary p, move_bookmark name ∷ [], true)
  handle_split_msg move_bookmark_cancelled p = (focus_bookmarks p, [], true)
  handle_split_msg begin_create_bookmark p =
      (on_container focus_primary p, create_bookmark ∷ [], true)
  handle_split_msg (split_drag renderer x y) p =
      (start_drag numbers views renderer x y p, [], false)
  handle_split_msg _ p = (p, [], false)

  -- `syncBookmarkPaneContext`, with the identifiers of the selected revision and of the rows.
  unfoldable pub sync_bookmark_pane_context :
      Option String → List String → SplitPane Share Own → SplitPane Share Own
  sync_bookmark_pane_context selected visible p =
      (update_content numbers views bookmark_content_id
        (revision_context (or_no_commit selected) visible) p).0

  unfoldable pub handle_split_mouse_msg : MouseMessage → SplitPane Share Own → SplitPane Share Own
  handle_split_mouse_msg mouse_release p = end_drag numbers views p
  handle_split_mouse_msg (mouse_motion x y) p = (drag_pane numbers views x y p).0

  unfoldable pub update_split :
      Option String → List String → Message → SplitPane Share Own → SplitPane Share Own × List Cmd
  update_split selected visible update_revisions_success p =
      update_shown numbers views (of_message update_revisions_success)
        (sync_bookmark_pane_context selected visible p)
  update_split selected visible selection_changed p =
      update_shown numbers views (of_message selection_changed)
        (sync_bookmark_pane_context selected visible p)
  update_split selected visible message p = update_shown numbers views (of_message message) p

  unfoldable pub update_split_auto_position :
      (height width : ℕ) → SplitPane Share Own → SplitPane Share Own
  update_split_auto_position height width p =
      on_share (set_auto_position numbers (leb (width / 2) height)) p

  -- The pane with its two contents, before one is shown.
  unfoldable pub new_split_pane : Share → PreviewPosition → Own → SplitPane Share Own
  new_split_pane percent position own = record {
    container =
        register_content bookmark_content_id new_content
          (register_content preview_content_id new_content new_split_container);
    share = set_placement numbers (split_placement_from position) (new_split_state numbers percent);
    renderer = new_renderer;
    dragging = false;
    own = own;
  }

  -- The rest of `initSplitContainer` once the position is read.
  unfoldable pub started_pane : Share → Bool → Own → PreviewPosition → SplitPane Share Own
  started_pane percent show_at_start own at =
      let p = new_split_pane percent at own in
      let shown = (show_pane numbers views preview_content_id p).0 in
      if show_at_start then shown else p

  -- `initSplitContainer`; `none` where it ends the program.
  unfoldable pub init_split_container : Share → String → Bool → Own → Option (SplitPane Share Own)
  init_split_container percent position show_at_start own =
      Option.map (started_pane percent show_at_start own) (get_preview_position position)
