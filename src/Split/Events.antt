-- ===== src/Split/Events.antt =====
-- The pane over any messages, intents, moves of the mouse and drawings (internal/ui/split.go, and
-- its calls in internal/ui/ui.go).
pub mod Told
pub mod Asked
pub mod Focused
use jjui.Layout.{Box}
use jjui.Split.{close}
use jjui.Split.Share.{Numbers}
use jjui.Split.Pane.{PaneViews, SplitPane, on_container, render_pane}
use jjui.Split.Handling.{
  Input, Message, Intent, MouseMessage, handle_split_msg, handle_split_mouse_msg, update_split,
  update_split_auto_position,
}
use jjui.Split.Handling.Intents.{handle_split_intent}
use jjui.Prelude.{ℕ, Option, List, [], ◌∷◌, String, if◌then◌else◌}

-- `closes_focused` is what `closeTopScope` does of the pane.
pub data Event (Share : Type 0) : Type 0 where
  receives : Message → Event Share
  asks :
      (increment : Share) (selected : Option String) (visible : List String) → Intent → Event Share
  moves_mouse : MouseMessage → Event Share
  updates : (selected : Option String) (visible : List String) → Message → Event Share
  places : (height width : ℕ) → Event Share
  draws : Box → Event Share
  closes_focused : Event Share

module _ {Share Own Cmd : Type 0} (numbers : Numbers Share) (views : PaneViews Own Input Cmd) where
  unfoldable pub close_if_focused : SplitPane Share Own → SplitPane Share Own
  close_if_focused p =
      if p.container.content_focused then on_container (λ sc. (close sc).0) p else p

  unfoldable pub on_event : Event Share → SplitPane Share Own → SplitPane Share Own
  on_event (receives message) p = (handle_split_msg numbers views message p).0
  on_event (asks increment selected visible intent) p =
      (handle_split_intent numbers views increment selected visible intent p).0
  on_event (moves_mouse message) p = handle_split_mouse_msg numbers views message p
  on_event (updates selected visible message) p =
      (update_split numbers views selected visible message p).0
  on_event (places height width) p = update_split_auto_position numbers views height width p
  on_event (draws box) p = (render_pane numbers views box p).0
  on_event closes_focused p = close_if_focused p

  unfoldable pub on_events : List (Event Share) → SplitPane Share Own → SplitPane Share Own
  on_events [] p = p
  on_events (e ∷ es) p = on_events es (on_event e p)
