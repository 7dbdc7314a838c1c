-- ===== src/Split/Tests.antt =====
-- A pane with a preview and a list of bookmarks, and a share in whole percent.
use jjui.Layout.{dx, dy, Box, box_of, pos_at}
use jjui.Split.{
  Content, SplitContainer, register_content, show_content, toggle_focus, show_registered,
  hide_active, on_active, on_content, set_content_focused, active_content, show_active,
  report_primary, is_none,
}
use jjui.Split.Pane.{PaneViews, SplitPane, render_pane}
use jjui.Split.Handling.{
  Input, split_drag, mouse_motion, toggle_bookmark_pane, preview_position_auto, started_pane,
  get_preview_position, init_split_container,
}
use jjui.Split.Well.{IsWell}
use jjui.Split.Events.{Event, draws, asks, receives, moves_mouse, on_events}
use jjui.Split.Events.Focused.{on_events-IsWell}
use jjui.Split.Drawn.{Covers, render_pane-Covers}
use jjui.Prelude.{String, ℕ, suc, ◌≡◌, refl, true, false, ◌&&◌, none, some, List, [], ◌∷◌, arith}
use jjui.Split.Share.{Numbers}
use jjui.Prelude.Int.{ℤ, pos, ◌+ℤ◌, ◌-ℤ◌, ltb_ℤ, leb_ℤ}

abbrev empty_pane : SplitContainer
empty_pane = record {
  contents = λ id. none;
  active_content_id = "";
  content_focused = false;
  primary_focused = some true;
}

abbrev fresh : Content
fresh = record { focused = false; shown = false }

abbrev with_preview : SplitContainer
with_preview = register_content "preview" fresh empty_pane

abbrev focused_preview : SplitContainer
focused_preview = toggle_focus (show_content "preview" with_preview).0

focus_of_preview : focused_preview.content_focused ≡ true
unfolding toggle_focus show_content show_registered show_active hide_active on_active on_content
    set_content_focused active_content register_content report_primary
focus_of_preview = refl

abbrev whole : Numbers ℤ
whole = record {
  less = ltb_ℤ;
  same = λ a b. leb_ℤ a b && leb_ℤ b a;
  plus = λ a b. a +ℤ b;
  minus = λ a b. a -ℤ b;
  negated = λ a. pos 0 -ℤ a;
  nothing = pos 0;
  ten = pos 10;
  ninety_five = pos 95;
  percent_of = λ distance total. distance;
  rest_of_hundred = λ a. pos 100 -ℤ a;
  less_irreflexive = λ a. ground arith;
  in_order = refl;
}

abbrev screen_box : Box
screen_box = box_of (pos_at (pos 0) (pos 0)) (pos_at (pos 100) (pos 40))

-- Contents without scopes, which count their updates.
abbrev idle : PaneViews ℕ Input String
idle = record {
  scopes = λ id own. [];
  handle_intent = λ handler intent own. (own, "", false);
  update = λ id input own. (suc own, "updated");
  on_show = λ id own. (0, "loads");
}

abbrev at_start : SplitPane ℤ ℕ
at_start = started_pane whole idle (pos 50) true 0 preview_position_auto

abbrev some_events : List (Event ℤ)
some_events =
    draws screen_box
    ∷ asks (pos 5) none [] toggle_bookmark_pane
    ∷ receives (split_drag 0 (pos 60) (pos 7))
    ∷ moves_mouse (mouse_motion (pos 50) (pos 7))
    ∷ []

reads_auto : get_preview_position "auto" ≡ some preview_position_auto
unfolding get_preview_position
reads_auto = refl

starts : init_split_container whole idle (pos 50) "auto" true 0 ≡ some at_start
unfolding init_split_container
starts = rw reads_auto refl

on_events-IsWell_example : IsWell whole (on_events whole idle some_events at_start)
on_events-IsWell_example =
    on_events-IsWell whole idle (pos 50) "auto" true 0 at_start some_events starts

render_pane-Covers_example :
    Covers
      (is_none (active_content at_start.container))
      at_start.share.at_bottom
      screen_box
      (render_pane whole idle screen_box at_start).1
unfolding dx dy ◌-ℤ◌
render_pane-Covers_example =
    render_pane-Covers whole idle screen_box at_start (omega arith) (omega arith)
