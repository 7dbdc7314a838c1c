-- ===== src/Split.antt =====
-- The content pane beside the primary view (internal/ui/split/container.go): which content is shown,
-- and where the focus is. A content is the marks that `SetFocused`, `OnShow` and `OnHide` leave on it.
-- The renderer (internal/ui/split/renderer.go) is left out but for the drag, in `Split.Share`.
pub mod Focus
pub mod Steps
pub mod Share
pub mod Bounds
pub mod Areas
pub mod Pane
pub mod Handling
pub mod Kept
pub mod Well
pub mod Events
pub mod Drawn
mod Tests
use jjui.Prelude.{String, Bool, true, false, not, ◌&&◌, Option, none, some, str_eq, if◌then◌else◌}
use jjui.Prelude.Texts.{is_empty}

pub record Content : Type 0 where
  pub focused : Bool
  pub shown : Bool

-- `primary_focused` is what `OnPrimaryFocus` was last told, and `none` where it is nil.
pub record SplitContainer : Type 0 where
  pub contents : String → Option Content
  pub active_content_id : String
  pub content_focused : Bool
  pub primary_focused : Option Bool

unfoldable pub active_content : SplitContainer → Option Content
active_content sc = if is_empty sc.active_content_id then none else sc.contents sc.active_content_id

-- A change to a content, where it is registered and where the change is meant for it.
abbrev pub changed : Bool → (Content → Content) → Option Content → Option Content
changed false change o = o
changed true change none = none
changed true change (some c) = some (change c)

-- A change to the content that is registered under an identifier.
unfoldable pub on_content :
    String → (Content → Content) → (String → Option Content) → String → Option Content
on_content id change contents asked = changed (str_eq id asked) change (contents asked)

-- A change to the active content, if there is one.
unfoldable pub on_active : (Content → Content) → SplitContainer → SplitContainer
on_active change sc =
    if is_empty sc.active_content_id
    then sc
    else record sc { contents = on_content sc.active_content_id change sc.contents }

abbrev pub is_none {ℓ} : {A : Type ℓ} → Option A → Bool
is_none none = true
is_none (some a) = false

abbrev pub set_focused : Bool → Content → Content
set_focused focused c = record c { focused = focused }

abbrev pub on_show : Content → Content
on_show c = record c { shown = true }

abbrev pub on_hide : Content → Content
on_hide c = record c { shown = false }

abbrev pub told : Bool → Option Bool → Option Bool
told focused none = none
told focused (some before) = some focused

unfoldable pub report_primary : Bool → SplitContainer → SplitContainer
report_primary focused sc = record sc { primary_focused = told focused sc.primary_focused }

unfoldable pub set_content_focused : Bool → SplitContainer → SplitContainer
set_content_focused focused sc =
    if focused && is_none (active_content sc)
    then sc
    else report_primary (not focused)
        (on_active (set_focused focused) (record sc { content_focused = focused }))

unfoldable pub register_content : String → Content → SplitContainer → SplitContainer
register_content id content sc = record sc {
  contents = λ asked. if str_eq id asked then some content else sc.contents asked;
}

unfoldable pub hide_active : SplitContainer → SplitContainer
hide_active sc = on_active on_hide (on_active (set_focused false) sc)

-- The active content once it is set.
unfoldable pub show_active : SplitContainer → SplitContainer
show_active sc = on_active on_show (set_content_focused false sc)

-- The state once the content is known to be registered.
unfoldable pub show_registered : String → SplitContainer → SplitContainer
show_registered id sc = show_active (record (hide_active sc) { active_content_id = id })

-- With the Boolean result: whether the content is newly shown.
unfoldable pub show_content : String → SplitContainer → SplitContainer × Bool
show_content id sc =
    if str_eq sc.active_content_id id
    then (sc, false)
    else if is_none (sc.contents id)
    then (sc, false)
    else (show_registered id sc, true)

unfoldable pub close : SplitContainer → SplitContainer × Bool
close sc = if is_none (active_content sc) then (sc, false) else (
  record (on_active on_hide (set_content_focused false sc)) { active_content_id = "" },
  true,
)

unfoldable pub toggle_content : String → SplitContainer → SplitContainer × Bool
toggle_content id sc = if str_eq sc.active_content_id id then close sc else show_content id sc

unfoldable pub focus_split_content : SplitContainer → SplitContainer
focus_split_content sc = set_content_focused true sc

unfoldable pub focus_primary : SplitContainer → SplitContainer
focus_primary sc = set_content_focused false sc

unfoldable pub toggle_focus : SplitContainer → SplitContainer
toggle_focus sc = set_content_focused (not sc.content_focused) sc
