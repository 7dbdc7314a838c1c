-- ===== src/Split/Areas.antt =====
-- The areas of the pane and the separator that is dragged (internal/ui/split/renderer.go). The line
-- that the separator is drawn as is left out. A renderer is identified by a number, as by its pointer.
pub mod Edges
pub mod Rows
pub mod Columns
use jjui.Layout.{Rectangle, Box, box_of, pos_at, dx, dy, rect}
use jjui.Layout.Specs.{percent, fill, row, column, v, h}
use jjui.Split.Share.{Numbers, SplitState, drag_to}
use jjui.Prelude.{ℕ, Bool, true, false, Option, none, some, List, [], ◌∷◌, if◌then◌else◌}
use jjui.Prelude.Int.{ℤ, pos, ◌+ℤ◌, ◌-ℤ◌, ltb_ℤ, leb_ℤ}

-- `last_box` is `none` where `hasLastBox` is false.
pub record SplitRenderer : Type 0 where
  pub reference : ℕ
  pub vertical : Bool
  pub separator_thickness : ℤ
  pub last_box : Option Box

-- What is drawn where: nothing, the primary view alone, the two views with the separator between
-- them, or the two views without it.
pub data Areas : Type 0 where
  nothing_drawn : Areas
  alone : (primary : Box) → Areas
  apart : (primary : Box) (separator : Rectangle) (secondary : Box) → Areas
  adjacent : (primary secondary : Box) → Areas

-- The thickness on a side of so many cells.
unfoldable pub thickness_on : ℤ → ℤ → ℤ
thickness_on side thickness =
    let at_least = if leb_ℤ thickness (pos 0) then pos 1 else thickness in
    if leb_ℤ side at_least then pos 0 else at_least

-- The box that the two views share, without the lines of the separator.
unfoldable pub upper_box : Box → ℤ → Box
upper_box box thickness =
    if ltb_ℤ (pos 0) thickness
    then row box box.r.min.y (box.r.min.y +ℤ (dy box.r -ℤ thickness))
    else box

unfoldable pub left_box : Box → ℤ → Box
left_box box thickness =
    if ltb_ℤ (pos 0) thickness
    then column box box.r.min.x (box.r.min.x +ℤ (dx box.r -ℤ thickness))
    else box

abbrev pub moved_down : ℤ → Box → Box
moved_down n b = box_of (pos_at b.r.min.x (b.r.min.y +ℤ n)) (pos_at b.r.max.x (b.r.max.y +ℤ n))

abbrev pub moved_right : ℤ → Box → Box
moved_right n b = box_of (pos_at (b.r.min.x +ℤ n) b.r.min.y) (pos_at (b.r.max.x +ℤ n) b.r.max.y)

-- The areas in the boxes of the views, one below the other.
unfoldable pub stack_areas : Box → ℤ → List Box → Areas
stack_areas box thickness (primary ∷ secondary ∷ rest) =
    if ltb_ℤ (pos 0) thickness
    then apart primary (rect box.r.min.x primary.r.max.y (dx box.r) thickness)
        (moved_down thickness secondary)
    else adjacent primary secondary
stack_areas box thickness _ = nothing_drawn

-- The areas in the boxes of the views, side by side.
unfoldable pub side_areas : Box → ℤ → List Box → Areas
side_areas box thickness (primary ∷ secondary ∷ rest) =
    if ltb_ℤ (pos 0) thickness
    then apart primary (rect primary.r.max.x box.r.min.y thickness (dy box.r))
        (moved_right thickness secondary)
    else adjacent primary secondary
side_areas box thickness _ = nothing_drawn

-- `primary_percent` is the whole part of 100 - `Percent`.
unfoldable pub render_both : Bool → ℤ → ℤ → Box → Areas
render_both true primary_percent separator_thickness box =
    let thickness = thickness_on (dy box.r) separator_thickness in
    let boxes = v (upper_box box thickness) (percent primary_percent ∷ fill (pos 1) ∷ []) in
    if leb_ℤ (dy box.r) (pos 0) then nothing_drawn else stack_areas box thickness boxes
render_both false primary_percent separator_thickness box =
    let thickness = thickness_on (dx box.r) separator_thickness in
    let boxes = h (left_box box thickness) (percent primary_percent ∷ fill (pos 1) ∷ []) in
    if leb_ℤ (dx box.r) (pos 0) then nothing_drawn else side_areas box thickness boxes

module _ {Share : Type 0} (numbers : Numbers Share) where
  -- `Render`, of a renderer that is not nil and has a state.
  unfoldable pub render_areas :
      Bool → Box → SplitState Share → SplitRenderer → SplitRenderer × Areas
  render_areas vertical box s renderer = (
    record renderer { vertical = vertical; last_box = some box },
    render_both vertical (numbers.rest_of_hundred s.percent) renderer.separator_thickness box,
  )

  -- `SplitRenderer.DragTo`, with the state.
  unfoldable pub drag_separator : ℤ → ℤ → SplitRenderer → SplitState Share → SplitState Share × Bool
  drag_separator x y renderer s = elim renderer.last_box [
    | none ↦ (s, false)
    | some box ↦ drag_to numbers box renderer.vertical x y s
  ]
