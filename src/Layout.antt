-- ===== src/Layout.antt =====
-- Rectangles and boxes of cells (internal/ui/layout/box.go): the cuts and the centred box.
-- A coordinate is a whole number of terminal cells, so `int` is ℤ here and does not wrap.
pub mod Specs
pub mod Cuts
pub mod Sizes
pub mod Steps
pub mod Rows
pub mod Columns
mod Tests
use jjui.Prelude.{Bool, ◌&&◌, if◌then◌else◌}
use jjui.Prelude.Int.{ℤ, pos, ◌+ℤ◌, ◌-ℤ◌, ltb_ℤ, leb_ℤ, half_ℤ}

-- `image.Point`.
pub record Point : Type 0 where
  pub x : ℤ
  pub y : ℤ

-- `image.Rectangle`: `min` belongs to it, `max` does not.
pub record Rectangle : Type 0 where
  pub min : Point
  pub max : Point

pub record Box : Type 0 where
  pub r : Rectangle

abbrev pub pos_at : ℤ → ℤ → Point
pos_at x y = record { x = x; y = y }

abbrev pub box_of : Point → Point → Box
box_of lo hi = record { r = record { min = lo; max = hi } }

unfoldable pub dx : Rectangle → ℤ
dx r = r.max.x -ℤ r.min.x

unfoldable pub dy : Rectangle → ℤ
dy r = r.max.y -ℤ r.min.y

-- `Rect`, by `image.Rect`, which puts the corners in order.
unfoldable pub rect : ℤ → ℤ → ℤ → ℤ → Rectangle
rect x y w h =
    let x1 = x +ℤ w in
    let y1 = y +ℤ h in
    record {
      min = pos_at (if ltb_ℤ x1 x then x1 else x) (if ltb_ℤ y1 y then y1 else y);
      max = pos_at (if ltb_ℤ x1 x then x else x1) (if ltb_ℤ y1 y then y else y1);
    }

-- `Point.In`.
unfoldable pub is_in : Point → Rectangle → Bool
is_in p r = leb_ℤ r.min.x p.x && ltb_ℤ p.x r.max.x && leb_ℤ r.min.y p.y && ltb_ℤ p.y r.max.y

-- Returns the top box and the rest.
unfoldable pub cut_top : Box → ℤ → Box × Box
unfolding dy
cut_top b h =
    if leb_ℤ h (pos 0)
    then (box_of b.r.min (pos_at b.r.max.x b.r.min.y), b)
    else if leb_ℤ (dy b.r) h
    then (b, box_of (pos_at b.r.min.x b.r.max.y) b.r.max)
    else (
      box_of b.r.min (pos_at b.r.max.x (b.r.min.y +ℤ h)),
      box_of (pos_at b.r.min.x (b.r.min.y +ℤ h)) b.r.max,
    )

-- Returns the rest and the bottom box.
unfoldable pub cut_bottom : Box → ℤ → Box × Box
unfolding dy
cut_bottom b h =
    if leb_ℤ h (pos 0)
    then (b, box_of (pos_at b.r.min.x b.r.max.y) b.r.max)
    else if leb_ℤ (dy b.r) h
    then (box_of b.r.min (pos_at b.r.max.x b.r.min.y), b)
    else (
      box_of b.r.min (pos_at b.r.max.x (b.r.max.y -ℤ h)),
      box_of (pos_at b.r.min.x (b.r.max.y -ℤ h)) b.r.max,
    )

-- Returns the left box and the rest.
unfoldable pub cut_left : Box → ℤ → Box × Box
unfolding dx
cut_left b w =
    if leb_ℤ w (pos 0)
    then (box_of b.r.min (pos_at b.r.min.x b.r.max.y), b)
    else if leb_ℤ (dx b.r) w
    then (b, box_of (pos_at b.r.max.x b.r.min.y) b.r.max)
    else (
      box_of b.r.min (pos_at (b.r.min.x +ℤ w) b.r.max.y),
      box_of (pos_at (b.r.min.x +ℤ w) b.r.min.y) b.r.max,
    )

-- Returns the rest and the right box.
unfoldable pub cut_right : Box → ℤ → Box × Box
unfolding dx
cut_right b w =
    if leb_ℤ w (pos 0)
    then (b, box_of (pos_at b.r.max.x b.r.min.y) b.r.max)
    else if leb_ℤ (dx b.r) w
    then (box_of b.r.min (pos_at b.r.min.x b.r.max.y), b)
    else (
      box_of b.r.min (pos_at (b.r.max.x -ℤ w) b.r.max.y),
      box_of (pos_at (b.r.max.x -ℤ w) b.r.min.y) b.r.max,
    )

-- A requested side, clamped to the available one and to 0.
unfoldable pub clamp_side : ℤ → ℤ → ℤ
clamp_side avail w =
    let at_most = if ltb_ℤ avail w then avail else w in
    if ltb_ℤ at_most (pos 0) then pos 0 else at_most

unfoldable pub center : Box → ℤ → ℤ → Box
unfolding dx dy clamp_side
center b w h =
    let w' = clamp_side (dx b.r) w in
    let h' = clamp_side (dy b.r) h in
    let left = b.r.min.x +ℤ half_ℤ (dx b.r -ℤ w') in
    let top = b.r.min.y +ℤ half_ℤ (dy b.r -ℤ h') in
    box_of (pos_at left top) (pos_at (left +ℤ w') (top +ℤ h'))
