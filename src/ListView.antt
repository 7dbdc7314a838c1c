-- ===== src/ListView.antt =====
-- The lines of a list that are on the screen (internal/ui/render/list.go). The height of an item is
-- what `measure` gives, which is not negative; a box without a positive height has height 0.
pub mod Cursor
pub mod Tiles
mod Tests
use jjui.Layout.{Box, Rectangle, dx, rect}
use jjui.Prelude.{
  ℕ, zero, suc, ◌+◌, ◌-◌, min, max, ◌&&◌, Option, none, some, List, [], ◌∷◌, ltb, ◌==◌,
  if◌then◌else◌, get_elem?, take,
}
use jjui.Prelude.Int.{ℤ, pos, pos_part, ◌+ℤ◌}

abbrev pub sum : List ℕ → ℕ
sum [] = zero
sum (height ∷ heights) = height + sum heights

-- `ClampStartLine`.
unfoldable pub clamp_start_line : ℤ → (view_height total_lines : ℕ) → ℕ
clamp_start_line start_line view_height total_lines =
    let start = pos_part start_line in
    let max_start = total_lines - view_height in if ltb max_start start then max_start else start

-- `ensureCursorVisible`, from a start line that is clamped.
unfoldable pub ensure_cursor_visible : (start cursor view_height : ℕ) → List ℕ → ℕ
ensure_cursor_visible start cursor view_height heights = elim (get_elem? heights cursor) [
  | none ↦ start
  | some height ↦
      let cursor_start = sum (take cursor heights) in
      let cursor_end = cursor_start + height in
      if view_height == 0
      then start
      else if ltb cursor_start start
      then cursor_start
      else if ltb (start + view_height) cursor_end
      then cursor_end - view_height
      else start
]

-- The start line that `Render` lays out from; the cursor is `none` where it need not be visible.
unfoldable pub start_line : ℤ → Option ℕ → ℕ → List ℕ → ℕ
start_line before cursor view_height heights =
    let start = clamp_start_line before view_height (sum heights) in
    elim cursor [ none ↦ start | some c ↦ ensure_cursor_visible start c view_height heights ]

-- `top` is the row of the rectangle, counted from the top of the box.
pub record Span : Type 0 where
  pub index : ℕ
  pub top : ℕ
  pub line_offset : ℕ
  pub line_count : ℕ
  pub item_start : ℕ
  pub item_end : ℕ

unfoldable pub span_of : (view_start view_end index item_start item_end : ℕ) → Span
span_of view_start view_end index item_start item_end =
    let overlap_start = max item_start view_start in
    let overlap_end = min item_end view_end in
    record {
      index = index;
      top = overlap_start - view_start;
      line_offset = overlap_start - item_start;
      line_count = overlap_end - overlap_start;
      item_start = item_start;
      item_end = item_end;
    }

-- The loop of `layoutAll` from an item on.
unfoldable pub layout_from : (view_start view_end index list_y : ℕ) → List ℕ → List Span
layout_from view_start view_end index list_y [] = []
layout_from view_start view_end index list_y (height ∷ heights) =
    let rest = layout_from view_start view_end (suc index) (list_y + height) heights in
    let here = span_of view_start view_end index list_y (list_y + height) in
    if ltb view_start (list_y + height) && ltb list_y view_end && ltb 0 here.line_count
    then here ∷ rest
    else rest

unfoldable pub layout_all : (start view_height : ℕ) → List ℕ → List Span
layout_all start view_height heights =
    if view_height == 0 then [] else layout_from start (start + view_height) 0 0 heights

-- The rectangle of a span.
unfoldable pub span_rect : Box → Span → Rectangle
span_rect box s = rect box.r.min.x (box.r.min.y +ℤ pos s.top) (dx box.r) (pos s.line_count)
