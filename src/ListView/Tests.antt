-- ===== src/ListView/Tests.antt =====
-- Four items of two, three, one and four lines in a box of five.
use jjui.ListView.{
  start_line, clamp_start_line, ensure_cursor_visible, layout_all, layout_from, span_of,
}
use jjui.ListView.Cursor.{Shows, start_line-Shows}
use jjui.ListView.Tiles.{Tiles, rows_of, layout_all-Tiles}
use jjui.Prelude.{ℕ, min, ◌≡◌, refl, some, List, [], ◌∷◌, map, arith}
use jjui.Prelude.Int.{negsuc}

abbrev four_heights : List ℕ
four_heights = 2 ∷ 3 ∷ 1 ∷ 4 ∷ []

start_line-Shows_example : Shows (start_line (negsuc 3) (some 3) 5 four_heights) 5 6 4 10
start_line-Shows_example = start_line-Shows (negsuc 3) 3 5 4 four_heights (ground arith) refl

last_item_is_shown : start_line (negsuc 3) (some 3) 5 four_heights ≡ 5
unfolding start_line ensure_cursor_visible clamp_start_line
last_item_is_shown = refl

layout_all-Tiles_example :
    Tiles 0 (layout_all 4 5 four_heights) × (rows_of (layout_all 4 5 four_heights) ≡ min 5 10)
layout_all-Tiles_example = layout_all-Tiles 4 5 four_heights (ground arith) (ground arith)

visible_items :
    map {B = ℕ × ℕ × ℕ × ℕ}
      (λ s. (s.index, s.top, s.line_offset, s.line_count))
      (layout_all 4 5 four_heights)
    ≡ (1, 0, 2, 1) ∷ (2, 1, 0, 1) ∷ (3, 2, 0, 3) ∷ []
unfolding layout_all layout_from span_of
visible_items = refl
