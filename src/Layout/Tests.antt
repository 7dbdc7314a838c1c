-- ===== src/Layout/Tests.antt =====
-- The layout of a terminal of 80 by 24 cells (internal/ui/layout/box.go).
use jjui.Prelude.{◌≡◌, refl, [], ◌∷◌, arith}
use jjui.Prelude.Int.{pos, ◌+ℤ◌, ◌-ℤ◌}
use jjui.Layout.{Box, pos_at, box_of, dy}
use jjui.Layout.Specs.{fixed, fill, split_sizes, measure, give_rest, fill_sizes, calc, v}
use jjui.Layout.Rows.{bottom, bottom-v}

abbrev terminal : Box
terminal = box_of (pos_at (pos 0) (pos 0)) (pos_at (pos 80) (pos 24))

-- Three equal parts of 10 cells: the last one takes the cell that is left.
thirds : split_sizes 10 (fill (pos 1) ∷ fill (pos 1) ∷ fill (pos 1) ∷ []) ≡ 3 ∷ 3 ∷ 4 ∷ []
unfolding split_sizes measure give_rest fill_sizes calc ◌+ℤ◌
thirds = refl

bottom-v_example : bottom (pos 0) (v terminal (fixed (pos 1) ∷ fill (pos 1) ∷ [])) ≡ pos 24
unfolding dy ◌-ℤ◌
bottom-v_example =
    bottom-v terminal (fixed (pos 1)) (fill (pos 1) ∷ []) (omega arith) (omega arith) (omega arith)
