-- ===== src/ListView/Cursor.antt =====
-- The start line and the cursor (internal/ui/render/list.go: ClampStartLine, ensureCursorVisible).
use jjui.ListView.{sum, clamp_start_line, ensure_cursor_visible, start_line}
use jjui.Prelude.{
  ℕ, zero, suc, ◌+◌, ◌-◌, ◌≤◌, ◌<◌, ◌≡◌, some, List, [], ◌∷◌, arith, get_elem?, take,
}
use jjui.Prelude.Int.{ℤ}

sum-split :
    (cursor height : ℕ) (heights : List ℕ)
    → get_elem? heights cursor ≡ some height
    → sum (take cursor heights) + height ≤ sum heights
sum-split cursor height [] e = ground (arith, e)
sum-split zero height (h ∷ heights) e = ground (arith, e)
sum-split (suc cursor) height (h ∷ heights) e = omega (arith, sum-split cursor height heights e)

-- How an item under the cursor stands in the view: wholly in it where it fits, and over all of it
-- where it does not; and the view ends with the last line at the latest.
pub record Shows (start view_height cursor_start height total : ℕ) : Type 0 where
  pub fits :
      height ≤ view_height → (start ≤ cursor_start) × (cursor_start + height ≤ start + view_height)
  pub fills :
      view_height < height → (cursor_start ≤ start) × (start + view_height ≤ cursor_start + height)
  pub within : start ≤ total - view_height

-- From any start line, in a box with lines: an item under the cursor that fits the box is wholly
-- visible, one that does not fit fills the box, and no line is shown after the last.
pub start_line-Shows :
    (before : ℤ) (cursor view_height height : ℕ) (heights : List ℕ)
    → 0 < view_height
    → get_elem? heights cursor ≡ some height
    → Shows
        (start_line before (some cursor) view_height heights)
        view_height
        (sum (take cursor heights))
        height
        (sum heights)
unfolding start_line ensure_cursor_visible clamp_start_line
start_line-Shows before cursor view_height height heights p e =
    rw (start_line, ensure_cursor_visible, e)
      (record {
        fits = λ f. ground (arith, sum-split cursor height heights e);
        fills = λ f. ground (arith, sum-split cursor height heights e);
        within = ground (arith, sum-split cursor height heights e);
      })
