-- ===== src/Layout/Cuts.antt =====
-- The cuts of a box and the centred box (internal/ui/layout/box.go).
use jjui.Prelude.{◌≡◌, arith, if◌then◌else◌}
use jjui.Prelude.Int.{ℤ, pos, ◌+ℤ◌, ◌-ℤ◌, ◌≤ℤ◌, leb_ℤ, half_ℤ, int_laws}
use jjui.Layout.{Box, dx, dy, cut_top, cut_bottom, cut_left, cut_right, clamp_side, center}
use jjui.Layout.Specs.{row, column}

-- A box whose corners are in order.
abbrev pub IsOrdered : Box → Type 0
IsOrdered b = (b.r.min.x ≤ℤ b.r.max.x) × (b.r.min.y ≤ℤ b.r.max.y)

-- `c` and `d` are the rows of `b` above and below `at`, which lies in `b`.
abbrev pub SplitsRows : Box → ℤ → Box × Box → Type 0
SplitsRows b at p =
    (p.0 ≡ row b b.r.min.y at) × (p.1 ≡ row b at b.r.max.y) × (b.r.min.y ≤ℤ at) × (at ≤ℤ b.r.max.y)

abbrev pub SplitsColumns : Box → ℤ → Box × Box → Type 0
SplitsColumns b at p =
    (p.0 ≡ column b b.r.min.x at)
    × (p.1 ≡ column b at b.r.max.x)
    × (b.r.min.x ≤ℤ at)
    × (at ≤ℤ b.r.max.x)

-- The asked for size, brought into the range from 0 to `side`.
abbrev pub within : ℤ → ℤ → ℤ
within side n = if leb_ℤ n (pos 0) then pos 0 else if leb_ℤ side n then side else n

cut_top-SplitsRows :
    (b : Box) (n : ℤ) → IsOrdered b → SplitsRows b (b.r.min.y +ℤ within (dy b.r) n) (cut_top b n)
unfolding cut_top dy ◌+ℤ◌ ◌-ℤ◌
cut_top-SplitsRows b n o = ground arith

cut_bottom-SplitsRows :
    (b : Box) (n : ℤ) → IsOrdered b → SplitsRows b (b.r.max.y -ℤ within (dy b.r) n) (cut_bottom b n)
unfolding cut_bottom dy ◌+ℤ◌ ◌-ℤ◌
cut_bottom-SplitsRows b n o = ground arith

cut_left-SplitsColumns :
    (b : Box) (n : ℤ)
    → IsOrdered b
    → SplitsColumns b (b.r.min.x +ℤ within (dx b.r) n) (cut_left b n)
unfolding cut_left dx ◌+ℤ◌ ◌-ℤ◌
cut_left-SplitsColumns b n o = ground arith

cut_right-SplitsColumns :
    (b : Box) (n : ℤ)
    → IsOrdered b
    → SplitsColumns b (b.r.max.x -ℤ within (dx b.r) n) (cut_right b n)
unfolding cut_right dx ◌+ℤ◌ ◌-ℤ◌
cut_right-SplitsColumns b n o = ground arith

cut_bottom-eq-cut_top :
    (b : Box) (n : ℤ) → pos 0 ≤ℤ n → n ≤ℤ dy b.r → cut_bottom b n ≡ cut_top b (dy b.r -ℤ n)
unfolding cut_top cut_bottom dy ◌+ℤ◌ ◌-ℤ◌
cut_bottom-eq-cut_top b n p q = ground arith

cut_right-eq-cut_left :
    (b : Box) (n : ℤ) → pos 0 ≤ℤ n → n ≤ℤ dx b.r → cut_right b n ≡ cut_left b (dx b.r -ℤ n)
unfolding cut_left cut_right dx ◌+ℤ◌ ◌-ℤ◌
cut_right-eq-cut_left b n p q = ground arith

clamp_side_bounds :
    (avail w : ℤ) → pos 0 ≤ℤ avail → (pos 0 ≤ℤ clamp_side avail w) × (clamp_side avail w ≤ℤ avail)
unfolding clamp_side
clamp_side_bounds avail w p = ground arith

half_ℤ_bounds :
    (n : ℤ) → pos 0 ≤ℤ n → (half_ℤ n +ℤ half_ℤ n ≤ℤ n) × (n ≤ℤ half_ℤ n +ℤ half_ℤ n +ℤ pos 1)
unfolding half_ℤ ◌+ℤ◌
half_ℤ_bounds n p = ground arith

-- `lo` and `hi`, a side of the centred box, lie in the side from `min` to `max`, with margins that
-- differ by one cell at most, the first being the smaller.
abbrev pub InMiddle : ℤ → ℤ → ℤ → ℤ → Type 0
InMiddle min lo hi max =
    (min ≤ℤ lo)
    × (lo ≤ℤ hi)
    × (hi ≤ℤ max)
    × (lo -ℤ min ≤ℤ max -ℤ hi)
    × (max -ℤ hi ≤ℤ lo -ℤ min +ℤ pos 1)

middle :
    (min max w : ℤ)
    → pos 0 ≤ℤ w
    → w ≤ℤ max -ℤ min
    → let lo = min +ℤ half_ℤ (max -ℤ min -ℤ w) in InMiddle min lo (lo +ℤ w) max
middle min max w p q = omega (int_laws, half_ℤ_bounds (max -ℤ min -ℤ w) (omega int_laws))

side-eq : (a w : ℤ) → a +ℤ w -ℤ a ≡ w
side-eq a w = omega int_laws

dx-nonneg : (b : Box) → IsOrdered b → pos 0 ≤ℤ dx b.r
unfolding dx
dx-nonneg b o = omega int_laws

dy-nonneg : (b : Box) → IsOrdered b → pos 0 ≤ℤ dy b.r
unfolding dy
dy-nonneg b o = omega int_laws

-- The centred box has the clamped sides and lies in the middle of the box, both ways.
pub center-InMiddle :
    (b : Box) (w h : ℤ)
    → IsOrdered b
    → let c = center b w h in
      InMiddle b.r.min.x c.r.min.x c.r.max.x b.r.max.x
      × InMiddle b.r.min.y c.r.min.y c.r.max.y b.r.max.y
      × (dx c.r ≡ clamp_side (dx b.r) w)
      × (dy c.r ≡ clamp_side (dy b.r) h)
unfolding center dx dy
center-InMiddle b w h o =
    let wide = clamp_side_bounds (dx b.r) w (dx-nonneg b o) in
    let high = clamp_side_bounds (dy b.r) h (dy-nonneg b o) in
    (
      middle b.r.min.x b.r.max.x (clamp_side (dx b.r) w) wide.0 wide.1,
      middle b.r.min.y b.r.max.y (clamp_side (dy b.r) h) high.0 high.1,
      side-eq _ _,
      side-eq _ _,
    )

-- Each cut of a box whose corners are in order gives the two parts on either side of one line, which
-- is as far from the named edge as asked, but no further than the other edge.
pub cuts_split :
    (b : Box) (n : ℤ)
    → IsOrdered b
    → SplitsRows b (b.r.min.y +ℤ within (dy b.r) n) (cut_top b n)
      × SplitsRows b (b.r.max.y -ℤ within (dy b.r) n) (cut_bottom b n)
      × SplitsColumns b (b.r.min.x +ℤ within (dx b.r) n) (cut_left b n)
      × SplitsColumns b (b.r.max.x -ℤ within (dx b.r) n) (cut_right b n)
cuts_split b n o = (
  cut_top-SplitsRows b n o,
  cut_bottom-SplitsRows b n o,
  cut_left-SplitsColumns b n o,
  cut_right-SplitsColumns b n o,
)

-- To cut `n` rows off the bottom is to cut the other rows off the top, and so for columns.
pub cuts_agree :
    (b : Box) (m n : ℤ)
    → (pos 0 ≤ℤ m) × (m ≤ℤ dx b.r)
    → (pos 0 ≤ℤ n) × (n ≤ℤ dy b.r)
    → (cut_bottom b n ≡ cut_top b (dy b.r -ℤ n)) × (cut_right b m ≡ cut_left b (dx b.r -ℤ m))
cuts_agree b m n p q = (cut_bottom-eq-cut_top b n q.0 q.1, cut_right-eq-cut_left b m p.0 p.1)
