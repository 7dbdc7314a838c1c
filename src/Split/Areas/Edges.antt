-- ===== src/Split/Areas/Edges.antt =====
-- Arithmetic of the areas of the pane (internal/ui/split/renderer.go).
use jjui.Layout.{box_of, pos_at, rect}
use jjui.Split.Areas.{thickness_on}
use jjui.Prelude.{◌≡◌, refl, true, false, arith}
use jjui.Prelude.Int.{ℤ, pos, ◌+ℤ◌, ◌-ℤ◌, +ℤ_parts, ◌≤ℤ◌, ◌<ℤ◌, ltb_ℤ, int_laws, eq_of_parts}

pub sum_of_side : (lo hi : ℤ) → lo +ℤ (hi -ℤ lo) ≡ hi
sum_of_side lo hi = eq_of_parts _ _ (omega (int_laws))

pub usable_end : (lo hi t : ℤ) → (lo +ℤ ((hi -ℤ lo) -ℤ t)) +ℤ t ≡ hi
usable_end lo hi t = eq_of_parts _ _ (omega (int_laws))

-- A rectangle with sides of at least 0 has its corners in order.
pub rect-ordered :
    (x y w h : ℤ)
    → pos 0 ≤ℤ w
    → pos 0 ≤ℤ h
    → rect x y w h ≡ (box_of (pos_at x y) (pos_at (x +ℤ w) (y +ℤ h))).r
unfolding rect
rect-ordered x y w h p q =
    let ex : ltb_ℤ (x +ℤ w) x ≡ false = ground (arith, +ℤ_parts x w) in
    let ey : ltb_ℤ (y +ℤ h) y ≡ false = ground (arith, +ℤ_parts y h) in rw (ex, ey) refl

pub thickness_on-bounds :
    (side thickness : ℤ)
    → pos 0 <ℤ side
    → (pos 0 ≤ℤ thickness_on side thickness) × (thickness_on side thickness <ℤ side)
unfolding thickness_on
thickness_on-bounds side thickness p = ground arith

pub line_after : (y t : ℤ) → ltb_ℤ (pos 0) t ≡ true → y <ℤ y +ℤ t
line_after y t e = ground (arith, +ℤ_parts y t)

pub line_within : (y t m top : ℤ) → y ≤ℤ m → m +ℤ t ≡ top → y +ℤ t ≤ℤ top
line_within y t m top p e = rw (← e) (omega (arith, +ℤ_parts))

pub side_left : (lo side t : ℤ) → t <ℤ side → pos 0 <ℤ (lo +ℤ (side -ℤ t)) -ℤ lo
side_left lo side t p = omega (int_laws)
