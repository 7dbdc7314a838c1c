-- ===== src/Layout/Steps.antt =====
-- Arithmetic of the loops of `V` and `H` (internal/ui/layout/box.go): a step by a size, stopped at an edge.
use jjui.Prelude.{ℕ, ◌+◌, ◌≤◌, ◌≡◌, refl, true, false, arith}
use jjui.Prelude.Int.{ℤ, pos, negsuc, ◌+ℤ◌, neg_part, ◌≤ℤ◌, ◌<ℤ◌, leb_ℤ, min_ℤ, eq_of_parts}

pub ≤ℤ_antisym : (a b : ℤ) → a ≤ℤ b → b ≤ℤ a → a ≡ b
≤ℤ_antisym a b p q = eq_of_parts a b (omega arith)

-- One step of either loop, from `y` by `size`, below `top`.
pub step_within :
    (y top : ℤ) (size : ℕ)
    → y ≤ℤ top
    → (y ≤ℤ min_ℤ (y +ℤ pos size) top) × (min_ℤ (y +ℤ pos size) top ≤ℤ top)
unfolding min_ℤ ◌+ℤ◌
step_within y top size p = ground arith

pub end_reached : (y top : ℤ) → y ≤ℤ top → leb_ℤ top y ≡ true → top ≡ y
end_reached y top p full = ground (arith, ≤ℤ_antisym top y)

pub no_step : (y top : ℤ) → y ≤ℤ top → min_ℤ (y +ℤ pos 0) top ≡ y
unfolding min_ℤ ◌+ℤ◌
no_step y top p = ground arith

pub full_step :
    (y top : ℤ) (m n : ℕ)
    → leb_ℤ top y ≡ true
    → min_ℤ (y +ℤ pos n) top ≡ min_ℤ (y +ℤ pos (m + n)) top
unfolding min_ℤ ◌+ℤ◌
full_step y top m n full = ground arith

pub two_steps :
    (y top : ℤ) (m n : ℕ)
    → y ≤ℤ top
    → min_ℤ (min_ℤ (y +ℤ pos m) top +ℤ pos n) top ≡ min_ℤ (y +ℤ pos (m + n)) top
unfolding min_ℤ ◌+ℤ◌
two_steps y top m n p = ground arith

pub not_empty : (d : ℤ) → pos 0 <ℤ d → leb_ℤ d (pos 0) ≡ false
not_empty d p = ground arith

pub one_sign : (d : ℤ) → pos 0 <ℤ d → neg_part d ≡ 0
one_sign (pos n) p = refl
one_sign (negsuc n) p = absurd (omega arith)

pub reaches :
    (lo hi : ℤ) (total n : ℕ) → lo +ℤ pos total ≡ hi → total ≤ n → min_ℤ (lo +ℤ pos n) hi ≡ hi
unfolding min_ℤ ◌+ℤ◌
reaches lo hi total n e le = rw (← e) (ground arith)
