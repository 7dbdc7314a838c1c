-- ===== src/Layout/Rows.antt =====
-- The boxes of `V` (internal/ui/layout/box.go) lie one below the other in the box that is split.
use mathlib.Core.Path.{subst}
use jjui.Prelude.{
  ℕ, suc, ◌+◌, ◌<◌, ◌≡◌, refl, sym, ap, ◌∙◌, inl, inr, List, [], ◌∷◌, arith, All, length,
  Bool-cases,
}
use jjui.Prelude.Int.{
  ℤ, pos, pos_part, ◌+ℤ◌, +ℤ_parts, -ℤ_parts, ◌≤ℤ◌, ◌<ℤ◌, leb_ℤ, min_ℤ, int_laws, eq_of_parts,
}
use jjui.Layout.{Box, dy}
use jjui.Layout.Specs.{Spec, row, rows, split_sizes, v}
use jjui.Layout.Sizes.{sum, weights, HasWeight, sum-split_sizes, length-split_sizes}
use jjui.Layout.Steps.{
  step_within, end_reached, no_step, full_step, two_steps, not_empty, one_sign, reaches,
}

-- `bs` are rows of `b` that follow one another from `y` and do not pass its lower edge.
abbrev pub Stacked : Box → ℤ → List Box → Type 0
Stacked b y [] = Unit
Stacked b y (c ∷ cs) =
    (c ≡ row b y c.r.max.y) × (y ≤ℤ c.r.max.y) × (c.r.max.y ≤ℤ b.r.max.y) × Stacked b c.r.max.y cs

-- Where the last of them ends.
abbrev pub bottom : ℤ → List Box → ℤ
bottom y [] = y
bottom y (c ∷ cs) = bottom c.r.max.y cs

rows-Stacked : (b : Box) (y : ℤ) (sizes : List ℕ) → y ≤ℤ b.r.max.y → Stacked b y (rows b y sizes)
unfolding rows
rows-Stacked b y [] p = tt
rows-Stacked b y (s ∷ sizes) p = elim (Bool-cases (leb_ℤ b.r.max.y y)) [
  | inl full ↦
      let e = end_reached y b.r.max.y p full in
      rw full (
        ap (λ t. row b t b.r.max.y) e,
        p,
        omega arith,
        subst (λ t. Stacked b t (rows b y sizes)) (sym e) (rows-Stacked b y sizes p),
      )
  | inr more ↦
      let within = step_within y b.r.max.y s p in
      rw more
        (refl, within.0, within.1, rows-Stacked b (min_ℤ (y +ℤ pos s) b.r.max.y) sizes within.1)
]

bottom-rows :
    (b : Box) (y : ℤ) (sizes : List ℕ)
    → y ≤ℤ b.r.max.y
    → bottom y (rows b y sizes) ≡ min_ℤ (y +ℤ pos (sum sizes)) b.r.max.y
unfolding rows
bottom-rows b y [] p = sym (no_step y b.r.max.y p)
bottom-rows b y (s ∷ sizes) p = elim (Bool-cases (leb_ℤ b.r.max.y y)) [
  | inl full ↦
      let e = end_reached y b.r.max.y p full in
      rw full (
        subst (λ t. bottom t (rows b y sizes) ≡ min_ℤ (y +ℤ pos (s + sum sizes)) b.r.max.y) (sym e)
          (bottom-rows b y sizes p ∙ full_step y b.r.max.y s (sum sizes) full))
  | inr more ↦
      let within = step_within y b.r.max.y s p in
      rw more (
        bottom-rows b (min_ℤ (y +ℤ pos s) b.r.max.y) sizes within.1
        ∙ two_steps y b.r.max.y s (sum sizes) p)
]

length-rows : (b : Box) (y : ℤ) (sizes : List ℕ) → length (rows b y sizes) ≡ length sizes
unfolding rows
length-rows b y [] = refl
length-rows b y (s ∷ sizes) = elim (Bool-cases (leb_ℤ b.r.max.y y)) [
  | inl full ↦ rw full (ap suc (length-rows b y sizes))
  | inr more ↦ rw more (ap suc (length-rows b (min_ℤ (y +ℤ pos s) b.r.max.y) sizes))
]

above_dy : (b : Box) → pos 0 <ℤ dy b.r → b.r.min.y ≤ℤ b.r.max.y
unfolding dy
above_dy b p = omega (int_laws)

dy-eq : (b : Box) → pos 0 <ℤ dy b.r → b.r.min.y +ℤ pos (pos_part (dy b.r)) ≡ b.r.max.y
unfolding dy
dy-eq b p = eq_of_parts _ _ (omega (arith, +ℤ_parts, -ℤ_parts, one_sign (dy b.r) p))

-- Whatever the specifications, there is one row for each, and the rows of a box that is not
-- empty follow one another without gap or overlap from its upper edge, inside it.
pub v-Stacked :
    (b : Box) (s : Spec) (ss : List Spec)
    → pos 0 <ℤ dy b.r
    → (length (v b (s ∷ ss)) ≡ length (s ∷ ss)) × Stacked b b.r.min.y (v b (s ∷ ss))
unfolding v
v-Stacked b s ss p = rw (not_empty (dy b.r) p) (
  length-rows b b.r.min.y (split_sizes (pos_part (dy b.r)) (s ∷ ss))
      ∙ length-split_sizes (pos_part (dy b.r)) (s ∷ ss),
  rows-Stacked b b.r.min.y (split_sizes (pos_part (dy b.r)) (s ∷ ss)) (above_dy b p),
)

-- In a box with rows, if no weight is negative and one is above 0, the rows that V gives reach the
-- lower edge: no cell is left over.
pub bottom-v :
    (b : Box) (s : Spec) (ss : List Spec)
    → pos 0 <ℤ dy b.r
    → All HasWeight (s ∷ ss)
    → 0 < weights (s ∷ ss)
    → bottom b.r.min.y (v b (s ∷ ss)) ≡ b.r.max.y
unfolding v
bottom-v b s ss p hw pw =
    let total : ℕ = pos_part (dy b.r) in
    rw (not_empty (dy b.r) p) (
      bottom-rows b b.r.min.y (split_sizes total (s ∷ ss)) (above_dy b p)
      ∙ reaches b.r.min.y b.r.max.y total (sum (split_sizes total (s ∷ ss))) (dy-eq b p)
          (omega (arith, sum-split_sizes total (s ∷ ss) hw pw)))
