-- ===== src/Layout/Columns.antt =====
-- The boxes of `H` (internal/ui/layout/box.go) lie side by side in the box that is split.
use mathlib.Core.Path.{subst}
use jjui.Prelude.{
  ℕ, suc, ◌+◌, ◌<◌, ◌≡◌, refl, sym, ap, ◌∙◌, inl, inr, List, [], ◌∷◌, arith, All, length,
  Bool-cases,
}
use jjui.Prelude.Int.{
  ℤ, pos, pos_part, ◌+ℤ◌, +ℤ_parts, -ℤ_parts, ◌≤ℤ◌, ◌<ℤ◌, leb_ℤ, min_ℤ, int_laws, eq_of_parts,
}
use jjui.Layout.{Box, dx}
use jjui.Layout.Specs.{Spec, column, columns, split_sizes, h}
use jjui.Layout.Sizes.{sum, weights, HasWeight, sum-split_sizes, length-split_sizes}
use jjui.Layout.Steps.{
  step_within, end_reached, no_step, full_step, two_steps, not_empty, one_sign, reaches,
}

-- `bs` are columns of `b` that follow one another from `x` and do not pass its right edge.
abbrev pub Ranked : Box → ℤ → List Box → Type 0
Ranked b x [] = Unit
Ranked b x (c ∷ cs) =
    (c ≡ column b x c.r.max.x) × (x ≤ℤ c.r.max.x) × (c.r.max.x ≤ℤ b.r.max.x) × Ranked b c.r.max.x cs

abbrev pub right_end : ℤ → List Box → ℤ
right_end x [] = x
right_end x (c ∷ cs) = right_end c.r.max.x cs

columns-Ranked :
    (b : Box) (x : ℤ) (sizes : List ℕ) → x ≤ℤ b.r.max.x → Ranked b x (columns b x sizes)
unfolding columns
columns-Ranked b x [] p = tt
columns-Ranked b x (s ∷ sizes) p = elim (Bool-cases (leb_ℤ b.r.max.x x)) [
  | inl full ↦
      let e = end_reached x b.r.max.x p full in
      rw full (
        ap (λ t. column b t b.r.max.x) e,
        p,
        omega arith,
        subst (λ t. Ranked b t (columns b x sizes)) (sym e) (columns-Ranked b x sizes p),
      )
  | inr more ↦
      let within = step_within x b.r.max.x s p in
      rw more
        (refl, within.0, within.1, columns-Ranked b (min_ℤ (x +ℤ pos s) b.r.max.x) sizes within.1)
]

right_end-columns :
    (b : Box) (x : ℤ) (sizes : List ℕ)
    → x ≤ℤ b.r.max.x
    → right_end x (columns b x sizes) ≡ min_ℤ (x +ℤ pos (sum sizes)) b.r.max.x
unfolding columns
right_end-columns b x [] p = sym (no_step x b.r.max.x p)
right_end-columns b x (s ∷ sizes) p = elim (Bool-cases (leb_ℤ b.r.max.x x)) [
  | inl full ↦
      let e = end_reached x b.r.max.x p full in
      rw full (
        subst (λ t. right_end t (columns b x sizes) ≡ min_ℤ (x +ℤ pos (s + sum sizes)) b.r.max.x)
          (sym e) (right_end-columns b x sizes p ∙ full_step x b.r.max.x s (sum sizes) full))
  | inr more ↦
      let within = step_within x b.r.max.x s p in
      rw more (
        right_end-columns b (min_ℤ (x +ℤ pos s) b.r.max.x) sizes within.1
        ∙ two_steps x b.r.max.x s (sum sizes) p)
]

length-columns : (b : Box) (x : ℤ) (sizes : List ℕ) → length (columns b x sizes) ≡ length sizes
unfolding columns
length-columns b x [] = refl
length-columns b x (s ∷ sizes) = elim (Bool-cases (leb_ℤ b.r.max.x x)) [
  | inl full ↦ rw full (ap suc (length-columns b x sizes))
  | inr more ↦ rw more (ap suc (length-columns b (min_ℤ (x +ℤ pos s) b.r.max.x) sizes))
]

above_dx : (b : Box) → pos 0 <ℤ dx b.r → b.r.min.x ≤ℤ b.r.max.x
unfolding dx
above_dx b p = omega (int_laws)

dx-eq : (b : Box) → pos 0 <ℤ dx b.r → b.r.min.x +ℤ pos (pos_part (dx b.r)) ≡ b.r.max.x
unfolding dx
dx-eq b p = eq_of_parts _ _ (omega (arith, +ℤ_parts, -ℤ_parts, one_sign (dx b.r) p))

-- Whatever the specifications, there is one column for each, and the columns of a box that is not
-- empty follow one another without gap or overlap from its left edge, inside it.
pub h-Ranked :
    (b : Box) (s : Spec) (ss : List Spec)
    → pos 0 <ℤ dx b.r
    → (length (h b (s ∷ ss)) ≡ length (s ∷ ss)) × Ranked b b.r.min.x (h b (s ∷ ss))
unfolding h
h-Ranked b s ss p = rw (not_empty (dx b.r) p) (
  length-columns b b.r.min.x (split_sizes (pos_part (dx b.r)) (s ∷ ss))
      ∙ length-split_sizes (pos_part (dx b.r)) (s ∷ ss),
  columns-Ranked b b.r.min.x (split_sizes (pos_part (dx b.r)) (s ∷ ss)) (above_dx b p),
)

-- In a box with columns, if no weight is negative and one is above 0, the columns that H gives
-- reach the right edge: no cell is left over.
pub right_end-h :
    (b : Box) (s : Spec) (ss : List Spec)
    → pos 0 <ℤ dx b.r
    → All HasWeight (s ∷ ss)
    → 0 < weights (s ∷ ss)
    → right_end b.r.min.x (h b (s ∷ ss)) ≡ b.r.max.x
unfolding h
right_end-h b s ss p hw pw =
    let total : ℕ = pos_part (dx b.r) in
    rw (not_empty (dx b.r) p) (
      right_end-columns b b.r.min.x (split_sizes total (s ∷ ss)) (above_dx b p)
      ∙ reaches b.r.min.x b.r.max.x total (sum (split_sizes total (s ∷ ss))) (dx-eq b p)
          (omega (arith, sum-split_sizes total (s ∷ ss) hw pw)))
