-- ===== src/Layout/Sizes.antt =====
-- How `splitSizes` (internal/ui/layout/box.go) shares out the cells of an axis.
use jjui.Prelude.{
  ℕ, zero, suc, ◌+◌, ◌-◌, ◌*◌, ◌/◌, ◌≤◌, ◌<◌, max, ◌≡◌, ◌≢◌, refl, ap, none, some, List, [], ◌∷◌,
  All, arith, length, Option-cases, inl, inr, ◌∙◌,
}
use jjui.Prelude.Int.{ℤ, pos, pos_part, ◌+ℤ◌, ◌≤ℤ◌}
use jjui.Layout.Specs.{
  Spec, fixed, percent, fill, calc, measure, Filled, fill_sizes, add_at, give_rest, split_sizes,
}

abbrev pub sum : List ℕ → ℕ
sum [] = zero
sum (size ∷ sizes) = size + sum sizes

-- No weight of a `Fill` is negative.
abbrev pub HasWeight : Spec → Type 0
HasWeight (fill w) = pos 0 ≤ℤ w
HasWeight _ = Unit

abbrev pub weight : Spec → ℕ
weight (fill w) = pos_part w
weight _ = 0

abbrev pub weights : List Spec → ℕ
weights [] = 0
weights (s ∷ ss) = weight s + weights ss

pub measure-weights :
    (total : ℕ) (specs : List Spec)
    → All HasWeight specs
    → (measure total specs).fill_weight ≡ pos (weights specs)
unfolding measure ◌+ℤ◌
measure-weights total [] h = refl
measure-weights total (fixed n ∷ ss) h = ground (arith, measure-weights total ss h.1)
measure-weights total (percent n ∷ ss) h = ground (arith, measure-weights total ss h.1)
measure-weights total (fill w ∷ ss) h = ground (arith, measure-weights total ss h.1, h.0)

pub sum-measure :
    (total : ℕ) (specs : List Spec)
    → (sum (measure total specs).sizes ≡ (measure total specs).consumed)
      × (length (measure total specs).sizes ≡ length specs)
unfolding measure
sum-measure total [] = (refl, refl)
sum-measure total (fixed n ∷ ss) = omega (arith, sum-measure total ss)
sum-measure total (percent n ∷ ss) = omega (arith, sum-measure total ss)
sum-measure total (fill w ∷ ss) = omega (arith, sum-measure total ss)

module _ (total remaining : ℕ) (w : ℤ) where
  -- A `Fill` had size 0 after the first loop.
  pub sum-fill_sizes :
      (specs : List Spec)
      → let m = measure total specs in
        let f = fill_sizes total remaining w specs m.sizes in
        (sum f.sizes ≡ m.consumed + f.allocated) × (length f.sizes ≡ length specs)
  unfolding measure fill_sizes
  sum-fill_sizes [] = (refl, refl)
  sum-fill_sizes (fixed n ∷ ss) = omega (arith, sum-fill_sizes ss)
  sum-fill_sizes (percent n ∷ ss) = omega (arith, sum-fill_sizes ss)
  sum-fill_sizes (fill v ∷ ss) = omega (arith, sum-fill_sizes ss)

div-mul-le : (a w : ℕ) → a / w * w ≤ a
div-mul-le a w = grind arith

-- The cells given to one `Fill`, against its share of the weight.
calc-share :
    (total remaining w : ℕ) (v : ℤ)
    → calc total remaining (pos w) (fill v) * w ≤ remaining * pos_part v
unfolding calc
calc-share total remaining w v = ground (arith, div-mul-le (remaining * pos_part v) w)

allocated-share :
    (total remaining w : ℕ) (specs : List Spec) (sizes : List ℕ)
    → (fill_sizes total remaining (pos w) specs sizes).allocated * w ≤ remaining * weights specs
unfolding fill_sizes
allocated-share total remaining w [] sizes = omega arith
allocated-share total remaining w (s ∷ ss) [] = omega arith
allocated-share total remaining w (fixed n ∷ ss) (x ∷ xs) =
    omega (arith, allocated-share total remaining w ss xs)
allocated-share total remaining w (percent n ∷ ss) (x ∷ xs) =
    omega (arith, allocated-share total remaining w ss xs)
allocated-share total remaining w (fill v ∷ ss) (x ∷ xs) =
    omega (arith, calc-share total remaining w v, allocated-share total remaining w ss xs)

mul-le-cancel : (a b w : ℕ) → 0 < w → a * w ≤ b * w → a ≤ b
mul-le-cancel a b w p h = grind arith

-- So the second loop never gives out more than remains.
pub allocated-le :
    (total remaining : ℕ) (specs : List Spec) (sizes : List ℕ)
    → 0 < weights specs
    → (fill_sizes total remaining (pos (weights specs)) specs sizes).allocated ≤ remaining
allocated-le total remaining specs sizes p =
    mul-le-cancel _ remaining (weights specs) p
      (allocated-share total remaining (weights specs) specs sizes)

last-bound :
    (total remaining : ℕ) (w : ℤ) (specs : List Spec) (sizes : List ℕ) (i : ℕ)
    → (fill_sizes total remaining w specs sizes).last ≡ some i
    → i < length (fill_sizes total remaining w specs sizes).sizes
unfolding fill_sizes
last-bound total remaining w [] sizes i e = cc
last-bound total remaining w (s ∷ ss) [] i e = cc
last-bound total remaining w (s ∷ ss) (x ∷ xs) i e =
    ground (arith, last-bound total remaining w ss xs (i - 1))

-- With a weight above 0 there is a last `Fill`.
last-ne-none :
    (total remaining : ℕ) (w : ℤ) (specs : List Spec) (sizes : List ℕ)
    → 0 < weights specs
    → length sizes ≡ length specs
    → (fill_sizes total remaining w specs sizes).last ≢ none
unfolding fill_sizes
last-ne-none total remaining w [] sizes p l = absurd (omega arith)
last-ne-none total remaining w (s ∷ ss) [] p l = absurd (omega arith)
last-ne-none total remaining w (fixed n ∷ ss) (x ∷ xs) p l =
    ground (arith, last-ne-none total remaining w ss xs)
last-ne-none total remaining w (percent n ∷ ss) (x ∷ xs) p l =
    ground (arith, last-ne-none total remaining w ss xs)
last-ne-none total remaining w (fill v ∷ ss) (x ∷ xs) p l = ground arith

sum-add_at : (i k : ℕ) (xs : List ℕ) → i < length xs → sum (add_at i k xs) ≡ sum xs + k
sum-add_at i k [] h = absurd (omega arith)
sum-add_at zero k (x ∷ xs) h = omega arith
sum-add_at (suc i) k (x ∷ xs) h = omega (arith, sum-add_at i k xs)

length-add_at : (i k : ℕ) (xs : List ℕ) → length (add_at i k xs) ≡ length xs
length-add_at i k [] = refl
length-add_at zero k (x ∷ xs) = refl
length-add_at (suc i) k (x ∷ xs) = ap suc (length-add_at i k xs)

length-give_rest :
    (w : ℤ) (remaining : ℕ) (f : Filled) → length (give_rest w remaining f) ≡ length f.sizes
unfolding give_rest
length-give_rest w remaining f = elim (Option-cases f.last) [
  | inl e ↦ rw (e, give_rest)
  | inr (i, e) ↦
      rw (e, give_rest) (ground (arith, length-add_at i (remaining - f.allocated) f.sizes))
]

-- There is one size for each specification, whatever the specifications are.
pub length-split_sizes :
    (total : ℕ) (specs : List Spec) → length (split_sizes total specs) ≡ length specs
unfolding split_sizes
length-split_sizes total specs =
    let m = measure total specs in
    length-give_rest m.fill_weight (total - m.consumed) _
    ∙ (sum-fill_sizes total (total - m.consumed) m.fill_weight specs).1

sum-give_rest :
    (w remaining : ℕ) (f : Filled)
    → 0 < w
    → f.allocated ≤ remaining
    → f.last ≢ none
    → ((i : ℕ) → f.last ≡ some i → i < length f.sizes)
    → sum (give_rest (pos w) remaining f) ≡ sum f.sizes + (remaining - f.allocated)
unfolding give_rest
sum-give_rest w remaining f p le ne within = elim (Option-cases f.last) [
  | inl e ↦ absurd (ne e)
  | inr (i, e) ↦
      rw (e, give_rest)
        (ground (arith, sum-add_at i (remaining - f.allocated) f.sizes (within i e)))
]

-- With weights of at least 0 and one above it, the sizes add up to the whole axis, or to what the
-- fixed and the relative sizes take where that is more.
pub sum-split_sizes :
    (total : ℕ) (specs : List Spec)
    → All HasWeight specs
    → 0 < weights specs
    → sum (split_sizes total specs) ≡ max total (measure total specs).consumed
unfolding split_sizes
sum-split_sizes total specs hw p =
    let m = measure total specs in
    let remaining : ℕ = total - m.consumed in
    let w : ℕ = weights specs in
    let lens = sum-fill_sizes total remaining (pos w) specs in
    let le = allocated-le total remaining specs m.sizes p in
    let same = (sum-measure total specs).1 in
    let given =
      sum-give_rest w remaining (fill_sizes total remaining (pos w) specs m.sizes) p le
        (last-ne-none total remaining (pos w) specs m.sizes p same)
        (last-bound total remaining (pos w) specs m.sizes) in
    rw (measure-weights total specs hw) (omega (arith, given, lens, le))
