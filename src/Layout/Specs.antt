-- ===== src/Layout/Specs.antt =====
-- Layout specifications and the splits of a box (internal/ui/layout/box.go: Spec, splitSizes, V, H).
-- The weights of Fill are whole numbers, as wherever the program calls it; the product of a
-- remaining size and a weight is then far below 2^53, and the float64 quotient rounds down as `/`.
use jjui.Prelude.{
  ℕ, zero, suc, ◌+◌, ◌-◌, ◌*◌, ◌/◌, Bool, true, false, ◌||◌, ◌&&◌, Option, none, some, List, [],
  ◌∷◌, ltb, ◌==◌, if◌then◌else◌, length, replicate,
}
use jjui.Prelude.Int.{ℤ, pos, pos_part, ◌+ℤ◌, ltb_ℤ, leb_ℤ, min_ℤ}
use jjui.Layout.{Box, pos_at, box_of, dx, dy}

pub data Spec : Type 0 where
  fixed : ℤ → Spec
  percent : ℤ → Spec
  fill : ℤ → Spec

abbrev pub is_fill : Spec → Bool
is_fill (fill w) = true
is_fill _ = false

-- `calc`; every result is at least 0.
unfoldable pub calc : ℕ → ℕ → ℤ → Spec → ℕ
calc total remaining fill_weight (fixed size) =
    if ltb_ℤ size (pos 0) then 0 else if ltb_ℤ (pos total) size then total else pos_part size
calc total remaining fill_weight (percent pct) =
    if ltb_ℤ pct (pos 0)
    then 0
    else if ltb_ℤ (pos 100) pct
    then total
    else total * pos_part pct / 100
calc total remaining fill_weight (fill weight) =
    if remaining == 0 || leb_ℤ fill_weight (pos 0)
    then 0
    else if leb_ℤ weight (pos 0)
    then 0
    else remaining * pos_part weight / pos_part fill_weight

-- What the first loop of `splitSizes` leaves.
pub record Measured : Type 0 where
  pub sizes : List ℕ
  pub consumed : ℕ
  pub fill_weight : ℤ

unfoldable pub measure : ℕ → List Spec → Measured
measure total [] = record { sizes = []; consumed = 0; fill_weight = pos 0 }
measure total (fill w ∷ specs) =
    let m = measure total specs in
    record { sizes = 0 ∷ m.sizes; consumed = m.consumed; fill_weight = w +ℤ m.fill_weight }
measure total (spec ∷ specs) =
    let m = measure total specs in
    let size = calc total 0 (pos 0) spec in
    record { sizes = size ∷ m.sizes; consumed = size + m.consumed; fill_weight = m.fill_weight }

-- What the second loop leaves; `last` is `lastFill`, with `none` for -1.
pub record Filled : Type 0 where
  pub sizes : List ℕ
  pub allocated : ℕ
  pub last : Option ℕ

abbrev after_first : Bool → Option ℕ → Option ℕ
after_first here (some i) = some (suc i)
after_first true none = some 0
after_first false none = none

unfoldable pub fill_sizes : ℕ → ℕ → ℤ → List Spec → List ℕ → Filled
fill_sizes total remaining w [] sizes = record { sizes = sizes; allocated = 0; last = none }
fill_sizes total remaining w (spec ∷ specs) [] = record { sizes = []; allocated = 0; last = none }
fill_sizes total remaining w (spec ∷ specs) (s ∷ sizes) =
    let f = fill_sizes total remaining w specs sizes in
    let size = calc total remaining w spec in
    record {
      sizes = (if is_fill spec then size else s) ∷ f.sizes;
      allocated = (if is_fill spec then size else 0) + f.allocated;
      last = after_first (is_fill spec) f.last;
    }

-- `sizes[i] += k`.
abbrev pub add_at : ℕ → ℕ → List ℕ → List ℕ
add_at i k [] = []
add_at zero k (s ∷ sizes) = (s + k) ∷ sizes
add_at (suc i) k (s ∷ sizes) = s ∷ add_at i k sizes

unfoldable pub give_rest : ℤ → ℕ → Filled → List ℕ
give_rest w remaining f = elim f.last [
  | none ↦ f.sizes
  | some i ↦
      if ltb_ℤ (pos 0) w && ltb f.allocated remaining
      then add_at i (remaining - f.allocated) f.sizes
      else f.sizes
]

-- The sizes along an axis of `total` cells, which the callers give only above 0.
unfoldable pub split_sizes : ℕ → List Spec → List ℕ
unfolding give_rest
split_sizes total specs =
    let m = measure total specs in
    let remaining = total - m.consumed in
    give_rest m.fill_weight remaining (fill_sizes total remaining m.fill_weight specs m.sizes)

-- The rows of `b` from `lo` to `hi`, and its columns.
abbrev pub row : Box → ℤ → ℤ → Box
row b lo hi = box_of (pos_at b.r.min.x lo) (pos_at b.r.max.x hi)

abbrev pub column : Box → ℤ → ℤ → Box
column b lo hi = box_of (pos_at lo b.r.min.y) (pos_at hi b.r.max.y)

-- The loop of `V`, at row `y`.
unfoldable pub rows : Box → ℤ → List ℕ → List Box
rows b y [] = []
rows b y (size ∷ sizes) =
    let next = min_ℤ (y +ℤ pos size) b.r.max.y in
    let full = row b b.r.max.y b.r.max.y ∷ rows b y sizes in
    let more = row b y next ∷ rows b next sizes in if leb_ℤ b.r.max.y y then full else more

-- The loop of `H`, at column `x`.
unfoldable pub columns : Box → ℤ → List ℕ → List Box
columns b x [] = []
columns b x (size ∷ sizes) =
    let next = min_ℤ (x +ℤ pos size) b.r.max.x in
    let full = column b b.r.max.x b.r.max.x ∷ columns b x sizes in
    let more = column b x next ∷ columns b next sizes in if leb_ℤ b.r.max.x x then full else more

unfoldable pub v : Box → List Spec → List Box
unfolding dy rows
v b [] = b ∷ []
v b (s ∷ ss) =
    if leb_ℤ (dy b.r) (pos 0)
    then replicate (length (s ∷ ss)) (box_of b.r.min b.r.min)
    else rows b b.r.min.y (split_sizes (pos_part (dy b.r)) (s ∷ ss))

unfoldable pub h : Box → List Spec → List Box
unfolding dx columns
h b [] = b ∷ []
h b (s ∷ ss) =
    if leb_ℤ (dx b.r) (pos 0)
    then replicate (length (s ∷ ss)) (box_of b.r.min b.r.min)
    else columns b b.r.min.x (split_sizes (pos_part (dx b.r)) (s ∷ ss))
