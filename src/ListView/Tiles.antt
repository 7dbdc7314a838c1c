-- ===== src/ListView/Tiles.antt =====
-- The spans of the visible items (internal/ui/render/list.go: layoutAll).
use jjui.ListView.{sum, Span, span_of, layout_from, layout_all}
use mathlib.Core.Path.{subst}
use jjui.Prelude.{
  ℕ, zero, suc, ◌+◌, ◌-◌, ◌≤◌, ◌<◌, min, max, ◌≡◌, refl, inl, inr, false, ◌&&◌, List, [], ◌∷◌,
  arith, ltb, leb, ◌==◌, Bool-cases,
}

-- Spans from a row on, each beginning where the one before ends.
pub data Tiles : ℕ → List Span → Type 0 where
  none_left : (top : ℕ) → Tiles top []
  next :
      {spans : List Span} (top : ℕ) (s : Span)
      → s.top ≡ top
      → 0 < s.line_count
      → Tiles (top + s.line_count) spans
      → Tiles top (s ∷ spans)

abbrev pub rows_of : List Span → ℕ
rows_of [] = zero
rows_of (s ∷ spans) = s.line_count + rows_of spans

rows_of-layout_from :
    (vs ve i y : ℕ) (heights : List ℕ)
    → vs ≤ ve
    → rows_of (layout_from vs ve i y heights) ≡ min ve (y + sum heights) - max y vs
unfolding layout_from span_of
rows_of-layout_from vs ve i y [] h = ground arith
rows_of-layout_from vs ve i y (height ∷ heights) h =
    ground (arith, rows_of-layout_from vs ve (suc i) (y + height) heights h)

layout_from-past : (vs ve i y : ℕ) (heights : List ℕ) → ve ≤ y → layout_from vs ve i y heights ≡ []
unfolding layout_from
layout_from-past vs ve i y [] h = refl
layout_from-past vs ve i y (height ∷ heights) h =
    let later = layout_from-past vs ve (suc i) (y + height) heights (omega (arith, h)) in
    ground (arith, later)

-- The spans after an item, which are none where the item reaches the end of the view.
Tiles-onward :
    (vs ve i y height : ℕ) (heights : List ℕ) (top : ℕ)
    → (y + height < ve → max (y + height) vs - vs ≡ top)
    → Tiles (max (y + height) vs - vs) (layout_from vs ve (suc i) (y + height) heights)
    → Tiles top (layout_from vs ve (suc i) (y + height) heights)
Tiles-onward vs ve i y height heights top f tiles = elim (Bool-cases (leb ve (y + height))) [
  | inl e ↦
      rw (layout_from-past vs ve (suc i) (y + height) heights (ground (arith, e))) (none_left top)
  | inr e ↦
      subst (λ t. Tiles t (layout_from vs ve (suc i) (y + height) heights)) (f (ground (arith, e)))
        tiles
]

Tiles-layout_from :
    (vs ve i y : ℕ) (heights : List ℕ)
    → vs ≤ ve
    → Tiles (max y vs - vs) (layout_from vs ve i y heights)
unfolding layout_from span_of
Tiles-layout_from vs ve i y [] h = none_left (max y vs - vs)
Tiles-layout_from vs ve i y (height ∷ heights) h =
    elim (Bool-cases (ltb vs (y + height) && ltb y ve && ltb 0 (min (y + height) ve - max y vs))) [
      | inl e ↦ rw e (
          next (max y vs - vs) (span_of vs ve i y (y + height)) refl (ground (arith, e)) (
            Tiles-onward vs ve i y height heights
              ((max y vs - vs) + (min (y + height) ve - max y vs)) (λ f. ground (arith, e, f))
              (Tiles-layout_from vs ve (suc i) (y + height) heights h)))
      | inr e ↦ rw e (
          Tiles-onward vs ve i y height heights (max y vs - vs) (λ f. ground (arith, e, f))
            (Tiles-layout_from vs ve (suc i) (y + height) heights h))
    ]

-- In a box with lines, from a start line that leaves no room after the last line, the spans stand
-- one below the other from the top of the box, none is empty, and they fill the box, or show all
-- the lines where these are fewer.
pub layout_all-Tiles :
    (start view_height : ℕ) (heights : List ℕ)
    → 0 < view_height
    → start ≤ sum heights - view_height
    → Tiles 0 (layout_all start view_height heights)
      × (rows_of (layout_all start view_height heights) ≡ min view_height (sum heights))
unfolding layout_all
layout_all-Tiles start view_height heights p h =
    let some_rows : (view_height == 0) ≡ false = ground (arith, p) in
    rw some_rows (
      subst (λ t. Tiles t (layout_from start (start + view_height) 0 0 heights)) (ground arith)
          (Tiles-layout_from start (start + view_height) 0 0 heights (omega arith)),
      ground (arith, h, rows_of-layout_from start (start + view_height) 0 0 heights (omega arith)),
    )
