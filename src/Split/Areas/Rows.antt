-- ===== src/Split/Areas/Rows.antt =====
-- The pane below the primary view (internal/ui/split/renderer.go).
use jjui.Layout.{Box, box_of, pos_at, dx, dy}
use jjui.Layout.Specs.{percent, fill, row, v}
use jjui.Layout.Rows.{Stacked, bottom, v-Stacked, bottom-v}
use jjui.Split.Areas.{
  Areas, nothing_drawn, alone, apart, adjacent, thickness_on, upper_box, stack_areas, render_both,
  moved_down,
}
use jjui.Split.Areas.Edges.{
  sum_of_side, usable_end, rect-ordered, thickness_on-bounds, line_after, line_within, side_left,
}
use jjui.Prelude.{◌≡◌, ◌∙◌, ap, inl, inr, true, false, List, [], ◌∷◌, arith, length, Bool-cases}
use jjui.Prelude.Int.{ℤ, pos, ◌+ℤ◌, ◌-ℤ◌, ◌≤ℤ◌, ◌<ℤ◌, leb_ℤ, ltb_ℤ}

-- The areas are full rows of the box that follow one another from its upper edge to its lower one,
-- with a line of the separator at least where there is one.
abbrev pub InRows : Box → Areas → Type 0
InRows box nothing_drawn = dy box.r ≤ℤ pos 0
InRows box (alone primary) = ⊥
InRows box (apart p s q) =
    (p ≡ row box box.r.min.y p.r.max.y)
    × (s ≡ (row box p.r.max.y s.max.y).r)
    × (q ≡ row box s.max.y box.r.max.y)
    × (box.r.min.y ≤ℤ p.r.max.y)
    × (p.r.max.y <ℤ s.max.y)
    × (s.max.y ≤ℤ box.r.max.y)
InRows box (adjacent p q) =
    (p ≡ row box box.r.min.y p.r.max.y)
    × (q ≡ row box p.r.max.y box.r.max.y)
    × (box.r.min.y ≤ℤ p.r.max.y)
    × (p.r.max.y ≤ℤ box.r.max.y)

-- Two rows of the upper box, and the separator between them.
stack_areas-apart :
    (box : Box) (t m : ℤ) (bs : List Box)
    → ltb_ℤ (pos 0) t ≡ true
    → pos 0 ≤ℤ dx box.r
    → m +ℤ t ≡ box.r.max.y
    → length bs ≡ 2
    → Stacked (row box box.r.min.y m) box.r.min.y bs
    → bottom box.r.min.y bs ≡ m
    → InRows box (stack_areas box t bs)
unfolding stack_areas dx
stack_areas-apart box t m [] e w j l st bo = absurd (omega (arith, l))
stack_areas-apart box t m (c ∷ []) e w j l st bo = absurd (omega (arith, l))
stack_areas-apart box t m (c ∷ d ∷ e ∷ bs) f w j l st bo = absurd (omega (arith, l))
stack_areas-apart box t m (c ∷ d ∷ []) e w j l st bo =
    let line = rect-ordered box.r.min.x c.r.max.y (dx box.r) t w (ground (arith, e)) in
    rw (e, line)
      (
        st.0,
        ap (λ x. (box_of (pos_at box.r.min.x c.r.max.y) (pos_at x (c.r.max.y +ℤ t))).r)
            (sum_of_side box.r.min.x box.r.max.x),
        ap (moved_down t) st.3.0 ∙ ap (λ y. row box (c.r.max.y +ℤ t) y) (ap (λ y. y +ℤ t) bo ∙ j),
        st.1,
        line_after c.r.max.y t e,
        line_within c.r.max.y t m box.r.max.y st.2 j,
      )

stack_areas-adjacent :
    (box : Box) (t : ℤ) (bs : List Box)
    → ltb_ℤ (pos 0) t ≡ false
    → length bs ≡ 2
    → Stacked box box.r.min.y bs
    → bottom box.r.min.y bs ≡ box.r.max.y
    → InRows box (stack_areas box t bs)
unfolding stack_areas
stack_areas-adjacent box t [] e l st bo = absurd (omega (arith, l))
stack_areas-adjacent box t (c ∷ []) e l st bo = absurd (omega (arith, l))
stack_areas-adjacent box t (c ∷ d ∷ f ∷ bs) e l st bo = absurd (omega (arith, l))
stack_areas-adjacent box t (c ∷ d ∷ []) e l st bo =
    rw e (st.0, st.3.0 ∙ ap (λ y. row box c.r.max.y y) bo, st.1, st.2)

two_rows :
    (b : Box) (part : ℤ)
    → pos 0 <ℤ dy b.r
    → (length (v b (percent part ∷ fill (pos 1) ∷ [])) ≡ 2)
      × Stacked b b.r.min.y (v b (percent part ∷ fill (pos 1) ∷ []))
      × (bottom b.r.min.y (v b (percent part ∷ fill (pos 1) ∷ [])) ≡ b.r.max.y)
two_rows b part tall = (
  (v-Stacked b (percent part) (fill (pos 1) ∷ []) tall).0,
  (v-Stacked b (percent part) (fill (pos 1) ∷ []) tall).1,
  bottom-v b (percent part) (fill (pos 1) ∷ []) tall (omega arith) (omega arith),
)

upper_tall :
    (box : Box) (t : ℤ)
    → t <ℤ dy box.r
    → pos 0 <ℤ dy (row box box.r.min.y (box.r.min.y +ℤ (dy box.r -ℤ t))).r
unfolding dy
upper_tall box t p = side_left box.r.min.y (dy box.r) t p

usable_bottom : (box : Box) (t : ℤ) → (box.r.min.y +ℤ (dy box.r -ℤ t)) +ℤ t ≡ box.r.max.y
unfolding dy
usable_bottom box t = usable_end box.r.min.y box.r.max.y t

-- The rows of a box, however it shares them out between a part and what is left.
pub render_both-InRows :
    (box : Box) (primary_percent thickness : ℤ)
    → pos 0 ≤ℤ dx box.r
    → InRows box (render_both true primary_percent thickness box)
unfolding render_both upper_box
render_both-InRows box primary_percent thickness w = elim (Bool-cases (leb_ℤ (dy box.r) (pos 0))) [
  | inl e ↦ rw e (ground (arith, e))
  | inr e ↦
      let tall : pos 0 <ℤ dy box.r = ground (arith, e) in
      let t = thickness_on (dy box.r) thickness in
      let within = thickness_on-bounds (dy box.r) thickness tall in
      rw e (elim (Bool-cases (ltb_ℤ (pos 0) t)) [
        | inl f ↦ rw f (
            let top = box.r.min.y +ℤ (dy box.r -ℤ t) in
            let upper = row box box.r.min.y top in
            let (n, st, bo) = two_rows upper primary_percent (upper_tall box t within.1) in
            stack_areas-apart box t top (v upper (percent primary_percent ∷ fill (pos 1) ∷ [])) f w
              (usable_bottom box t) n st bo)
        | inr f ↦ rw f (
            let (n, st, bo) = two_rows box primary_percent tall in
            stack_areas-adjacent box t (v box (percent primary_percent ∷ fill (pos 1) ∷ [])) f n st
              bo)
      ])
]
