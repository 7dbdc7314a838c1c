-- ===== src/Split/Areas/Columns.antt =====
-- The pane beside the primary view (internal/ui/split/renderer.go).
use jjui.Layout.{Box, box_of, pos_at, dx, dy}
use jjui.Layout.Specs.{percent, fill, column, h}
use jjui.Layout.Columns.{Ranked, right_end, h-Ranked, right_end-h}
use jjui.Split.Areas.{
  Areas, nothing_drawn, alone, apart, adjacent, thickness_on, left_box, side_areas, render_both,
  moved_right,
}
use jjui.Split.Areas.Edges.{
  sum_of_side, usable_end, rect-ordered, thickness_on-bounds, line_after, line_within, side_left,
}
use jjui.Prelude.{◌≡◌, ◌∙◌, ap, inl, inr, true, false, List, [], ◌∷◌, arith, length, Bool-cases}
use jjui.Prelude.Int.{ℤ, pos, ◌+ℤ◌, ◌-ℤ◌, ◌≤ℤ◌, ◌<ℤ◌, leb_ℤ, ltb_ℤ}

-- The areas are full columns of the box that follow one another from its left edge to its right one,
-- with a line of the separator at least where there is one.
abbrev pub InColumns : Box → Areas → Type 0
InColumns box nothing_drawn = dx box.r ≤ℤ pos 0
InColumns box (alone primary) = ⊥
InColumns box (apart p s q) =
    (p ≡ column box box.r.min.x p.r.max.x)
    × (s ≡ (column box p.r.max.x s.max.x).r)
    × (q ≡ column box s.max.x box.r.max.x)
    × (box.r.min.x ≤ℤ p.r.max.x)
    × (p.r.max.x <ℤ s.max.x)
    × (s.max.x ≤ℤ box.r.max.x)
InColumns box (adjacent p q) =
    (p ≡ column box box.r.min.x p.r.max.x)
    × (q ≡ column box p.r.max.x box.r.max.x)
    × (box.r.min.x ≤ℤ p.r.max.x)
    × (p.r.max.x ≤ℤ box.r.max.x)

-- The two columns of a box without the separator's, and the separator between them.
side_areas-apart :
    (box : Box) (t m : ℤ) (bs : List Box)
    → ltb_ℤ (pos 0) t ≡ true
    → pos 0 ≤ℤ dy box.r
    → m +ℤ t ≡ box.r.max.x
    → length bs ≡ 2
    → Ranked (column box box.r.min.x m) box.r.min.x bs
    → right_end box.r.min.x bs ≡ m
    → InColumns box (side_areas box t bs)
unfolding side_areas dy
side_areas-apart box t m [] e w j l st bo = absurd (omega (arith, l))
side_areas-apart box t m (c ∷ []) e w j l st bo = absurd (omega (arith, l))
side_areas-apart box t m (c ∷ d ∷ e ∷ bs) f w j l st bo = absurd (omega (arith, l))
side_areas-apart box t m (c ∷ d ∷ []) e w j l st bo =
    let line = rect-ordered c.r.max.x box.r.min.y t (dy box.r) (ground (arith, e)) w in
    rw (e, line)
      (
        st.0,
        ap (λ y. (box_of (pos_at c.r.max.x box.r.min.y) (pos_at (c.r.max.x +ℤ t) y)).r)
            (sum_of_side box.r.min.y box.r.max.y),
        ap (moved_right t) st.3.0
            ∙ ap (λ x. column box (c.r.max.x +ℤ t) x) (ap (λ x. x +ℤ t) bo ∙ j),
        st.1,
        line_after c.r.max.x t e,
        line_within c.r.max.x t m box.r.max.x st.2 j,
      )

side_areas-adjacent :
    (box : Box) (t : ℤ) (bs : List Box)
    → ltb_ℤ (pos 0) t ≡ false
    → length bs ≡ 2
    → Ranked box box.r.min.x bs
    → right_end box.r.min.x bs ≡ box.r.max.x
    → InColumns box (side_areas box t bs)
unfolding side_areas
side_areas-adjacent box t [] e l st bo = absurd (omega (arith, l))
side_areas-adjacent box t (c ∷ []) e l st bo = absurd (omega (arith, l))
side_areas-adjacent box t (c ∷ d ∷ f ∷ bs) e l st bo = absurd (omega (arith, l))
side_areas-adjacent box t (c ∷ d ∷ []) e l st bo =
    rw e (st.0, st.3.0 ∙ ap (λ x. column box c.r.max.x x) bo, st.1, st.2)

two_columns :
    (b : Box) (part : ℤ)
    → pos 0 <ℤ dx b.r
    → (length (h b (percent part ∷ fill (pos 1) ∷ [])) ≡ 2)
      × Ranked b b.r.min.x (h b (percent part ∷ fill (pos 1) ∷ []))
      × (right_end b.r.min.x (h b (percent part ∷ fill (pos 1) ∷ [])) ≡ b.r.max.x)
two_columns b part wide = (
  (h-Ranked b (percent part) (fill (pos 1) ∷ []) wide).0,
  (h-Ranked b (percent part) (fill (pos 1) ∷ []) wide).1,
  right_end-h b (percent part) (fill (pos 1) ∷ []) wide (omega arith) (omega arith),
)

left_wide :
    (box : Box) (t : ℤ)
    → t <ℤ dx box.r
    → pos 0 <ℤ dx (column box box.r.min.x (box.r.min.x +ℤ (dx box.r -ℤ t))).r
unfolding dx
left_wide box t p = side_left box.r.min.x (dx box.r) t p

usable_right : (box : Box) (t : ℤ) → (box.r.min.x +ℤ (dx box.r -ℤ t)) +ℤ t ≡ box.r.max.x
unfolding dx
usable_right box t = usable_end box.r.min.x box.r.max.x t

-- The columns of a box, however it shares them out between a part and what is left.
pub render_both-InColumns :
    (box : Box) (primary_percent thickness : ℤ)
    → pos 0 ≤ℤ dy box.r
    → InColumns box (render_both false primary_percent thickness box)
unfolding render_both left_box
render_both-InColumns box primary_percent thickness w =
    elim (Bool-cases (leb_ℤ (dx box.r) (pos 0))) [
      | inl e ↦ rw e (ground (arith, e))
      | inr e ↦
          let wide : pos 0 <ℤ dx box.r = ground (arith, e) in
          let t = thickness_on (dx box.r) thickness in
          let within = thickness_on-bounds (dx box.r) thickness wide in
          rw e (elim (Bool-cases (ltb_ℤ (pos 0) t)) [
            | inl f ↦ rw f (
                let edge = box.r.min.x +ℤ (dx box.r -ℤ t) in
                let left = column box box.r.min.x edge in
                let (n, st, bo) = two_columns left primary_percent (left_wide box t within.1) in
                side_areas-apart box t edge (h left (percent primary_percent ∷ fill (pos 1) ∷ [])) f
                  w (usable_right box t) n st bo)
            | inr f ↦ rw f (
                let (n, st, bo) = two_columns box primary_percent wide in
                side_areas-adjacent box t (h box (percent primary_percent ∷ fill (pos 1) ∷ [])) f n
                  st bo)
          ])
    ]
