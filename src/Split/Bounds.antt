-- ===== src/Split/Bounds.antt =====
-- The bounds of the share (internal/ui/split/state.go).
use jjui.Split.Share.{
  Numbers, SplitState, placement_auto, placement_bottom, placement_right, clamp, new_split_state,
  set_placement, toggle_position, set_auto_position, expand, shrink, dragged, drag_to, resize,
  IsBounded, Adjustment, places, toggles_position, sets_auto_position, resizes, drags, adjust,
}
use jjui.Layout.{Box, dx, dy}
use jjui.Prelude.{◌≡◌, refl, inl, inr, Bool, true, false, not, Bool-cases}
use jjui.Prelude.Int.{ℤ, pos, ◌-ℤ◌, leb_ℤ}

module _ {Share : Type 0} (numbers : Numbers Share) where
  clamp-IsBounded :
      (s : SplitState Share)
      → s.min_percent ≡ numbers.ten
      → s.max_percent ≡ numbers.ninety_five
      → IsBounded numbers (clamp numbers s)
  unfolding clamp
  clamp-IsBounded s a b =
      let ordered : numbers.less s.max_percent s.min_percent ≡ false = rw (a, b) numbers.in_order in
      elim (Bool-cases (numbers.less s.percent s.min_percent)) [
        | inl e ↦ rw e (
            rw ordered (record {
              lower = numbers.less_irreflexive s.min_percent;
              upper = ordered;
              at_ten = a;
              at_ninety_five = b;
            }))
        | inr e ↦ rw e (elim (Bool-cases (numbers.less s.max_percent s.percent)) [
          | inl f ↦ rw f (record {
            lower = ordered;
            upper = numbers.less_irreflexive s.max_percent;
            at_ten = a;
            at_ninety_five = b;
          })
          | inr f ↦ rw f (record { lower = e; upper = f; at_ten = a; at_ninety_five = b })
        ])
      ]

  pub placed-IsBounded :
      (auto bottom : Bool) (s : SplitState Share)
      → IsBounded numbers s
      → IsBounded numbers (record s { auto_position = auto; at_bottom = bottom })
  placed-IsBounded auto bottom s h = record {
    lower = h.lower;
    upper = h.upper;
    at_ten = h.at_ten;
    at_ninety_five = h.at_ninety_five;
  }

  pub auto-IsBounded :
      (b : Bool) (s : SplitState Share)
      → IsBounded numbers s
      → IsBounded numbers (set_auto_position numbers b s)
  unfolding set_auto_position
  auto-IsBounded b s h = elim (Bool-cases s.auto_position) [
    | inl e ↦ rw e (placed-IsBounded true b s h)
    | inr e ↦ rw e (placed-IsBounded false s.at_bottom s h)
  ]

  -- A share that is set and clamped.
  set-IsBounded :
      (p : Share) (s : SplitState Share)
      → IsBounded numbers s
      → IsBounded numbers (clamp numbers (record s { percent = p }))
  set-IsBounded p s h = clamp-IsBounded (record s { percent = p }) h.at_ten h.at_ninety_five

  pub resize-IsBounded :
      (delta : Share) (s : SplitState Share)
      → IsBounded numbers s
      → IsBounded numbers (resize numbers delta s)
  unfolding resize expand shrink
  resize-IsBounded delta s h = elim (Bool-cases (numbers.less numbers.nothing delta)) [
    | inl e ↦ rw e (set-IsBounded (numbers.plus s.percent delta) s h)
    | inr e ↦ rw e (elim (Bool-cases (numbers.less delta numbers.nothing)) [
      | inl f ↦ rw f (set-IsBounded (numbers.minus s.percent (numbers.negated delta)) s h)
      | inr f ↦ rw f h
    ])
  ]

  pub drag_to-IsBounded :
      (box : Box) (vertical : Bool) (x y : ℤ) (s : SplitState Share)
      → IsBounded numbers s
      → IsBounded numbers (drag_to numbers box vertical x y s).0
  unfolding drag_to dragged
  drag_to-IsBounded box true x y s h = elim (Bool-cases (leb_ℤ (dy box.r) (pos 0))) [
    | inl e ↦ rw e h
    | inr e ↦ rw e (set-IsBounded (numbers.percent_of (box.r.max.y -ℤ y) (dy box.r)) s h)
  ]
  drag_to-IsBounded box false x y s h = elim (Bool-cases (leb_ℤ (dx box.r) (pos 0))) [
    | inl e ↦ rw e h
    | inr e ↦ rw e (set-IsBounded (numbers.percent_of (box.r.max.x -ℤ x) (dx box.r)) s h)
  ]

  pub adjust-IsBounded :
      (a : Adjustment numbers) (s : SplitState Share)
      → IsBounded numbers s
      → IsBounded numbers (adjust numbers a s)
  unfolding adjust set_placement toggle_position
  adjust-IsBounded (places p) s h =
      placed-IsBounded
        (elim p [ placement_auto ↦ true | placement_bottom ↦ false | placement_right ↦ false ])
        (elim p [ placement_auto ↦ false | placement_bottom ↦ true | placement_right ↦ false ]) s h
  adjust-IsBounded toggles_position s h = placed-IsBounded false (not s.at_bottom) s h
  adjust-IsBounded (sets_auto_position b) s h = auto-IsBounded b s h
  adjust-IsBounded (resizes delta) s h = resize-IsBounded delta s h
  adjust-IsBounded (drags box vertical x y) s h = drag_to-IsBounded box vertical x y s h

  pub new_split_state-IsBounded :
      (percent : Share) → IsBounded numbers (new_split_state numbers percent)
  unfolding new_split_state
  new_split_state-IsBounded percent =
      clamp-IsBounded
        (record {
          percent = percent;
          min_percent = numbers.ten;
          max_percent = numbers.ninety_five;
          at_bottom = false;
          auto_position = false;
        })
        refl refl
