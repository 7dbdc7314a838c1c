-- ===== src/Split/Share.antt =====
-- The share of the pane and its place (internal/ui/split/state.go; the drag of renderer.go and of
-- container.go). The numbers of the share are an interface, of which the laws hold for float64
-- without NaN, which no operation here makes: the totals that are divided by are positive.
use jjui.Layout.{Box, dx, dy}
use jjui.Prelude.{◌≡◌, Bool, true, false, not, if◌then◌else◌}
use jjui.Prelude.Int.{ℤ, pos, ◌-ℤ◌, leb_ℤ}

pub record Numbers (Share : Type 0) : Type 0 where
  pub less : Share → Share → Bool
  pub same : Share → Share → Bool
  pub plus : Share → Share → Share
  pub minus : Share → Share → Share
  pub negated : Share → Share
  pub nothing : Share
  pub ten : Share
  pub ninety_five : Share
  -- The number of hundredths that a distance is of a total.
  pub percent_of : ℤ → ℤ → Share
  -- The whole part of what a share leaves of a hundred.
  pub rest_of_hundred : Share → ℤ
  pub less_irreflexive : (a : Share) → less a a ≡ false
  pub in_order : less ninety_five ten ≡ false

pub data Placement : Type 0 where
  placement_auto placement_bottom placement_right : Placement

pub record SplitState (Share : Type 0) : Type 0 where
  pub percent : Share
  pub min_percent : Share
  pub max_percent : Share
  pub at_bottom : Bool
  pub auto_position : Bool

module _ {Share : Type 0} (numbers : Numbers Share) where
  unfoldable pub clamp : SplitState Share → SplitState Share
  clamp s =
      let raised = if numbers.less s.percent s.min_percent then s.min_percent else s.percent in
      record s { percent = if numbers.less s.max_percent raised then s.max_percent else raised }

  unfoldable pub new_split_state : Share → SplitState Share
  new_split_state percent = clamp (record {
    percent = percent;
    min_percent = numbers.ten;
    max_percent = numbers.ninety_five;
    at_bottom = false;
    auto_position = false;
  })

  unfoldable pub set_placement : Placement → SplitState Share → SplitState Share
  set_placement placement s = record s {
    auto_position = elim placement [
      | placement_auto ↦ true
      | placement_bottom ↦ false
      | placement_right ↦ false
    ];
    at_bottom = elim placement [
      | placement_auto ↦ false
      | placement_bottom ↦ true
      | placement_right ↦ false
    ];
  }

  unfoldable pub toggle_position : SplitState Share → SplitState Share
  toggle_position s = record s { auto_position = false; at_bottom = not s.at_bottom }

  unfoldable pub set_auto_position : Bool → SplitState Share → SplitState Share
  set_auto_position at_bottom s = if s.auto_position then record s { at_bottom = at_bottom } else s

  unfoldable pub expand : Share → SplitState Share → SplitState Share
  expand delta s = clamp (record s { percent = numbers.plus s.percent delta })

  unfoldable pub shrink : Share → SplitState Share → SplitState Share
  shrink delta s = clamp (record s { percent = numbers.minus s.percent delta })

  -- A dragged share, and whether it is another one.
  unfoldable pub dragged : Share → SplitState Share → SplitState Share × Bool
  dragged percent s =
      let s' = clamp (record s { percent = percent }) in
      (s', not (numbers.same s'.percent s.percent))

  unfoldable pub drag_to : Box → Bool → ℤ → ℤ → SplitState Share → SplitState Share × Bool
  drag_to box vertical x y s =
      if vertical
      then (if leb_ℤ (dy box.r) (pos 0)
          then (s, false)
          else dragged (numbers.percent_of (box.r.max.y -ℤ y) (dy box.r)) s)
      else if leb_ℤ (dx box.r) (pos 0)
      then (s, false)
      else dragged (numbers.percent_of (box.r.max.x -ℤ x) (dx box.r)) s

  unfoldable pub resize : Share → SplitState Share → SplitState Share
  resize delta s =
      if numbers.less numbers.nothing delta
      then expand delta s
      else if numbers.less delta numbers.nothing
      then shrink (numbers.negated delta) s
      else s

  -- The argument of `CanResize` that is no number is whether a content is active.
  unfoldable pub can_resize : Bool → Share → SplitState Share → Bool
  can_resize has_content delta s =
      if not has_content
      then false
      else if numbers.less numbers.nothing delta
      then numbers.less s.percent s.max_percent
      else if numbers.less delta numbers.nothing
      then numbers.less s.min_percent s.percent
      else false

  -- The share is between the bounds, and the bounds are those of a new state.
  pub record IsBounded (s : SplitState Share) : Type 0 where
    pub lower : numbers.less s.percent s.min_percent ≡ false
    pub upper : numbers.less s.max_percent s.percent ≡ false
    pub at_ten : s.min_percent ≡ numbers.ten
    pub at_ninety_five : s.max_percent ≡ numbers.ninety_five

  -- The adjustments of the share.
  pub data Adjustment : Type 0 where
    places : Placement → Adjustment
    toggles_position : Adjustment
    sets_auto_position : Bool → Adjustment
    resizes : Share → Adjustment
    drags : Box → Bool → ℤ → ℤ → Adjustment

  unfoldable pub adjust : Adjustment → SplitState Share → SplitState Share
  adjust (places p) s = set_placement p s
  adjust toggles_position s = toggle_position s
  adjust (sets_auto_position b) s = set_auto_position b s
  adjust (resizes delta) s = resize delta s
  adjust (drags box vertical x y) s = (drag_to box vertical x y s).0
