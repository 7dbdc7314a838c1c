-- ===== src/Split/Drawn.antt =====
-- What is drawn of the pane covers its box (internal/ui/split/container.go: Render).
use jjui.Layout.{Box, dx, dy}
use jjui.Split.{is_none, active_content}
use jjui.Split.Share.{Numbers}
use jjui.Split.Areas.{Areas, alone, render_areas, render_both}
use jjui.Split.Areas.Rows.{InRows, render_both-InRows}
use jjui.Split.Areas.Columns.{InColumns, render_both-InColumns}
use jjui.Split.Pane.{PaneViews, SplitPane, render_pane}
use jjui.Prelude.{◌≡◌, refl, inl, inr, Bool, true, false, Bool-cases}
use jjui.Prelude.Int.{ℤ, pos, ◌≤ℤ◌}

-- Without content the primary view has the whole box; a pane at the bottom is a row of it, and else a
-- column.
abbrev pub Covers : (is_empty at_bottom : Bool) → Box → Areas → Type 0
Covers true at_bottom box areas = areas ≡ alone box
Covers false true box areas = InRows box areas
Covers false false box areas = InColumns box areas

module _ {Share Own Input Cmd : Type 0} (numbers : Numbers Share)
    (views : PaneViews Own Input Cmd) where
  covered :
      (at_bottom : Bool) (part thickness : ℤ) (box : Box)
      → pos 0 ≤ℤ dx box.r
      → pos 0 ≤ℤ dy box.r
      → Covers false at_bottom box (render_both at_bottom part thickness box)
  covered true part thickness box w h = render_both-InRows box part thickness w
  covered false part thickness box w h = render_both-InColumns box part thickness h

  -- In a box without negative sides, whatever the share and the thickness: without content the primary
  -- view is drawn in the whole box. With one, the primary view, the separator and the content are full
  -- rows of the box for a pane at the bottom, and else full columns, which follow one another without
  -- gap or overlap from one edge to the other, or the two views alone do; and nothing is drawn only
  -- where the box is empty.
  pub render_pane-Covers :
      (box : Box) (p : SplitPane Share Own)
      → pos 0 ≤ℤ dx box.r
      → pos 0 ≤ℤ dy box.r
      → Covers
          (is_none (active_content p.container))
          p.share.at_bottom
          box
          (render_pane numbers views box p).1
  unfolding render_pane render_areas
  render_pane-Covers box p w h = elim (Bool-cases (is_none (active_content p.container))) [
    | inl e ↦ rw e refl
    | inr e ↦ rw e (
        covered p.share.at_bottom (numbers.rest_of_hundred p.share.percent)
          p.renderer.separator_thickness box w h)
  ]
