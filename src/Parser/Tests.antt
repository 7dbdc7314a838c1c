-- ===== src/Parser/Tests.antt =====
-- A line of three segments, cut at an edge and inside a segment, and a row of three lines.
use jjui.Screen.{Segment, styled}
use jjui.Screen.Styles.{Style, new_style, ansi_colour}
use jjui.Operations.{commit_of}
use jjui.Parser.{
  GraphRowLine, Row, new_graph_row_line, chop, cut_from, split_runes, per_rune, padded, add_line,
  add_lines, add_after, flags_after, contains_rune,
}
use jjui.Parser.Splitting.{onto}
use jjui.Parser.Cutting.{text_of, Kept}
use jjui.Parser.Chop.{padding, chop-Kept}
use jjui.Prelude.{ℕ, ◌≡◌, refl, true, false, some, List, [], ◌∷◌, map}

abbrev mark : ℕ → Style
mark n = record new_style { foreground = some (ansi_colour n) }

abbrev three_segments : List Segment
three_segments = styled "| fix" (mark 0) ∷ styled " the" (mark 1) ∷ styled " bug" (mark 2) ∷ []

-- The word that the indent ends before is not kept.
rest_is_lost :
    (chop 2 (new_graph_row_line three_segments)).segments
    ≡ styled " the" (mark 1) ∷ styled " bug" (mark 2) ∷ []
unfolding chop new_graph_row_line cut_from split_runes
rest_is_lost = refl

rest_is_kept :
    (chop 2 (new_graph_row_line (styled "| fix" (mark 0) ∷ []))).segments
    ≡ styled "fix" (mark 0) ∷ []
unfolding chop new_graph_row_line cut_from split_runes
rest_is_kept = refl

gutter_is_padded :
    (chop 3 (new_graph_row_line (styled "|" (mark 4) ∷ []))).gutter
    ≡ styled "|" (mark 4) ∷ styled " " (mark 4) ∷ styled " " (mark 4) ∷ []
unfolding chop new_graph_row_line cut_from split_runes per_rune padded
gutter_is_padded = refl

chop-Kept_example :
    (text_of (chop 2 (new_graph_row_line three_segments)).gutter
      ≡ onto (split_runes 2 (text_of three_segments)).0 (
          padding
            (split_runes 2 (text_of three_segments)).0
            (split_runes 2 (text_of three_segments)).2))
    × Kept three_segments
        (chop 2 (new_graph_row_line three_segments)).segments
        (split_runes 2 (text_of three_segments)).0
chop-Kept_example = chop-Kept 2 three_segments

abbrev new_row : Row
new_row = record {
  commit = some (commit_of (record { change_id = "qp"; commit_id = "c1" }));
  lines = [];
  indent = 2;
}

abbrev three_lines : List GraphRowLine
three_lines =
    new_graph_row_line (styled "@ abc" (mark 0) ∷ [])
    ∷ new_graph_row_line (styled "~ " (mark 0) ∷ [])
    ∷ new_graph_row_line (styled "| (hidden)" (mark 0) ∷ [])
    ∷ []

flags_of_three :
    map (λ l. l.flags.highlightable) (add_lines new_row three_lines).lines
    ≡ true ∷ false ∷ false ∷ []
unfolding add_lines add_line add_after chop new_graph_row_line cut_from split_runes per_rune padded
    flags_after contains_rune
flags_of_three = refl
