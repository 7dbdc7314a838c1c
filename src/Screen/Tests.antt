-- ===== src/Screen/Tests.antt =====
-- A coloured line and a second one (internal/screen).
use jjui.Screen.{Segment, styled, parse, parse_from, break_new_lines, onto, unless_empty}
use jjui.Screen.Styles.{
  new_style, ansi_colour, hex_colour, apply_params_to_style, split_params, apply_parts, apply_part,
  extended_colour, apply_code, atoi,
}
use jjui.Screen.Visible.{Shows, text_of, parse-Shows}
use jjui.Screen.Lines.{closed, IsClean, break_new_lines-closed}
use jjui.Prelude.{String, ◌≡◌, refl, true, false, some, List, [], ◌∷◌, ◌++◌, All}
use jjui.Prelude.Int.{pos}

abbrev coloured : String
coloured = "\u{1b}[1;31mab\u{1b}[0m\ncd"

coloured_is_parsed :
    parse coloured
    ≡ styled "ab" (record new_style { bold = true; foreground = some (ansi_colour 1) })
      ∷ styled "\ncd" new_style
      ∷ []
unfolding parse parse_from apply_params_to_style split_params apply_parts apply_part apply_code atoi
    extended_colour
coloured_is_parsed = refl

-- A colour of three numbers takes all its parts; one that is cut short is read as codes.
colour_by_numbers :
    apply_params_to_style new_style "38;2;1;2;3"
    ≡ record new_style { foreground = some (hex_colour (pos 1) (pos 2) (pos 3)) }
unfolding apply_params_to_style split_params apply_parts apply_part apply_code atoi extended_colour
colour_by_numbers = refl

colour_cut_short :
    apply_params_to_style new_style "38;2;1" ≡ record new_style { bold = true; faint = true }
unfolding apply_params_to_style split_params apply_parts apply_part apply_code atoi extended_colour
colour_cut_short = refl

parse-Shows_example : Shows false coloured (text_of (parse coloured))
parse-Shows_example = parse-Shows coloured

break_new_lines-closed_example :
    (lines : List (List Segment)) × (last : List Segment) × (break_new_lines (parse coloured)
      ≡ lines ++ unless_empty last)
    × (onto (closed lines) (text_of last) ≡ text_of (parse coloured))
    × (All (All IsClean) lines × All IsClean last)
break_new_lines-closed_example = break_new_lines-closed (parse coloured)
