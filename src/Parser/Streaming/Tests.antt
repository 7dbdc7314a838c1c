-- ===== src/Parser/Streaming/Tests.antt =====
-- An output of two rows (internal/parser/streaming_log_parser.go).
use jjui.Parser.{Row, new_graph_row_line}
use jjui.Parser.Prefixes.{
  parse_row_prefixes, find_prefix, contains_text, split_from, read_parts, replace_at,
}
use jjui.Parser.Streaming.{request_more, close_stream, parse_rows_streaming, parse_rows}
use jjui.Parser.Streaming.Batches.{
  rows_of, all_rows, IsSized, parse_rows-rows_of, parse_rows_streaming-Partly,
}
use jjui.Screen.{Segment, styled, parse, break_new_lines}
use jjui.Screen.Styles.{new_style}
use jjui.Prelude.{String, ◌≡◌, refl, List, [], ◌∷◌, ◌++◌, All}

abbrev two_rows : String
two_rows =
    "@ _PREFIX:qp_PREFIX:c1_PREFIX:false one\n| more\no _PREFIX:rs_PREFIX:c2_PREFIX:true two\n"

abbrev lines_of_two : List (List Segment)
lines_of_two =
    (styled "@ " new_style ∷ styled "_PREFIX:qp_PREFIX:c1" new_style ∷ styled " one" new_style ∷ [])
    ∷ (styled "| more" new_style ∷ [])
    ∷ (styled "o " new_style
        ∷ styled "_PREFIX:rs_PREFIX:c2" new_style
        ∷ styled " two" new_style
        ∷ [])
    ∷ []

prefix_is_read :
    (parse_row_prefixes
      (new_graph_row_line (styled "@ _PREFIX:qp_PREFIX: c1" new_style ∷ []))).0.segments
    ≡ styled "@ " new_style ∷ []
unfolding parse_row_prefixes new_graph_row_line find_prefix contains_text split_from read_parts
    replace_at
prefix_is_read = refl

parse_rows-rows_of_example : parse_rows two_rows ≡ rows_of (break_new_lines (parse two_rows))
parse_rows-rows_of_example = parse_rows-rows_of two_rows

parse_rows_streaming-Partly_example :
    All (IsSized 0) (parse_rows_streaming 0 (request_more ∷ close_stream ∷ []) lines_of_two)
    × ((rest : List Row) × (all_rows
              (parse_rows_streaming 0 (request_more ∷ close_stream ∷ []) lines_of_two)
            ++ rest
          ≡ rows_of lines_of_two))
parse_rows_streaming-Partly_example =
    parse_rows_streaming-Partly 0 (request_more ∷ close_stream ∷ []) lines_of_two
