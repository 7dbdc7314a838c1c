-- ===== src/Parser/Streaming.antt =====
-- Rows in batches, on demand (internal/parser/streaming_log_parser.go, log_parser.go). The messages of
-- the control channel are a list, in whose end the parser waits; the rows that it sends are the
-- result. The pointer from a row to the previous one is left out.
pub mod Batches
mod Tests
use jjui.Jj.Selections.{Commit}
use jjui.Parser.{GraphRowLine, Row, new_graph_row_line, add_line}
use jjui.Parser.Prefixes.{parse_row_prefixes, text_length}
use jjui.Screen.{Segment, parse, break_new_lines}
use mathlib.Core.Path.{subst, fun_ext}
use mathlib.Core.List.{reverse}
use mathlib.Core.Bool.{false≢true}
use jjui.Prelude.{
  ℕ, zero, suc, ◌+◌, ◌-◌, ◌*◌, ◌/◌, ◌%◌, ◌≤◌, ◌<◌, min, max, String, ◌≡◌, refl, sym, ap, ◌∙◌, ◌≢◌,
  ◌↔◌, ◌⊎◌, inl, inr, Bool, true, false, not, ◌&&◌, ◌||◌, Option, none, some, Memᴰ, List, [], ◌∷◌,
  ◌++◌, map, arith, str_eq, eq_iff, eq_refl, ltb, leb, ◌==◌, ==_iff, if◌then◌else◌, ltb→lt, lt→ltb,
  leb→le, tests, Bool-cases, Option-cases, length, get_elem?, take, drop, replicate, keep, any, All,
  length-append, length-replicate, All-append, All-keep, All-map, All-both, All-reverse,
  split_reverse, of-mem-keep, mem-keep,
}
use jjui.Prelude.Int.{
  ℤ, pos, negsuc, pos_part, neg_part, sub_ℕ, ◌+ℤ◌, ◌-ℤ◌, ◌≤ℤ◌, ◌<ℤ◌, ltb_ℤ, leb_ℤ, min_ℤ, max_ℤ,
  half_ℤ, +ℤ_parts, -ℤ_parts, eq_of_parts, min_ℤ_le, le-max_ℤ, int_laws,
}
use jjui.Prelude.Maps.{Map, lookup, insert, delete, lookup-insert, lookup-delete}
use jjui.Prelude.Texts.{
  trim_space, is_empty, is_space, join, join_onto, itoa, split_lines, onto_first,
}

-- `ended` is a channel that is closed, or a parser that is told to be done.
pub data ControlMsg : Type 0 where
  request_more close_stream ended : ControlMsg

pub record RowBatch : Type 0 where
  pub rows : List Row
  pub has_more : Bool

unfoldable pub new_graph_row : Row
new_graph_row = record { commit = none; lines = []; indent = 0 }

abbrev pub runes_in : ℕ → List Segment → ℕ
runes_in zero segments = zero
runes_in (suc n) [] = zero
runes_in (suc n) (s ∷ segments) = text_length s.text + runes_in n segments

-- A prefix that is not in the segment before the last one starts a row.
abbrev pub starts_row : GraphRowLine × Option (ℕ × Commit) → Option Row
starts_row (line, none) = none
starts_row (line, some (i, commit)) =
    if i + 1 == length line.segments
    then none
    else some (record new_graph_row { commit = some commit; indent = runes_in i line.segments })

-- A line with the row that it starts, if it does.
unfoldable pub read_line : List Segment → GraphRowLine × Option Row
read_line segments =
    let read = parse_row_prefixes (new_graph_row_line segments) in (read.0, starts_row read)

-- The row before, where it has a commit.
unfoldable pub kept_row : Row → List Row
kept_row row = elim row.commit [ none ↦ [] | some commit ↦ row ∷ [] ]

abbrev pub send_last : List ControlMsg → List Row → List RowBatch
send_last controls [] = []
send_last (request_more ∷ controls) (r ∷ rows) = record { rows = r ∷ rows; has_more = false } ∷ []
send_last _ (r ∷ rows) = []

-- A batch where more is asked for, and what comes after it.
abbrev pub on_request :
    List ControlMsg → List Row → (List ControlMsg → List RowBatch) → List RowBatch
on_request (request_more ∷ more) rows further =
    record { rows = rows; has_more = true } ∷ further more
on_request _ rows further = []

-- The loop over the lines, with the messages to come, the rows since the last batch, and the row.
unfoldable pub stream_from :
    ℕ → List ControlMsg → List Row → Row → List (List Segment) → List RowBatch
stream_from size controls rows row [] = send_last controls (rows ++ kept_row row)
stream_from size controls rows row (segments ∷ lines) =
    let (line, started) = read_line segments in
    elim started [
      | none ↦ stream_from size controls rows (add_line row line) lines
      | some next ↦ elim (ltb size (length rows)) [
        | false ↦ stream_from size controls (rows ++ kept_row row) (add_line next line) lines
        | true ↦
            on_request controls rows
              (λ more. stream_from size more (kept_row row) (add_line next line) lines)
      ]
    ]

unfoldable pub parse_rows_streaming : ℕ → List ControlMsg → List (List Segment) → List RowBatch
parse_rows_streaming size controls lines =
    stream_from size controls [] (record { commit = none; lines = []; indent = 0 }) lines

-- The loop that asks for batches: the rows up to the first batch that is the last, or to the end.
unfoldable pub collect : List RowBatch → List Row
collect [] = []
collect (b ∷ batches) = let rest = collect batches in b.rows ++ (if b.has_more then rest else [])

-- It asks for as many batches as there are, never more than lines and one.
unfoldable pub parse_rows : String → List Row
parse_rows output =
    let lines = break_new_lines (parse output) in
    collect (parse_rows_streaming 50 (replicate (length lines + 1) request_more) lines)
