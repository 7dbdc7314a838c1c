-- ===== src/Parser/Streaming/Batches.antt =====
-- The batches against the rows of the whole output (internal/parser/streaming_log_parser.go).
use mathlib.Core.List.{append-nil, append_assoc}
use jjui.Parser.{Row, add_line}
use jjui.Parser.Streaming.{
  ControlMsg, request_more, close_stream, ended, RowBatch, read_line, kept_row, send_last,
  stream_from, on_request, parse_rows_streaming, collect, parse_rows,
}
use jjui.Screen.{Segment, parse, break_new_lines}
use jjui.Prelude.{
  ℕ, zero, suc, ◌+◌, ◌≤◌, ◌<◌, String, ◌≡◌, refl, sym, ap, ◌∙◌, inl, inr, false, none, some, List,
  [], ◌∷◌, ◌++◌, arith, ltb, if◌then◌else◌, Bool-cases, Option-cases, length, replicate, All,
  length-append,
}

-- The rows in one go: a line with a prefix ends the row before it.
abbrev pub rows_from : Row → List (List Segment) → List Row
rows_from row [] = kept_row row
rows_from row (segments ∷ lines) =
    let (line, started) = read_line segments in
    elim started [
      | none ↦ rows_from (add_line row line) lines
      | some next ↦ kept_row row ++ rows_from (add_line next line) lines
    ]

abbrev pub no_row : Row
no_row = record { commit = none; lines = []; indent = 0 }

abbrev pub rows_of : List (List Segment) → List Row
rows_of lines = rows_from no_row lines

collect-send_last :
    (n : ℕ) (rows : List Row)
    → collect (send_last (request_more ∷ replicate n request_more) rows) ≡ rows
unfolding collect
collect-send_last n [] = refl
collect-send_last n (r ∷ rows) = ap (λ rest. r ∷ rest) (append-nil rows)

collect-stream_from :
    (size n : ℕ) (rows : List Row) (row : Row) (lines : List (List Segment))
    → length lines < n
    → collect (stream_from size (replicate n request_more) rows row lines)
      ≡ rows ++ rows_from row lines
unfolding stream_from collect
collect-stream_from size zero rows row lines e = absurd (omega arith)
collect-stream_from size (suc n) rows row [] e = collect-send_last n (rows ++ kept_row row)
collect-stream_from size (suc n) rows row (segments ∷ lines) e =
    elim (Option-cases (read_line segments).1) [
      | inl f ↦
          rw (stream_from, rows_from, f)
            (collect-stream_from size (suc n) rows (add_line row (read_line segments).0) lines
              (omega arith))
      | inr (next, f) ↦
          let after = add_line next (read_line segments).0 in
          rw (stream_from, rows_from, f)
            (elim (Bool-cases (ltb size (length rows))) [
              | inr g ↦ rw g (
                  collect-stream_from size (suc n) (rows ++ kept_row row) after lines (omega arith)
                  ∙ append_assoc rows (kept_row row) (rows_from after lines))
              | inl g ↦ rw g (
                  ap (λ rest. rows ++ rest)
                    (collect-stream_from size n (kept_row row) after lines (omega arith)))
            ])
    ]

-- Asking for one batch after the other gives every row of the output, in order and once, and comes to
-- an end: the rows are those that the lines of the output start, whatever the size of the batches.
pub parse_rows-rows_of :
    (output : String) → parse_rows output ≡ rows_of (break_new_lines (parse output))
unfolding parse_rows parse_rows_streaming
parse_rows-rows_of output =
    let lines = break_new_lines (parse output) in
    collect-stream_from 50 (length lines + 1) [] no_row lines (omega arith)

abbrev pub all_rows : List RowBatch → List Row
all_rows [] = []
all_rows (b ∷ batches) = b.rows ++ all_rows batches

-- A batch with more to come has one row more than the size, and the last one has a row.
abbrev pub IsSized : ℕ → RowBatch → Type 0
IsSized size b = if b.has_more then length b.rows ≡ size + 1 else 1 ≤ length b.rows

abbrev Partly : ℕ → List RowBatch → List Row → Type 0
Partly size batches rows =
    All (IsSized size) batches × ((rest : List Row) × (all_rows batches ++ rest ≡ rows))

Partly-send_last :
    (size : ℕ) (controls : List ControlMsg) (rows : List Row)
    → Partly size (send_last controls rows) rows
Partly-send_last size controls [] = (tt, ([], refl))
Partly-send_last size [] (r ∷ rows) = (tt, (r ∷ rows, refl))
Partly-send_last size (request_more ∷ controls) (r ∷ rows) =
    ((omega arith, tt), ([], append-nil ((r ∷ rows) ++ []) ∙ append-nil (r ∷ rows)))
Partly-send_last size (close_stream ∷ controls) (r ∷ rows) = (tt, (r ∷ rows, refl))
Partly-send_last size (ended ∷ controls) (r ∷ rows) = (tt, (r ∷ rows, refl))

length-kept_row : (row : Row) → length (kept_row row) ≤ 1
unfolding kept_row
length-kept_row row = elim (Option-cases row.commit) [
  | inl e ↦ rw e (omega arith)
  | inr (c, e) ↦ rw e (omega arith)
]

kept_row-fits : (size : ℕ) (row : Row) → length (kept_row row) ≤ size + 1
kept_row-fits size row = let one = length-kept_row row in omega arith

short-enough :
    (size : ℕ) (rows : List Row) (row : Row)
    → ltb size (length rows) ≡ false
    → length (rows ++ kept_row row) ≤ size + 1
short-enough size rows row g =
    let one = length-kept_row row in rw (length-append rows (kept_row row)) (ground (arith, g))

Partly-on_request :
    (size : ℕ) (controls : List ControlMsg) (rows : List Row)
    (further : List ControlMsg → List RowBatch) (left : List Row)
    → length rows ≡ size + 1
    → ((more : List ControlMsg) → Partly size (further more) left)
    → Partly size (on_request controls rows further) (rows ++ left)
Partly-on_request size [] rows further left e f = (tt, (rows ++ left, refl))
Partly-on_request size (close_stream ∷ more) rows further left e f = (tt, (rows ++ left, refl))
Partly-on_request size (ended ∷ more) rows further left e f = (tt, (rows ++ left, refl))
Partly-on_request size (request_more ∷ more) rows further left e f =
    let (sized, (rest, same)) = f more in
    (
      (e, sized),
      (rest, append_assoc rows (all_rows (further more)) rest ∙ ap (λ k. rows ++ k) same),
    )

Partly-stream_from :
    (size : ℕ) (controls : List ControlMsg) (rows : List Row) (row : Row)
    (lines : List (List Segment))
    → length rows ≤ size + 1
    → Partly size (stream_from size controls rows row lines) (rows ++ rows_from row lines)
unfolding stream_from
Partly-stream_from size controls rows row [] e =
    Partly-send_last size controls (rows ++ kept_row row)
Partly-stream_from size controls rows row (segments ∷ lines) e =
    elim (Option-cases (read_line segments).1) [
      | inl f ↦
          rw (stream_from, rows_from, f)
            (Partly-stream_from size controls rows (add_line row (read_line segments).0) lines e)
      | inr (next, f) ↦
          let after = add_line next (read_line segments).0 in
          rw (stream_from, rows_from, f)
            (elim (Bool-cases (ltb size (length rows))) [
              | inr g ↦
                  rw (g, sym (append_assoc rows (kept_row row) (rows_from after lines)))
                    (Partly-stream_from size controls (rows ++ kept_row row) after lines
                      (short-enough size rows row g))
              | inl g ↦
                  let one_more : length rows ≡ size + 1 = ground (arith, e, g) in
                  rw g (
                    Partly-on_request size controls rows
                      (λ more. stream_from size more (kept_row row) after lines)
                      (kept_row row ++ rows_from after lines) one_more
                      (λ more.
                        Partly-stream_from size more (kept_row row) after lines
                          (kept_row-fits size row)))
            ])
    ]

-- Whatever the messages, each batch with more to come has one row more than the size, the last one
-- has a row, and the batches together are the first rows of the output, in order.
pub parse_rows_streaming-Partly :
    (size : ℕ) (controls : List ControlMsg) (lines : List (List Segment))
    → All (IsSized size) (parse_rows_streaming size controls lines)
      × ((rest : List Row) × (all_rows (parse_rows_streaming size controls lines) ++ rest
            ≡ rows_of lines))
unfolding parse_rows_streaming
parse_rows_streaming-Partly size controls lines =
    Partly-stream_from size controls [] no_row lines (omega arith)
