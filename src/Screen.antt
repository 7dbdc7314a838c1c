-- ===== src/Screen.antt =====
-- The output of jj as segments of text (internal/screen/ansi_parser.go, internal/screen/segment.go). The
-- bytes of the output are the runes of a text: what the parser looks for is ASCII. A style is what
-- the parser sets of a lipgloss style.
pub mod Styles
pub mod Visible
pub mod Lines
mod Tests
use Prim.Native.Char.{Char, code}
use jjui.Screen.Styles.{Style, new_style, apply_params_to_style}
use mathlib.Core.Path.{subst, fun_ext}
use mathlib.Core.List.{reverse}
use mathlib.Core.Bool.{false≢true}
use jjui.Prelude.{
  ℕ, zero, suc, ◌+◌, ◌-◌, ◌*◌, ◌/◌, ◌%◌, ◌≤◌, ◌<◌, min, max, String, ◌≡◌, refl, sym, ap, ◌∙◌, ◌≢◌,
  ◌↔◌, ◌⊎◌, inl, inr, Bool, true, false, not, ◌&&◌, ◌||◌, Option, none, some, Memᴰ, List, [], ◌∷◌,
  ◌++◌, map, arith, str_eq, eq_iff, eq_refl, ltb, leb, ◌==◌, ==_iff, if◌then◌else◌, ltb→lt, lt→ltb,
  leb→le, tests, Bool-cases, Option-cases, length, get_elem?, take, drop, replicate, keep, any, All,
  length-append, length-replicate, All-append, All-keep, All-map, All-both, All-reverse,
  split_reverse, of-mem-keep, mem-keep,
}
use jjui.Prelude.Int.{
  ℤ, pos, negsuc, pos_part, neg_part, sub_ℕ, ◌+ℤ◌, ◌-ℤ◌, ◌≤ℤ◌, ◌<ℤ◌, ltb_ℤ, leb_ℤ, min_ℤ, max_ℤ,
  half_ℤ, +ℤ_parts, -ℤ_parts, eq_of_parts, min_ℤ_le, le-max_ℤ, int_laws,
}
use jjui.Prelude.Maps.{Map, lookup, insert, delete, lookup-insert, lookup-delete}
use jjui.Prelude.Texts.{
  trim_space, is_empty, is_space, join, join_onto, itoa, split_lines, onto_first,
}

pub record Segment : Type 0 where
  pub text : String
  pub style : Style
  pub lane : ℕ

abbrev pub styled : String → Style → Segment
styled text style = record { text = text; style = style; lane = 0 }

-- The text behind another one, and a rune at its end.
abbrev pub onto : String → String → String
onto String.[] t = t
onto (String.◌∷◌ c s) t = String.◌∷◌ c (onto s t)

abbrev pub snoc : String → Char → String
snoc s c = onto s (String.◌∷◌ c "")

-- Where the reader stands: in the text, or in the parameters of a sequence.
pub data Mode : Type 0 where
  reading : Mode
  in_sequence : String → Mode

abbrev pub flush : String → Style → List Segment
flush buffer style = if is_empty buffer then [] else styled buffer style ∷ []

abbrev pub style_after : String → Style → Style
style_after params style =
    if str_eq params "0" then new_style else apply_params_to_style style params

abbrev pub is_escape : Char → Bool
is_escape c = code c == 0x1b

-- The loop that reads bytes. The rune behind an escape that starts no sequence is text.
unfoldable pub parse_from : Mode → Style → (buffer raw : String) → List Segment
parse_from reading style buffer String.[] = flush buffer style
parse_from reading style buffer (String.◌∷◌ c String.[]) = flush (snoc buffer c) style
parse_from reading style buffer (String.◌∷◌ c (String.◌∷◌ d s)) = elim (is_escape c) [
  | false ↦ parse_from reading style (snoc buffer c) (String.◌∷◌ d s)
  | true ↦ elim (code d == b'[') [
    | true ↦ flush buffer style ++ parse_from (in_sequence "") style "" s
    | false ↦ parse_from reading style (snoc (snoc buffer c) d) s
  ]
]
parse_from (in_sequence params) style buffer String.[] = flush buffer (style_after params style)
parse_from (in_sequence params) style buffer (String.◌∷◌ c s) = elim (code c == b'm') [
  | true ↦ parse_from reading (style_after params style) buffer s
  | false ↦ parse_from (in_sequence (snoc params c)) style buffer s
]

unfoldable pub parse : String → List Segment
parse raw = parse_from reading new_style "" raw

abbrev pub unless_empty : List Segment → List (List Segment)
unless_empty [] = []
unless_empty (s ∷ line) = (s ∷ line) ∷ []

abbrev pub if_text : Segment → List Segment
if_text s = if is_empty s.text then [] else s ∷ []

-- The pieces of a segment between line ends: the lines that they end, and the line that goes on. A
-- piece before a line end is a new segment; the last one is the rest of the segment itself.
unfoldable pub break_pieces :
    Segment → List Segment → List String → List (List Segment) × List Segment
break_pieces s current [] = ([], current)
break_pieces s current (t ∷ []) = ([], current ++ if_text (record s { text = t }))
break_pieces s current (t ∷ u ∷ ts) =
    let (lines, last) = break_pieces s [] (u ∷ ts) in
    ((current ++ if_text (styled t s.style)) ∷ lines, last)

unfoldable pub break_from : List Segment → List Segment → List (List Segment) × List Segment
break_from current [] = ([], current)
break_from current (s ∷ raw) =
    let (lines, last) = break_pieces s current (split_lines s.text) in
    let (further, end) = break_from last raw in (lines ++ further, end)

unfoldable pub break_new_lines : List Segment → List (List Segment)
break_new_lines raw = let (lines, last) = break_from [] raw in lines ++ unless_empty last
