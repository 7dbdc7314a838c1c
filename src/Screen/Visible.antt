-- ===== src/Screen/Visible.antt =====
-- What is left of the output of jj (`ParseFromReader` of internal/screen/ansi_parser.go).
use Prim.Native.Char.{Char, code}
use jjui.Screen.{
  Segment, onto, snoc, Mode, reading, in_sequence, flush, style_after, is_escape, parse_from, parse,
}
use jjui.Screen.Styles.{Style, new_style}
use mathlib.Core.Path.{subst}
use jjui.Prelude.{
  String, ◌≡◌, refl, sym, ap, ◌∙◌, inl, inr, Bool, true, false, List, [], ◌∷◌, ◌++◌, eq_iff, ◌==◌,
  Bool-cases,
}
use jjui.Prelude.Texts.{is_empty}

-- The output with its text outside of sequences; `true` is inside the parameters of a sequence. A sequence
-- is an escape, a bracket, and what follows up to the first m, or to the end.
pub data Shows : Bool → String → String → Type 0 where
  at_end : Shows false String.[] String.[]
  last_rune : (c : Char) → Shows false (String.◌∷◌ c String.[]) (String.◌∷◌ c String.[])
  rune :
      {s v : String} (c : Char)
      → is_escape c ≡ false
      → Shows false s v
      → Shows false (String.◌∷◌ c s) (String.◌∷◌ c v)
  pair :
      {s v : String} (c d : Char)
      → is_escape c ≡ true
      → (code d == b'[') ≡ false
      → Shows false s v
      → Shows false (String.◌∷◌ c (String.◌∷◌ d s)) (String.◌∷◌ c (String.◌∷◌ d v))
  sequence :
      {s v : String} (c d : Char)
      → is_escape c ≡ true
      → (code d == b'[') ≡ true
      → Shows true s v
      → Shows false (String.◌∷◌ c (String.◌∷◌ d s)) v
  cut_off : Shows true String.[] String.[]
  closing :
      {s v : String} (c : Char)
      → (code c == b'm') ≡ true
      → Shows false s v
      → Shows true (String.◌∷◌ c s) v
  parameter :
      {s v : String} (c : Char)
      → (code c == b'm') ≡ false
      → Shows true s v
      → Shows true (String.◌∷◌ c s) v

abbrev pub text_of : List Segment → String
text_of [] = String.[]
text_of (s ∷ segments) = onto s.text (text_of segments)

pub onto-nil : (s : String) → onto s String.[] ≡ s
onto-nil String.[] = refl
onto-nil (String.◌∷◌ c s) = ap (String.◌∷◌ c) (onto-nil s)

pub onto_assoc : (s t u : String) → onto (onto s t) u ≡ onto s (onto t u)
onto_assoc String.[] t u = refl
onto_assoc (String.◌∷◌ c s) t u = ap (String.◌∷◌ c) (onto_assoc s t u)

pub text_of-append : (a b : List Segment) → text_of (a ++ b) ≡ onto (text_of a) (text_of b)
text_of-append [] b = refl
text_of-append (s ∷ a) b =
    ap (onto s.text) (text_of-append a b) ∙ sym (onto_assoc s.text (text_of a) (text_of b))

text_of-flush : (buffer : String) (style : Style) → text_of (flush buffer style) ≡ buffer
text_of-flush buffer style = elim (Bool-cases (is_empty buffer)) [
  | inl e ↦ rw e (sym ((eq_iff buffer "").0 e))
  | inr e ↦ rw e (onto-nil buffer)
]

abbrev inside : Mode → Bool
inside reading = false
inside (in_sequence params) = true

-- The buffer and then what the rest shows.
abbrev Found : Mode → Style → (buffer raw : String) → Type 0
Found mode style buffer raw =
    (v : String) × Shows (inside mode) raw v
    × (text_of (parse_from mode style buffer raw) ≡ onto buffer v)

Found-parse_from : (mode : Mode) (style : Style) (buffer raw : String) → Found mode style buffer raw
unfolding parse_from
Found-parse_from reading style buffer String.[] =
    (String.[], at_end, text_of-flush buffer style ∙ sym (onto-nil buffer))
Found-parse_from reading style buffer (String.◌∷◌ c String.[]) =
    (String.◌∷◌ c String.[], last_rune c, text_of-flush (snoc buffer c) style)
Found-parse_from reading style buffer (String.◌∷◌ c (String.◌∷◌ d s)) =
    elim (Bool-cases (is_escape c)) [
      | inr e ↦
          let (v, shows, same) = Found-parse_from reading style (snoc buffer c) (String.◌∷◌ d s) in
          (
            String.◌∷◌ c v,
            rune c e shows,
            rw (parse_from, e) (same ∙ onto_assoc buffer (String.◌∷◌ c "") v),
          )
      | inl e ↦ elim (Bool-cases (code d == b'[')) [
        | inl f ↦
            let (v, shows, same) = Found-parse_from (in_sequence "") style "" s in
            (
              v,
              sequence c d e f shows,
              rw (parse_from, e, f)
                  (text_of-append (flush buffer style) (parse_from (in_sequence "") style "" s)
                    ∙ ap (λ t. onto t (text_of (parse_from (in_sequence "") style "" s)))
                        (text_of-flush buffer style)
                    ∙ ap (onto buffer) same),
            )
        | inr f ↦
            let (v, shows, same) = Found-parse_from reading style (snoc (snoc buffer c) d) s in
            (
              String.◌∷◌ c (String.◌∷◌ d v),
              pair c d e f shows,
              rw (parse_from, e, f)
                  (same
                    ∙ onto_assoc (snoc buffer c) (String.◌∷◌ d "") v
                    ∙ onto_assoc buffer (String.◌∷◌ c "") (String.◌∷◌ d v)),
            )
      ]
    ]
Found-parse_from (in_sequence params) style buffer String.[] =
    (String.[], cut_off, text_of-flush buffer (style_after params style) ∙ sym (onto-nil buffer))
Found-parse_from (in_sequence params) style buffer (String.◌∷◌ c s) =
    elim (Bool-cases (code c == b'm')) [
      | inl e ↦
          let (v, shows, same) = Found-parse_from reading (style_after params style) buffer s in
          (v, closing c e shows, rw (parse_from, e) same)
      | inr e ↦
          let (v, shows, same) = Found-parse_from (in_sequence (snoc params c)) style buffer s in
          (v, parameter c e shows, rw (parse_from, e) same)
    ]

-- The segments have, one after the other, the text of the output outside of what the parser takes
-- for a sequence, which is an escape, a bracket, and what follows up to the first m or to the end:
-- exactly these are lost, and nothing is added.
pub parse-Shows : (raw : String) → Shows false raw (text_of (parse raw))
unfolding parse
parse-Shows raw =
    let (v, shows, same) = Found-parse_from reading new_style "" raw in
    subst (Shows false raw) (sym same) shows
