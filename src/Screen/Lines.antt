-- ===== src/Screen/Lines.antt =====
-- The lines of the output (`BreakNewLinesIter` of internal/screen/segment.go).
use Prim.Native.Char.{Char, code}
use text.Mathlib.TextEquality.{Char-path}
use jjui.Screen.{
  Segment, styled, onto, unless_empty, if_text, break_pieces, break_from, break_new_lines,
}
use jjui.Screen.Visible.{text_of, onto-nil, onto_assoc, text_of-append}
use jjui.Prelude.{
  String, ◌≡◌, refl, sym, ap, ◌∙◌, inl, inr, Bool, true, false, ◌||◌, List, [], ◌∷◌, ◌++◌, arith,
  eq_iff, ◌==◌, ==_iff, Bool-cases, All, All-append,
}
use jjui.Prelude.Texts.{is_empty, split_lines, onto_first}

-- A line end behind a text.
abbrev pub line_end : String
line_end = "\n"

-- The lines with their ends.
abbrev pub closed : List (List Segment) → String
closed [] = String.[]
closed (line ∷ lines) = onto (text_of line) (onto line_end (closed lines))

abbrev pub has_line_end : String → Bool
has_line_end String.[] = false
has_line_end (String.◌∷◌ c s) = code c == 10 || has_line_end s

-- A segment with a text, which has no line end.
abbrev pub IsClean : Segment → Type 0
IsClean s = (is_empty s.text ≡ false) × (has_line_end s.text ≡ false)

abbrev pub joined : List String → String
joined [] = String.[]
joined (t ∷ []) = t
joined (t ∷ u ∷ ts) = onto t (onto line_end (joined (u ∷ ts)))

joined-onto_first :
    (c : Char) (ts : List String) → joined (onto_first c ts) ≡ String.◌∷◌ c (joined ts)
joined-onto_first c [] = refl
joined-onto_first c (t ∷ []) = refl
joined-onto_first c (t ∷ u ∷ ts) = refl

abbrev is_nil : List String → Bool
is_nil [] = true
is_nil (t ∷ ts) = false

is_nil-onto_first : (c : Char) (ts : List String) → is_nil (onto_first c ts) ≡ false
is_nil-onto_first c [] = refl
is_nil-onto_first c (t ∷ ts) = refl

split_lines-cons : (s : String) → is_nil (split_lines s) ≡ false
unfolding split_lines
split_lines-cons String.[] = refl
split_lines-cons (String.◌∷◌ c s) = elim (Bool-cases (code c == 10)) [
  | inl e ↦ rw e refl
  | inr e ↦ rw e (is_nil-onto_first c (split_lines s))
]

joined-empty :
    (c : Char) (ts : List String)
    → code c ≡ 10
    → is_nil ts ≡ false
    → joined ("" ∷ ts) ≡ String.◌∷◌ c (joined ts)
joined-empty c [] e n = absurd (ground arith)
joined-empty c (t ∷ ts) e n = ap (λ k. String.◌∷◌ k (joined (t ∷ ts))) (Char-path "\n" c (sym e))

joined-split_lines : (s : String) → joined (split_lines s) ≡ s
unfolding split_lines
joined-split_lines String.[] = refl
joined-split_lines (String.◌∷◌ c s) = elim (Bool-cases (code c == 10)) [
  | inl e ↦ rw e (
      joined-empty c (split_lines s) ((==_iff (code c) 10).0 e) (split_lines-cons s)
      ∙ ap (String.◌∷◌ c) (joined-split_lines s))
  | inr e ↦ rw e (joined-onto_first c (split_lines s) ∙ ap (String.◌∷◌ c) (joined-split_lines s))
]

IsClean-onto_first :
    (c : Char) (ts : List String)
    → (code c == 10) ≡ false
    → All (λ t. has_line_end t ≡ false) ts
    → All (λ t. has_line_end t ≡ false) (onto_first c ts)
IsClean-onto_first c [] e h = (rw e refl, tt)
IsClean-onto_first c (t ∷ ts) e h = (rw e h.0, h.1)

has_line_end-split_lines : (s : String) → All (λ t. has_line_end t ≡ false) (split_lines s)
unfolding split_lines
has_line_end-split_lines String.[] = (refl, tt)
has_line_end-split_lines (String.◌∷◌ c s) = elim (Bool-cases (code c == 10)) [
  | inl e ↦ rw e (refl, has_line_end-split_lines s)
  | inr e ↦ rw e (IsClean-onto_first c (split_lines s) e (has_line_end-split_lines s))
]

closed-append : (a b : List (List Segment)) → closed (a ++ b) ≡ onto (closed a) (closed b)
closed-append [] b = refl
closed-append (line ∷ a) b =
    ap (λ t. onto (text_of line) (onto line_end t)) (closed-append a b)
    ∙ sym (onto_assoc (text_of line) (onto line_end (closed a)) (closed b))

text_of-if_text : (s : Segment) → text_of (if_text s) ≡ s.text
text_of-if_text s = elim (Bool-cases (is_empty s.text)) [
  | inl e ↦ rw e (sym ((eq_iff s.text "").0 e))
  | inr e ↦ rw e (onto-nil s.text)
]

text_of-add :
    (current : List Segment) (s : Segment)
    → text_of (current ++ if_text s) ≡ onto (text_of current) s.text
text_of-add current s =
    text_of-append current (if_text s) ∙ ap (onto (text_of current)) (text_of-if_text s)

-- The lines with the segments of the last one.
abbrev Broken : List (List Segment) × List Segment → String → Type 0
Broken r t = (onto (closed r.0) (text_of r.1) ≡ t) × All (All IsClean) r.0 × All IsClean r.1

IsClean-if_text : (s : Segment) → has_line_end s.text ≡ false → All IsClean (if_text s)
IsClean-if_text s h = elim (Bool-cases (is_empty s.text)) [
  | inl e ↦ rw e tt
  | inr e ↦ rw e ((e, h), tt)
]

Broken-break_pieces :
    (s : Segment) (current : List Segment) (ts : List String)
    → is_nil ts ≡ false
    → All IsClean current
    → All (λ t. has_line_end t ≡ false) ts
    → Broken (break_pieces s current ts) (onto (text_of current) (joined ts))
unfolding break_pieces
Broken-break_pieces s current [] n c h = absurd (ground arith)
Broken-break_pieces s current (t ∷ []) n c h = (
  text_of-add current (record s { text = t }),
  tt,
  All-append IsClean current (if_text (record s { text = t })) c
      (IsClean-if_text (record s { text = t }) h.0),
)
Broken-break_pieces s current (t ∷ u ∷ ts) n c h =
    let (same, lines, last) = Broken-break_pieces s [] (u ∷ ts) refl tt h.1 in
    let r = break_pieces s [] (u ∷ ts) in
    (
      onto_assoc (text_of (current ++ if_text (styled t s.style))) (onto line_end (closed r.0))
            (text_of r.1)
          ∙ ap (λ k. onto k (onto line_end (onto (closed r.0) (text_of r.1))))
              (text_of-add current (styled t s.style))
          ∙ ap (λ k. onto (onto (text_of current) t) (onto line_end k)) same
          ∙ onto_assoc (text_of current) t (onto line_end (joined (u ∷ ts))),
      (
        All-append IsClean current (if_text (styled t s.style)) c
            (IsClean-if_text (styled t s.style) h.0),
        lines,
      ),
      last,
    )

Broken-break_from :
    (current raw : List Segment)
    → All IsClean current
    → Broken (break_from current raw) (onto (text_of current) (text_of raw))
unfolding break_from
Broken-break_from current [] c = (sym (onto-nil (text_of current)), tt, c)
Broken-break_from current (s ∷ raw) c =
    let (same, lines, last) =
      Broken-break_pieces s current (split_lines s.text) (split_lines-cons s.text) c
        (has_line_end-split_lines s.text) in
    let p = break_pieces s current (split_lines s.text) in
    let (same', lines', last') = Broken-break_from p.1 raw last in
    let r = break_from p.1 raw in
    (
      ap (λ k. onto k (text_of r.1)) (closed-append p.0 r.0)
          ∙ onto_assoc (closed p.0) (closed r.0) (text_of r.1)
          ∙ ap (onto (closed p.0)) same'
          ∙ sym (onto_assoc (closed p.0) (text_of p.1) (text_of raw))
          ∙ ap (λ k. onto k (text_of raw))
              (same ∙ ap (onto (text_of current)) (joined-split_lines s.text))
          ∙ onto_assoc (text_of current) s.text (text_of raw),
      All-append (All IsClean) p.0 r.0 lines lines',
      last',
    )

-- The lines with their ends, and a last line without one if there is a text behind the last end, are
-- the text of the segments; and each segment of a line has a text, without a line end.
pub break_new_lines-closed :
    (raw : List Segment)
    → (lines : List (List Segment)) × (last : List Segment) × (break_new_lines raw
        ≡ lines ++ unless_empty last)
      × (onto (closed lines) (text_of last) ≡ text_of raw)
      × (All (All IsClean) lines × All IsClean last)
unfolding break_new_lines
break_new_lines-closed raw =
    let (same, lines, last) = Broken-break_from [] raw tt in
    ((break_from [] raw).0, (break_from [] raw).1, refl, same, (lines, last))
