-- ===== src/Parser/Chop.antt =====
-- What chopping a line keeps (internal/parser/row_line.go: chop).
use jjui.Screen.{Segment, styled}
use jjui.Screen.Styles.{Style}
use jjui.Parser.{
  split_runes, is_nil, cut_from, runes_of, per_rune, last_style, padded, chop, new_graph_row_line,
}
use Prim.Native.Char.{Char}
use mathlib.Core.Bool.{false≢true}
use mathlib.Core.Option.{none-ne-some}
use jjui.Prelude.{
  ℕ, zero, suc, String, ◌≡◌, refl, sym, ap, ◌∙◌, inl, inr, true, false, List, [], ◌∷◌, ◌++◌, eq_iff,
  Bool-cases, Bool, none, some, if◌then◌else◌, Option-cases, replicate,
}
use jjui.Prelude.Texts.{is_empty}
use jjui.Parser.Splitting.{onto, onto-nil, split_runes-nil}
use jjui.Parser.Cutting.{text_of, text_of-append, Kept, Cut, cut_from-Cut}

text_of-runes_of :
    (s : String) (style : Style) (segments : List Segment)
    → text_of (runes_of s style ++ segments) ≡ onto s (text_of segments)
text_of-runes_of String.[] style segments = refl
text_of-runes_of (String.◌∷◌ c s) style segments =
    ap (String.◌∷◌ c) (text_of-runes_of s style segments)

text_of-per_rune : (segments : List Segment) → text_of (per_rune segments) ≡ text_of segments
unfolding per_rune
text_of-per_rune [] = refl
text_of-per_rune (s ∷ segments) =
    text_of-runes_of s.text s.style (per_rune segments)
    ∙ ap (onto s.text) (text_of-per_rune segments)

abbrev pub blanks : ℕ → String
blanks zero = ""
blanks (suc n) = onto " " (blanks n)

text_of-blanks : (n : ℕ) (style : Style) → text_of (replicate n (styled " " style)) ≡ blanks n
text_of-blanks zero style = refl
text_of-blanks (suc n) style = ap (onto " ") (text_of-blanks n style)

abbrev has_head : String → Bool
has_head String.[] = false
has_head (String.◌∷◌ c s) = true

is_empty-rune : (c : Char) (s : String) → is_empty (String.◌∷◌ c s) ≡ false
is_empty-rune c s = elim (Bool-cases (is_empty (String.◌∷◌ c s))) [
  | inl e ↦ absurd (false≢true (sym (ap has_head ((eq_iff (String.◌∷◌ c s) "").0 e))))
  | inr e ↦ e
]

is_nil-runes_of :
    (s : String) (style : Style) (segments : List Segment)
    → is_empty (text_of segments) ≡ is_nil segments
    → is_empty (text_of (runes_of s style ++ segments)) ≡ is_nil (runes_of s style ++ segments)
is_nil-runes_of String.[] style segments e = e
is_nil-runes_of (String.◌∷◌ c s) style segments e =
    is_empty-rune c (text_of (runes_of s style ++ segments))

-- Each rune has a segment.
is_nil-per_rune :
    (segments : List Segment) → is_empty (text_of (per_rune segments)) ≡ is_nil (per_rune segments)
unfolding per_rune
is_nil-per_rune [] = refl
is_nil-per_rune (s ∷ segments) =
    is_nil-runes_of s.text s.style (per_rune segments) (is_nil-per_rune segments)

last_style-none : (segments : List Segment) → last_style segments ≡ none → is_nil segments ≡ true
last_style-none [] e = refl
last_style-none (s ∷ []) e = absurd (none-ne-some s.style (sym e))
last_style-none (s ∷ t ∷ segments) e = absurd (false≢true (last_style-none (t ∷ segments) e))

last_style-some :
    (segments : List Segment) (style : Style)
    → last_style segments ≡ some style
    → is_nil segments ≡ false
last_style-some [] style e = absurd (none-ne-some style e)
last_style-some (s ∷ segments) style e = refl

-- The blanks after a text: none where there is no text.
abbrev pub padding : String → ℕ → String
padding taken n = if is_empty taken then "" else blanks n

text_of-padded :
    (n : ℕ) (gutter : List Segment)
    → is_empty (text_of gutter) ≡ is_nil gutter
    → text_of (padded n gutter) ≡ onto (text_of gutter) (padding (text_of gutter) n)
unfolding padded
text_of-padded n gutter h = elim (Option-cases (last_style gutter)) [
  | inl e ↦ rw (padded, e) (rw (h ∙ last_style-none gutter e) (sym (onto-nil (text_of gutter))))
  | inr (style, e) ↦
      rw (padded, e)
        (rw (h ∙ last_style-some gutter style e) (
          text_of-append gutter (replicate n (styled " " style))
          ∙ ap (onto (text_of gutter)) (text_of-blanks n style)))
]

-- Chopping a new line splits its text after as many runes as the indent. The gutter is the text
-- before that place, followed by a blank for each rune that a non-empty one is short of; and the
-- segments keep the text after it, except the rest of a segment in which the indent ends before
-- other segments.
pub chop-Kept :
    (indent : ℕ) (segments : List Segment)
    → (text_of (chop indent (new_graph_row_line segments)).gutter
        ≡ onto (split_runes indent (text_of segments)).0 (
            padding
              (split_runes indent (text_of segments)).0
              (split_runes indent (text_of segments)).2))
      × Kept segments
          (chop indent (new_graph_row_line segments)).segments
          (split_runes indent (text_of segments)).0
unfolding Cut chop new_graph_row_line
chop-Kept indent [] = rw (split_runes-nil indent) (refl, Kept.all refl)
chop-Kept indent (s ∷ segments) =
    let (e, left, kept) = cut_from-Cut [] (s ∷ segments) indent in
    let cut = cut_from [] [] indent (s ∷ segments) in
    let taken = (split_runes indent (text_of (s ∷ segments))).0 in
    let f = text_of-padded cut.2 (per_rune cut.0) (is_nil-per_rune cut.0) in
    (
      f
          ∙ ap (λ t. onto t (padding t cut.2)) (text_of-per_rune cut.0 ∙ e)
          ∙ ap (λ k. onto taken (padding taken k)) left,
      kept,
    )
