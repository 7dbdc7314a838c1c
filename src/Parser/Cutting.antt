-- ===== src/Parser/Cutting.antt =====
-- The first loop of chop (internal/parser/row_line.go): the gutter that it cuts off a line, and what
-- it keeps.
use jjui.Screen.{Segment, styled}
use jjui.Screen.Styles.{Style}
use jjui.Parser.{split_runes, is_nil, remainder, cut_from}
use mathlib.Core.Path.{subst}
use jjui.Prelude.{
  ℕ, String, ◌≡◌, refl, sym, ap, ◌∙◌, inl, inr, true, false, List, [], ◌∷◌, ◌++◌, eq_iff, ◌==◌,
  Bool-cases,
}
use jjui.Prelude.Texts.{is_empty}
use jjui.Parser.Splitting.{
  onto, onto-nil, onto_assoc, split_runes-onto, split_runes-spent, onto-empty, split_runes-all,
  split_runes-text, split_runes-left, split_runes-nil, split_runes-zero,
}

abbrev pub text_of : List Segment → String
text_of [] = String.[]
text_of (s ∷ segments) = onto s.text (text_of segments)

pub text_of-append : (xs ys : List Segment) → text_of (xs ++ ys) ≡ onto (text_of xs) (text_of ys)
text_of-append [] ys = refl
text_of-append (x ∷ xs) ys =
    ap (onto x.text) (text_of-append xs ys) ∙ sym (onto_assoc x.text (text_of xs) (text_of ys))

-- What is left of the segments of a line when some text is taken: all of the rest, or, where the
-- text ends inside a segment with others after it, only those others.
pub data Kept (whole kept : List Segment) (taken : String) : Type 0 where
  all : onto taken (text_of kept) ≡ text_of whole → Kept whole kept taken
  all_but :
      (before : List Segment) (s : Segment) (front lost : String)
      → whole ≡ before ++ s ∷ kept
      → s.text ≡ onto front lost
      → is_empty lost ≡ false
      → is_nil kept ≡ false
      → taken ≡ onto (text_of before) front
      → Kept whole kept taken

text_of-remainder : (back : String) (style : Style) → text_of (remainder back style) ≡ back
text_of-remainder back style = elim (Bool-cases (is_empty back)) [
  | inl e ↦ rw e (sym ((eq_iff back "").0 e))
  | inr e ↦ rw e (onto-nil back)
]

text_of-add :
    (gutter : List Segment) (front : String) (style : Style)
    → text_of (gutter ++ styled front style ∷ []) ≡ onto (text_of gutter) front
text_of-add gutter front style =
    text_of-append gutter (styled front style ∷ []) ∙ ap (onto (text_of gutter)) (onto-nil front)

Kept-stop :
    (n : ℕ) (s : Segment) (rest : List Segment)
    → is_nil rest ≡ false
    → Kept (s ∷ rest) rest (split_runes n s.text).0
Kept-stop n s rest e = elim (Bool-cases (is_empty (split_runes n s.text).1)) [
  | inl f ↦ Kept.all (
      ap (λ t. onto t (text_of rest))
        (sym (onto-empty (split_runes n s.text).0 (split_runes n s.text).1 f)
          ∙ split_runes-onto n s.text))
  | inr f ↦
      Kept.all_but [] s (split_runes n s.text).0 (split_runes n s.text).1 refl
        (sym (split_runes-onto n s.text)) f e refl
]

Kept-further :
    (front : String) (s : Segment) (rest kept : List Segment) (taken : String)
    → front ≡ s.text
    → Kept rest kept taken
    → Kept (s ∷ rest) kept (onto front taken)
Kept-further front s rest kept taken e (Kept.all f) =
    Kept.all (
      onto_assoc front taken (text_of kept) ∙ ap (onto front) f ∙ ap (λ t. onto t (text_of rest)) e)
Kept-further front s rest kept taken e (Kept.all_but before t before_t lost w x y z f) =
    Kept.all_but (s ∷ before) t before_t lost (ap (λ l. s ∷ l) w) x y z (
      ap (onto front) f
      ∙ sym (onto_assoc front (text_of before) before_t)
      ∙ ap (λ u. onto (onto u (text_of before)) before_t) e)

-- What a line is cut into: the gutter grows by the first runes of the text, the indent that is left
-- is that of the text, and no text is lost but the rest of a segment in which the indent ends.
unfoldable pub Cut : (gutter segments : List Segment) → ℕ → List Segment × List Segment × ℕ → Type 0
Cut gutter segments n cut =
    (text_of cut.0 ≡ onto (text_of gutter) (split_runes n (text_of segments)).0)
    × (cut.2 ≡ (split_runes n (text_of segments)).2)
    × Kept segments cut.1 (split_runes n (text_of segments)).0

-- The last segment, whose remainder is kept.
Cut-last :
    (gutter : List Segment) (s : Segment) (n : ℕ)
    → Cut gutter (s ∷ []) n (
      gutter ++ styled (split_runes n s.text).0 s.style ∷ [],
      remainder (split_runes n s.text).1 s.style,
      (split_runes n s.text).2,
    )
unfolding Cut
Cut-last gutter s n = rw (onto-nil s.text) (
  text_of-add gutter (split_runes n s.text).0 s.style,
  refl,
  Kept.all (
      ap (onto (split_runes n s.text).0) (text_of-remainder (split_runes n s.text).1 s.style)
      ∙ split_runes-onto n s.text
      ∙ sym (onto-nil s.text)),
)

-- The indent ends in a segment before others.
Cut-stop :
    (gutter : List Segment) (s : Segment) (rest : List Segment) (n : ℕ)
    → ((split_runes n s.text).2 == 0) ≡ true
    → is_nil rest ≡ false
    → Cut gutter
        (s ∷ rest)
        n
        (gutter ++ styled (split_runes n s.text).0 s.style ∷ [], rest, (split_runes n s.text).2)
unfolding Cut
Cut-stop gutter s rest n e h =
    let front = (split_runes n s.text).0 in
    let spent = split_runes-zero (split_runes n s.text).2 (text_of rest) e in
    let taken =
      split_runes-text n s.text (text_of rest) ∙ ap (λ p. onto front p.0) spent ∙ onto-nil front in
    (
      text_of-add gutter front s.style ∙ ap (onto (text_of gutter)) (sym taken),
      sym (split_runes-left n s.text (text_of rest) ∙ ap (λ p. p.2) spent),
      subst (Kept (s ∷ rest) rest) (sym taken) (Kept-stop n s rest h),
    )

-- The indent goes on into the other segments.
Cut-further :
    (gutter : List Segment) (s : Segment) (rest : List Segment) (n : ℕ)
    (cut : List Segment × List Segment × ℕ)
    → ((split_runes n s.text).2 == 0) ≡ false
    → Cut (gutter ++ styled (split_runes n s.text).0 s.style ∷ []) rest (split_runes n s.text).2 cut
    → Cut gutter (s ∷ rest) n cut
unfolding Cut
Cut-further gutter s rest n cut e (f, left, kept) =
    let front = (split_runes n s.text).0 in
    let taken = (split_runes (split_runes n s.text).2 (text_of rest)).0 in
    let whole = split_runes-text n s.text (text_of rest) in
    (
      f
          ∙ ap (λ u. onto u taken) (text_of-add gutter front s.style)
          ∙ onto_assoc (text_of gutter) front taken
          ∙ ap (onto (text_of gutter)) (sym whole),
      left ∙ sym (split_runes-left n s.text (text_of rest)),
      subst (Kept (s ∷ rest) cut.1) (sym whole)
          (Kept-further front s rest cut.1 taken (split_runes-all n s.text e) kept),
    )

pub cut_from-Cut :
    (gutter segments : List Segment) (n : ℕ) → Cut gutter segments n (cut_from gutter [] n segments)
unfolding Cut cut_from
cut_from-Cut gutter [] n =
    rw (split_runes-nil n) (sym (onto-nil (text_of gutter)), refl, Kept.all refl)
cut_from-Cut gutter (s ∷ []) n = elim (Bool-cases ((split_runes n s.text).2 == 0)) [
  | inl e ↦ rw e (Cut-last gutter s n)
  | inr e ↦ rw e (Cut-last gutter s n)
]
cut_from-Cut gutter (s ∷ t ∷ rest) n = elim (Bool-cases ((split_runes n s.text).2 == 0)) [
  | inl e ↦ rw e (Cut-stop gutter s (t ∷ rest) n e refl)
  | inr e ↦ rw e (
      rw (split_runes-spent n s.text e) (
        Cut-further gutter s (t ∷ rest) n
          (cut_from (gutter ++ styled (split_runes n s.text).0 s.style ∷ []) []
            (split_runes n s.text).2 (t ∷ rest))
          e
          (cut_from-Cut (gutter ++ styled (split_runes n s.text).0 s.style ∷ []) (t ∷ rest)
            (split_runes n s.text).2)))
]
