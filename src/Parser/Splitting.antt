-- ===== src/Parser/Splitting.antt =====
-- The inner loop of chop (internal/parser/row_line.go), which splits a text after as many runes as
-- the indent that is left.
use jjui.Parser.{split_runes}
use mathlib.Core.Path.{subst}
use mathlib.Core.Bool.{false≢true}
use jjui.Prelude.{ℕ, zero, suc, String, ◌≡◌, refl, sym, ap, ◌∙◌, true, false, eq_iff, ◌==◌, arith}
use jjui.Prelude.Texts.{is_empty}

-- Concatenation that computes on its first text.
abbrev pub onto : String → String → String
onto String.[] t = t
onto (String.◌∷◌ c s) t = String.◌∷◌ c (onto s t)

pub onto-nil : (s : String) → onto s "" ≡ s
onto-nil String.[] = refl
onto-nil (String.◌∷◌ c s) = ap (String.◌∷◌ c) (onto-nil s)

pub onto_assoc : (a b c : String) → onto (onto a b) c ≡ onto a (onto b c)
onto_assoc String.[] b c = refl
onto_assoc (String.◌∷◌ x a) b c = ap (String.◌∷◌ x) (onto_assoc a b c)

pub split_runes-onto : (n : ℕ) (s : String) → onto (split_runes n s).0 (split_runes n s).1 ≡ s
unfolding split_runes
split_runes-onto zero s = refl
split_runes-onto (suc n) String.[] = refl
split_runes-onto (suc n) (String.◌∷◌ c s) = ap (String.◌∷◌ c) (split_runes-onto n s)

-- The indent is only left over where nothing of the text is.
pub split_runes-spent :
    (n : ℕ) (s : String) → ((split_runes n s).2 == 0) ≡ false → is_empty (split_runes n s).1 ≡ true
unfolding split_runes
split_runes-spent zero s e = absurd (false≢true (sym e))
split_runes-spent (suc n) String.[] e = refl
split_runes-spent (suc n) (String.◌∷◌ c s) e = split_runes-spent n s e

pub onto-empty : (s t : String) → is_empty t ≡ true → onto s t ≡ s
onto-empty s t e = subst (λ u. onto s u ≡ s) (sym ((eq_iff t "").0 e)) (onto-nil s)

pub split_runes-all :
    (n : ℕ) (s : String) → ((split_runes n s).2 == 0) ≡ false → (split_runes n s).0 ≡ s
split_runes-all n s e =
    sym (onto-empty (split_runes n s).0 (split_runes n s).1 (split_runes-spent n s e))
    ∙ split_runes-onto n s

-- Two texts are split one after the other.
pub split_runes-text :
    (n : ℕ) (s t : String)
    → (split_runes n (onto s t)).0 ≡ onto (split_runes n s).0 (split_runes (split_runes n s).2 t).0
unfolding split_runes
split_runes-text zero s t = refl
split_runes-text (suc n) String.[] t = refl
split_runes-text (suc n) (String.◌∷◌ c s) t = ap (String.◌∷◌ c) (split_runes-text n s t)

pub split_runes-left :
    (n : ℕ) (s t : String) → (split_runes n (onto s t)).2 ≡ (split_runes (split_runes n s).2 t).2
unfolding split_runes
split_runes-left zero s t = refl
split_runes-left (suc n) String.[] t = refl
split_runes-left (suc n) (String.◌∷◌ c s) t = split_runes-left n s t

pub split_runes-nil : (n : ℕ) → split_runes n "" ≡ ("", "", n)
unfolding split_runes
split_runes-nil zero = refl
split_runes-nil (suc n) = refl

pub split_runes-zero : (n : ℕ) (t : String) → (n == 0) ≡ true → split_runes n t ≡ ("", t, n)
unfolding split_runes
split_runes-zero n t e = let spent : n ≡ 0 = ground (arith, e) in rw spent refl
