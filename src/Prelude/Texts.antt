-- ===== src/Prelude/Texts.antt =====
-- `strings.TrimSpace`, with the white space of `unicode.IsSpace`, and `strings.Join`.
use Prim.Native.Char.{Char, code}
use Prim.Native.String.{◌++◌ as append}
use jjui.Prelude.{
  ℕ, zero, suc, ◌/◌, ◌%◌, Bool, ◌||◌, ◌&&◌, List, [], ◌∷◌, String, str_eq, ltb, leb, ◌==◌,
  if◌then◌else◌,
}

unfoldable pub is_space : ℕ → Bool
is_space c =
    leb 9 c && leb c 13
    || c == 0x20
    || c == 0x85
    || c == 0xa0
    || c == 0x1680
    || leb 0x2000 c && leb c 0x200a
    || c == 0x2028
    || c == 0x2029
    || c == 0x202f
    || c == 0x205f
    || c == 0x3000

trim_left : String → String
trim_left String.[] = String.[]
trim_left (String.◌∷◌ c s) =
    let rest = trim_left s in if is_space (code c) then rest else String.◌∷◌ c s

trim_right : String → String
trim_right String.[] = String.[]
trim_right (String.◌∷◌ c s) =
    let rest = trim_right s in
    if str_eq rest "" && is_space (code c) then String.[] else String.◌∷◌ c rest

unfoldable pub trim_space : String → String
unfolding trim_left trim_right is_space
trim_space s = trim_left (trim_right s)

abbrev pub is_empty : String → Bool
is_empty s = str_eq s ""

abbrev pub join_onto : String → String → List String → String
join_onto sep s [] = s
join_onto sep s (t ∷ ts) = append s (append sep (join_onto sep t ts))

abbrev pub join : String → List String → String
join sep [] = ""
join sep (s ∷ ss) = join_onto sep s ss

abbrev nth : List String → ℕ → String
nth [] n = ""
nth (s ∷ ss) zero = s
nth (s ∷ ss) (suc n) = nth ss n

abbrev digit : ℕ → String
digit n = nth ("0" ∷ "1" ∷ "2" ∷ "3" ∷ "4" ∷ "5" ∷ "6" ∷ "7" ∷ "8" ∷ "9" ∷ []) n

-- The digits of a number below ten to the fuel.
abbrev digits_from : ℕ → ℕ → String
digits_from zero n = ""
digits_from (suc fuel) n =
    let front = digits_from fuel (n / 10) in
    if ltb n 10 then digit n else append front (digit (n % 10))

-- `strconv.Itoa` of a number that is not negative.
unfoldable pub itoa : ℕ → String
itoa n = digits_from (suc n) n

abbrev pub onto_first : Char → List String → List String
onto_first c [] = String.◌∷◌ c "" ∷ []
onto_first c (s ∷ ss) = String.◌∷◌ c s ∷ ss

-- `strings.Split` at the line ends.
unfoldable pub split_lines : String → List String
split_lines String.[] = "" ∷ []
split_lines (String.◌∷◌ c s) =
    let rest = split_lines s in if code c == 10 then "" ∷ rest else onto_first c rest
