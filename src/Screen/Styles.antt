-- ===== src/Screen/Styles.antt =====
-- The styles of the output (`applyParamsToStyle` of internal/screen/ansi_parser.go). A colour is the
-- arguments of the lipgloss call that makes it; numbers are unbounded.
use Prim.Native.Char.{code}
use jjui.Prelude.{
  ℕ, zero, suc, ◌+◌, ◌-◌, ◌*◌, String, Bool, true, false, ◌&&◌, ◌||◌, Option, none, some, List, [],
  ◌∷◌, str_eq, leb, ◌==◌, if◌then◌else◌,
}
use jjui.Prelude.Int.{ℤ, pos, negsuc}
use jjui.Prelude.Texts.{is_empty, onto_first}

pub data Colour : Type 0 where
  ansi_colour : ℕ → Colour
  indexed_colour : ℤ → Colour
  hex_colour : (r g b : ℤ) → Colour

pub record Style : Type 0 where
  pub bold : Bool
  pub faint : Bool
  pub italic : Bool
  pub underline : Bool
  pub blink : Bool
  pub reverse : Bool
  pub strikethrough : Bool
  pub foreground : Option Colour
  pub background : Option Colour

abbrev pub new_style : Style
new_style = record {
  bold = false;
  faint = false;
  italic = false;
  underline = false;
  blink = false;
  reverse = false;
  strikethrough = false;
  foreground = none;
  background = none;
}

-- `strconv.Atoi`.
abbrev pub digits : ℕ → String → Option ℕ
digits n String.[] = some n
digits n (String.◌∷◌ c s) =
    let rest = digits (n * 10 + (code c - 48)) s in
    if leb 48 (code c) && leb (code c) 57 then rest else none

abbrev pub some_digits : String → Option ℕ
some_digits String.[] = none
some_digits (String.◌∷◌ c s) = digits zero (String.◌∷◌ c s)

abbrev pub minus : ℕ → ℤ
minus zero = pos zero
minus (suc n) = negsuc n

abbrev pub signed : (ℕ → ℤ) → Option ℕ → Option ℤ
signed f none = none
signed f (some n) = some (f n)

unfoldable pub atoi : String → Option ℤ
atoi String.[] = none
atoi (String.◌∷◌ c s) =
    if code c == b'-'
    then signed minus (some_digits s)
    else if code c == b'+'
    then signed pos (some_digits s)
    else signed pos (some_digits (String.◌∷◌ c s))

-- `strings.Split` at the semicolons.
unfoldable pub split_params : String → List String
split_params String.[] = "" ∷ []
split_params (String.◌∷◌ c s) =
    let rest = split_params s in if code c == b';' then "" ∷ rest else onto_first c rest

-- The code alone.
unfoldable pub apply_code : ℕ → Style → Style
apply_code n style =
    if n == 0
    then new_style
    else if n == 1
    then record style { bold = true }
    else if n == 2
    then record style { faint = true }
    else if n == 3
    then record style { italic = true }
    else if n == 4
    then record style { underline = true }
    else if n == 5 || n == 6
    then record style { blink = true }
    else if n == 7
    then record style { reverse = true }
    else if n == 8
    then record style { faint = true }
    else if n == 9
    then record style { strikethrough = true }
    else if n == 22
    then record style { bold = false; faint = false }
    else if n == 23
    then record style { italic = false }
    else if n == 24
    then record style { underline = false }
    else if n == 25
    then record style { blink = false }
    else if n == 27
    then record style { reverse = false }
    else if n == 28
    then record style { faint = false }
    else if n == 29
    then record style { strikethrough = false }
    else if leb 30 n && leb n 37
    then record style { foreground = some (ansi_colour (n - 30)) }
    else if n == 39
    then record style { foreground = none }
    else if leb 40 n && leb n 47
    then record style { background = some (ansi_colour (n - 40)) }
    else if n == 49
    then record style { background = none }
    else if leb 90 n && leb n 97
    then record style { foreground = some (ansi_colour (n - 90 + 8)) }
    else if leb 100 n && leb n 107
    then record style { background = some (ansi_colour (n - 100 + 8)) }
    else style

abbrev pub indexed_by : Option ℤ → Option Colour
indexed_by none = none
indexed_by (some n) = some (indexed_colour n)

abbrev pub hex_by : (r g b : Option ℤ) → Option Colour
hex_by (some r) (some g) (some b) = some (hex_colour r g b)
hex_by _ _ _ = none

-- The colour that is spelled out behind 38 or 48, if it is a number, and how many parts it takes.
unfoldable pub extended_colour : List String → Option Colour × ℕ
extended_colour (kind ∷ r ∷ g ∷ b ∷ ps) =
    if str_eq kind "5"
    then (indexed_by (atoi r), 2)
    else if str_eq kind "2"
    then (hex_by (atoi r) (atoi g) (atoi b), 4)
    else (none, 0)
extended_colour (kind ∷ r ∷ ps) = if str_eq kind "5" then (indexed_by (atoi r), 2) else (none, 0)
extended_colour _ = (none, 0)

abbrev pub set_foreground : Option Colour → Style → Style
set_foreground none style = style
set_foreground (some c) style = record style { foreground = some c }

abbrev pub set_background : Option Colour → Style → Style
set_background none style = style
set_background (some c) style = record style { background = some c }

-- One step of the loop: the new style, and how many of the following parts it skips.
unfoldable pub apply_part : Option ℤ → List String → Style → Style × ℕ
apply_part none ps style = (style, 0)
apply_part (some (negsuc n)) ps style = (style, 0)
apply_part (some (pos n)) ps style =
    let (colour, skipped) = extended_colour ps in
    if n == 38
    then (set_foreground colour style, skipped)
    else if n == 48
    then (set_background colour style, skipped)
    else (apply_code n style, 0)

unfoldable pub apply_parts : ℕ → List String → Style → Style
apply_parts n [] style = style
apply_parts (suc n) (p ∷ ps) style = apply_parts n ps style
apply_parts zero (p ∷ ps) style =
    let (next, skipped) = apply_part (atoi p) ps style in apply_parts skipped ps next

unfoldable pub apply_params_to_style : Style → String → Style
apply_params_to_style style params =
    if is_empty params then style else apply_parts zero (split_params params) style
