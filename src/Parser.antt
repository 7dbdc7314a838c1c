-- ===== src/Parser.antt =====
-- The lines and rows of the output of `jj log` (internal/parser/row_line.go, internal/parser/row.go). A
-- text is a sequence of runes. The flags of a line are the three bits of
-- `RowLineFlags`.
pub mod Splitting
pub mod Cutting
pub mod Chop
pub mod Flags
pub mod Prefixes
pub mod Streaming
mod Tests
use Prim.Native.Char.{code}
use jjui.Jj.Selections.{Commit}
use jjui.Screen.{Segment, styled}
use jjui.Screen.Styles.{Style}
use jjui.Prelude.{
  ℕ, zero, suc, String, Bool, true, false, not, ◌&&◌, ◌||◌, Option, none, some, List, [], ◌∷◌, ◌++◌,
  str_eq, ◌==◌, if◌then◌else◌, replicate, any,
}
use jjui.Prelude.Texts.{trim_space, is_empty}

pub record RowLineFlags : Type 0 where
  pub revision : Bool
  pub highlightable : Bool
  pub elided : Bool

pub record GraphRowLine : Type 0 where
  pub segments : List Segment
  pub gutter : List Segment
  pub flags : RowLineFlags

abbrev pub no_flags : RowLineFlags
no_flags = record { revision = false; highlightable = false; elided = false }

unfoldable pub new_graph_row_line : List Segment → GraphRowLine
new_graph_row_line segments = record { segments = segments; gutter = []; flags = no_flags }

-- The first runes of a text, the rest, and how many runes were missing.
unfoldable pub split_runes : ℕ → String → String × String × ℕ
split_runes zero s = (String.[], s, 0)
split_runes (suc n) String.[] = (String.[], String.[], suc n)
split_runes (suc n) (String.◌∷◌ c s) =
    let (front, back, left) = split_runes n s in (String.◌∷◌ c front, back, left)

abbrev pub is_nil {ℓ} : {A : Type ℓ} → List A → Bool
is_nil [] = true
is_nil (x ∷ xs) = false

-- The remainder of a segment that the indent ends in.
abbrev pub remainder : String → Style → List Segment
remainder back style = if is_empty back then [] else styled back style ∷ []

-- The first loop of `chop`: the gutter and the segments so far, and the indent that is left.
unfoldable pub cut_from :
    (gutter segments : List Segment) → ℕ → List Segment → List Segment × List Segment × ℕ
cut_from gutter kept n [] = (gutter, kept, n)
cut_from gutter kept n (s ∷ rest) =
    let (front, back, left) = split_runes n s.text in
    let gutter' = gutter ++ styled front s.style ∷ [] in
    let further = cut_from gutter' (kept ++ remainder back s.style) left rest in
    if left == 0 && not (is_nil rest) then (gutter', rest, left) else further

-- One segment for each rune.
abbrev pub runes_of : String → Style → List Segment
runes_of String.[] style = []
runes_of (String.◌∷◌ c s) style = styled (String.◌∷◌ c String.[]) style ∷ runes_of s style

unfoldable pub per_rune : List Segment → List Segment
per_rune [] = []
per_rune (s ∷ segments) = runes_of s.text s.style ++ per_rune segments

abbrev pub last_style : List Segment → Option Style
last_style [] = none
last_style (s ∷ []) = some s.style
last_style (s ∷ t ∷ segments) = last_style (t ∷ segments)

unfoldable pub padded : ℕ → List Segment → List Segment
padded n gutter = elim (last_style gutter) [
  | none ↦ gutter
  | some style ↦ gutter ++ replicate n (styled " " style)
]

unfoldable pub chop : ℕ → GraphRowLine → GraphRowLine
chop indent line =
    let (gutter, segments, left) = cut_from line.gutter [] indent line.segments in
    if is_nil line.segments
    then line
    else record line { gutter = padded left (per_rune gutter); segments = segments }

abbrev pub has_rune : ℕ → String → Bool
has_rune r String.[] = false
has_rune r (String.◌∷◌ c s) = code c == r || has_rune r s

unfoldable pub contains_rune : ℕ → GraphRowLine → Bool
contains_rune r line = any (λ s. has_rune r s.text) line.gutter

pub record Row : Type 0 where
  pub commit : Option Commit
  pub lines : List GraphRowLine
  pub indent : ℕ

abbrev pub says_hidden : Segment → Bool
says_hidden s = let text = trim_space s.text in str_eq text "hidden" || str_eq text "(hidden)"

abbrev pub last_line : List GraphRowLine → Option GraphRowLine
last_line [] = none
last_line (l ∷ []) = some l
last_line (l ∷ m ∷ lines) = last_line (m ∷ lines)

unfoldable pub flags_after : RowLineFlags → GraphRowLine → RowLineFlags
flags_after before line =
    if contains_rune b'~' line
    then record { revision = false; highlightable = false; elided = true }
    else record { revision = false; highlightable = before.highlightable; elided = false }

-- A chopped line comes after the last line of the row, if there is one.
unfoldable pub add_after : Option GraphRowLine → Commit → GraphRowLine → Row → Row
add_after none commit line row = record row {
  commit = some (record commit {
    is_working_copy = contains_rune b'@' line;
    hidden = commit.hidden || any says_hidden line.segments;
  });
  lines =
      row.lines
      ++ record line { flags = record { revision = true; highlightable = true; elided = false } }
        ∷ [];
}
add_after (some last) commit line row = record row {
  lines = row.lines ++ record line { flags = flags_after last.flags line } ∷ [];
}

-- `AddLine` does nothing in a row without a commit.
unfoldable pub add_line : Row → GraphRowLine → Row
add_line row line = elim row.commit [
  | none ↦ row
  | some commit ↦ add_after (last_line row.lines) commit (chop row.indent line) row
]

unfoldable pub add_lines : Row → List GraphRowLine → Row
add_lines row [] = row
add_lines row (l ∷ lines) = add_lines (add_line row l) lines
