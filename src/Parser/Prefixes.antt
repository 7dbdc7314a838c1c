-- ===== src/Parser/Prefixes.antt =====
-- The structured prefix of a line (`ParseRowPrefixes` of internal/parser/row_line.go).
use Prim.Native.Char.{code}
use jjui.Jj.Commands.Queries.{jjui_prefix}
use jjui.Jj.Selections.{Commit}
use jjui.Parser.{GraphRowLine}
use jjui.Screen.{Segment, styled}
use jjui.Screen.Styles.{new_style}
use jjui.Prelude.{
  ℕ, zero, suc, ◌+◌, ◌-◌, String, Bool, true, false, ◌&&◌, ◌||◌, Option, none, some, List, [], ◌∷◌,
  str_eq, ◌==◌, if◌then◌else◌,
}
use jjui.Prelude.Texts.{trim_space, onto_first}

abbrev pub starts : (sep s : String) → Bool
starts String.[] s = true
starts (String.◌∷◌ c sep) String.[] = false
starts (String.◌∷◌ c sep) (String.◌∷◌ d s) = code c == code d && starts sep s

abbrev pub text_length : String → ℕ
text_length String.[] = zero
text_length (String.◌∷◌ c s) = suc (text_length s)

-- `strings.Split` with a separator that is not empty; the number is what is left of one.
unfoldable pub split_from : String → ℕ → String → List String
split_from sep n String.[] = "" ∷ []
split_from sep (suc n) (String.◌∷◌ c s) = split_from sep n s
split_from sep zero (String.◌∷◌ c s) = elim (starts sep (String.◌∷◌ c s)) [
  | true ↦ "" ∷ split_from sep (text_length sep - 1) s
  | false ↦ onto_first c (split_from sep zero s)
]

abbrev pub split_prefix : String → List String
split_prefix s = split_from jjui_prefix zero s

-- `strings.Contains`.
unfoldable pub contains_text : String → String → Bool
contains_text sep String.[] = starts sep String.[]
contains_text sep (String.◌∷◌ c s) = starts sep (String.◌∷◌ c s) || contains_text sep s

abbrev pub is_true : String → Bool
is_true part = str_eq (trim_space part) "true"

abbrev pub commit_with :
    (change_id commit_id : String)
    → (bookmarks local_bookmarks workspace root is_empty : Bool) → Commit
commit_with change_id commit_id bookmarks local_bookmarks workspace root is_empty_ = record {
  change_id = trim_space change_id;
  is_working_copy = false;
  hidden = false;
  has_bookmarks = bookmarks;
  has_local_bookmarks = local_bookmarks;
  has_workspace = workspace;
  root = root;
  is_empty_commit = is_empty_;
  commit_id = trim_space commit_id;
}

-- The text before the prefix, and the commit, for three to eight parts.
unfoldable pub read_parts : List String → Option (String × Commit)
read_parts (before ∷ ch ∷ co ∷ []) = some (before, commit_with ch co false false false false false)
read_parts (before ∷ ch ∷ co ∷ r ∷ []) =
    some (before, commit_with ch co false false false (is_true r) false)
read_parts (before ∷ ch ∷ co ∷ r ∷ e ∷ []) =
    some (before, commit_with ch co false false false (is_true r) (is_true e))
read_parts (before ∷ ch ∷ co ∷ b ∷ l ∷ w ∷ []) =
    some (before, commit_with ch co (is_true b) (is_true l) (is_true w) false false)
read_parts (before ∷ ch ∷ co ∷ b ∷ l ∷ w ∷ r ∷ []) =
    some (before, commit_with ch co (is_true b) (is_true l) (is_true w) (is_true r) false)
read_parts (before ∷ ch ∷ co ∷ b ∷ l ∷ w ∷ r ∷ e ∷ []) =
    some (before, commit_with ch co (is_true b) (is_true l) (is_true w) (is_true r) (is_true e))
read_parts _ = none

-- The first segment with the prefix, and where it stands.
unfoldable pub find_prefix : ℕ → List Segment → Option (ℕ × Segment)
find_prefix i [] = none
find_prefix i (s ∷ segments) =
    let rest = find_prefix (i + 1) segments in
    if contains_text jjui_prefix s.text then some (i, s) else rest

unfoldable pub replace_at : ℕ → Segment → List Segment → List Segment
replace_at n t [] = []
replace_at zero t (s ∷ segments) = t ∷ segments
replace_at (suc n) t (s ∷ segments) = s ∷ replace_at n t segments

abbrev pub with_parts :
    ℕ → Option (String × Commit) → GraphRowLine → GraphRowLine × Option (ℕ × Commit)
with_parts i none line = (line, none)
with_parts i (some (before, commit)) line = (
  record line { segments = replace_at i (styled before new_style) line.segments },
  some (i + 1, commit),
)

-- The line without the prefix, the index behind it and the commit; `none` is -1.
unfoldable pub parse_row_prefixes : GraphRowLine → GraphRowLine × Option (ℕ × Commit)
parse_row_prefixes line = elim (find_prefix 0 line.segments) [
  | none ↦ (line, none)
  | some (i, s) ↦ with_parts i (read_parts (split_prefix s.text)) line
]
