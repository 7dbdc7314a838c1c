-- ===== src/Search.antt =====
-- The search that goes round (internal/ui/common/search.go). An item is the texts of the segments of
-- its searchable lines; an index is an `int`, whose remainder has the sign of the index.
pub mod Order
mod Tests
use Prim.Native.Char.{code}
use jjui.Operations.AceJump.{fold_case}
use jjui.Prelude.{
  ℕ, zero, suc, ◌+◌, ◌%◌, String, Bool, true, false, not, ◌&&◌, ◌||◌, Option, none, some, List, [],
  ◌∷◌, map, ◌==◌, if◌then◌else◌, length, get_elem?, any,
}
use jjui.Prelude.Int.{ℤ, pos, negsuc, ◌+ℤ◌, ◌-ℤ◌}
use jjui.Prelude.Texts.{is_empty}

abbrev pub codes : String → List ℕ
codes String.[] = []
codes (String.◌∷◌ c s) = code c ∷ codes s

-- `strings.ToLower`, for ASCII.
abbrev pub to_lower : String → List ℕ
to_lower s = map fold_case (codes s)

abbrev pub has_prefix : List ℕ → List ℕ → Bool
has_prefix [] s = true
has_prefix (c ∷ cs) [] = false
has_prefix (c ∷ cs) (d ∷ ds) = c == d && has_prefix cs ds

abbrev pub contains_codes : List ℕ → List ℕ → Bool
contains_codes query [] = has_prefix query []
contains_codes query (c ∷ cs) = has_prefix query (c ∷ cs) || contains_codes query cs

unfoldable pub matches_query : String → List String → Bool
matches_query query texts =
    any (λ text. not (is_empty text) && contains_codes (codes query) (to_lower text)) texts

-- `a % n`.
unfoldable pub rem_ℤ : ℤ → ℕ → ℤ
rem_ℤ (pos a) n = pos (a % n)
rem_ℤ (negsuc a) n = pos 0 -ℤ pos (suc a % n)

-- The index in the step of this number.
unfoldable pub index_in_step : (start : ℤ) → (backward : Bool) → (n i : ℕ) → ℤ
index_in_step start false n i = rem_ℤ (start +ℤ pos i) n
index_in_step start true n i = rem_ℤ (start -ℤ pos i +ℤ pos n) n

abbrev pub item_at : List (List String) → ℤ → Option (List String)
item_at items (pos c) = get_elem? items c
item_at items (negsuc c) = none

-- The steps that are left, from one on; `none` is a panic, of an index that is out of range.
unfoldable pub search_from :
    List (List String) → String → (start cursor : ℤ) → (backward : Bool) → (left i : ℕ) → Option ℤ
search_from items query start cursor backward zero i = some cursor
search_from items query start cursor backward (suc left) i =
    let rest = search_from items query start cursor backward left (i + 1) in
    let c = index_in_step start backward (length items) i in
    elim (item_at items c) [
      | none ↦ none
      | some item ↦ if matches_query query item then some c else rest
    ]

unfoldable pub circular_search :
    List (List String) → String → (start cursor : ℤ) → (backward : Bool) → Option ℤ
circular_search items query start cursor backward =
    if is_empty query
    then some cursor
    else search_from items query start cursor backward (length items) 0
