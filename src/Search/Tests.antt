-- ===== src/Search/Tests.antt =====
-- A search in three rows (internal/ui/common/search.go).
use jjui.Prelude.{arith, ◌≡◌, refl, String, true, false, some, List, [], ◌∷◌}
use jjui.Prelude.Int.{pos, negsuc, ◌-ℤ◌, ◌+ℤ◌}
use jjui.Search.{circular_search, search_from, index_in_step, rem_ℤ, matches_query}
use jjui.Search.Order.{first_match, forward, backwards, circular_search-first_match}

abbrev three_items : List (List String)
three_items = ("Fix" ∷ []) ∷ ("add" ∷ "" ∷ []) ∷ ("a fix" ∷ []) ∷ []

goes_round : circular_search three_items "fix" (pos 1) (pos 0) false ≡ some (pos 2)
unfolding circular_search search_from index_in_step rem_ℤ matches_query ◌+ℤ◌
goes_round = refl

goes_back : circular_search three_items "fix" (negsuc 0) (pos 0) true ≡ some (pos 2)
unfolding circular_search search_from index_in_step rem_ℤ matches_query ◌+ℤ◌ ◌-ℤ◌
goes_back = refl

circular_search-first_match_example :
    (circular_search three_items "fix" (pos 1) (pos 0) false
      ≡ some (first_match three_items "fix" (pos 0) (forward 1 3)))
    × (circular_search three_items "fix" (pos 1 -ℤ pos 1) (pos 0) true
        ≡ some (first_match three_items "fix" (pos 0) (backwards 1 3)))
circular_search-first_match_example =
    circular_search-first_match three_items "fix" (pos 0) 1 refl (omega arith)
