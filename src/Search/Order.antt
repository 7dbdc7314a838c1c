-- ===== src/Search/Order.antt =====
-- The order in which the search goes over the items (internal/ui/common/search.go).
use native.Mathlib.Nat.{mod-eq_of_lt, add-mod_right}
use mathlib.Core.Path.{subst}
use mathlib.Core.List.{append-nil}
use jjui.Prelude.{
  length-append, ℕ, zero, suc, ◌+◌, ◌-◌, ◌<◌, ◌≤◌, ◌≡◌, refl, sym, ap, ◌∙◌, inl, inr, String, Bool,
  true, false, Option, none, some, List, [], ◌∷◌, ◌++◌, arith, if◌then◌else◌, length, get_elem?,
  found_at, ltb, ◌⊎◌,
}
use jjui.Prelude.Int.{ℤ, pos, ◌+ℤ◌, ◌-ℤ◌, eq_of_parts, int_laws}
use jjui.Prelude.Texts.{is_empty}
use jjui.Search.{matches_query, rem_ℤ, index_in_step, item_at, search_from, circular_search}

-- As many indices, from one up.
abbrev pub up : (from count : ℕ) → List ℕ
up from zero = []
up from (suc count) = from ∷ up (from + 1) count

-- As many indices, down to one.
abbrev pub down : (to count : ℕ) → List ℕ
down to zero = []
down to (suc count) = (to + count) ∷ down to count

abbrev pub matches_at : List (List String) → String → ℕ → Bool
matches_at items query j = elim (get_elem? items j) [
  | none ↦ false
  | some item ↦ matches_query query item
]

-- The first of the indices with an item that matches, or else the cursor.
abbrev pub first_match : List (List String) → String → (cursor : ℤ) → List ℕ → ℤ
first_match items query cursor [] = cursor
first_match items query cursor (j ∷ js) =
    if matches_at items query j then pos j else first_match items query cursor js

-- The steps of the search have these indices.
abbrev Goes : (start : ℤ) → (backward : Bool) → (n i : ℕ) → List ℕ → Type 0
Goes start backward n i [] = Unit
Goes start backward n i (j ∷ js) =
    (ltb j n ≡ true) × (index_in_step start backward n i ≡ pos j) × Goes start backward n (i + 1) js

match_step :
    (b : Bool) (c r : ℤ) (rest : Option ℤ)
    → rest ≡ some r
    → (if b then some c else rest) ≡ some (if b then c else r)
match_step true c r rest e = refl
match_step false c r rest e = e

abbrev read_step : List (List String) → String → (rest : Option ℤ) → (c : ℤ) → Option ℤ
read_step items query rest c = elim (item_at items c) [
  | none ↦ none
  | some item ↦ if matches_query query item then some c else rest
]

matched_step :
    (items : List (List String)) (query : String) (j : ℕ) (r : ℤ) (rest : Option ℤ)
    → ltb j (length items) ≡ true
    → rest ≡ some r
    → read_step items query rest (pos j) ≡ some (if matches_at items query j then pos j else r)
matched_step items query j r rest h e =
    let (item, at) = found_at items j h in
    rw (read_step, matches_at, at) (match_step (matches_query query item) (pos j) r rest e)

search_from-first_match :
    (items : List (List String)) (query : String) (start cursor : ℤ) (backward : Bool) (i : ℕ)
    (js : List ℕ)
    → Goes start backward (length items) i js
    → search_from items query start cursor backward (length js) i
      ≡ some (first_match items query cursor js)
unfolding search_from
search_from-first_match items query start cursor backward i [] g = refl
search_from-first_match items query start cursor backward i (j ∷ js) (h, e, g) =
    let rest = search_from items query start cursor backward (length js) (i + 1) in
    let later = search_from-first_match items query start cursor backward (i + 1) js g in
    ap (read_step items query rest) e
    ∙ matched_step items query j (first_match items query cursor js) rest h later

rem_less : (a n : ℕ) → a < n → rem_ℤ (pos a) n ≡ pos a
unfolding rem_ℤ
rem_less a n h = ap pos (mod-eq_of_lt h)

rem_round : (a n : ℕ) → a < n → rem_ℤ (pos (a + n)) n ≡ pos a
unfolding rem_ℤ
rem_round a n h = ap pos (add-mod_right a n ∙ mod-eq_of_lt h)

added : (s i : ℕ) → pos s +ℤ pos i ≡ pos (s + i)
added s i = eq_of_parts (pos s +ℤ pos i) (pos (s + i)) (omega int_laws)

index_forward :
    (s n i j : ℕ) → j < n → (s + i ≡ j) ⊎ (s + i ≡ j + n) → index_in_step (pos s) false n i ≡ pos j
unfolding index_in_step
index_forward s n i j h (inl e) =
    ap (λ a. rem_ℤ a n) (added s i) ∙ ap (λ a. rem_ℤ (pos a) n) e ∙ rem_less j n h
index_forward s n i j h (inr e) =
    ap (λ a. rem_ℤ a n) (added s i) ∙ ap (λ a. rem_ℤ (pos a) n) e ∙ rem_round j n h

index_backward :
    (s n i j : ℕ)
    → j < n
    → (s + n ≡ j + i + 1) ⊎ (s ≡ j + i + 1)
    → index_in_step (pos s -ℤ pos 1) true n i ≡ pos j
unfolding index_in_step
index_backward s n i j h (inl e) =
    ap (λ a. rem_ℤ a n) (eq_of_parts (pos s -ℤ pos 1 -ℤ pos i +ℤ pos n) (pos j) (omega int_laws))
    ∙ rem_less j n h
index_backward s n i j h (inr e) =
    ap (λ a. rem_ℤ a n)
      (eq_of_parts (pos s -ℤ pos 1 -ℤ pos i +ℤ pos n) (pos (j + n)) (omega int_laws))
    ∙ rem_round j n h

up-Goes :
    (s n from count i : ℕ) (js : List ℕ)
    → from + count ≤ n
    → (s + i ≡ from) ⊎ (s + i ≡ from + n)
    → Goes (pos s) false n (i + count) js
    → Goes (pos s) false n i (up from count ++ js)
up-Goes s n from zero i js h e g = subst (λ k. Goes (pos s) false n k js) (omega arith) g
up-Goes s n from (suc count) i js h e g = (
  ground arith,
  index_forward s n i from (omega arith) e,
  up-Goes s n (from + 1) count (i + 1) js (omega arith) (ground arith)
      (subst (λ k. Goes (pos s) false n k js) (omega arith) g),
)

down-Goes :
    (s n to count i : ℕ) (js : List ℕ)
    → to + count ≤ n
    → (s + n ≡ to + count + i) ⊎ (s ≡ to + count + i)
    → Goes (pos s -ℤ pos 1) true n (i + count) js
    → Goes (pos s -ℤ pos 1) true n i (down to count ++ js)
down-Goes s n to zero i js h e g = subst (λ k. Goes (pos s -ℤ pos 1) true n k js) (omega arith) g
down-Goes s n to (suc count) i js h e g = (
  ground arith,
  index_backward s n i (to + count) (omega arith) (ground arith),
  down-Goes s n to count (i + 1) js (omega arith) (ground arith)
      (subst (λ k. Goes (pos s -ℤ pos 1) true n k js) (omega arith) g),
)

length-up : (from count : ℕ) → length (up from count) ≡ count
length-up from zero = refl
length-up from (suc count) = ap suc (length-up (from + 1) count)

length-down : (to count : ℕ) → length (down to count) ≡ count
length-down to zero = refl
length-down to (suc count) = ap suc (length-down to count)

-- The order of the search on from an index, and back from the one before it.
abbrev pub forward : (s n : ℕ) → List ℕ
forward s n = up s (n - s) ++ up 0 s

abbrev pub backwards : (s n : ℕ) → List ℕ
backwards s n = down 0 s ++ down s (n - s)

length-forward : (s n : ℕ) → s ≤ n → length (forward s n) ≡ n
length-forward s n h =
    omega (arith, h, length-append (up s (n - s)) (up 0 s), length-up s (n - s), length-up 0 s)

length-backwards : (s n : ℕ) → s ≤ n → length (backwards s n) ≡ n
length-backwards s n h =
    omega
      (arith, h, length-append (down 0 s) (down s (n - s)), length-down 0 s, length-down s (n - s))

up-Goes_all : (s n : ℕ) → s ≤ n → Goes (pos s) false n (0 + (n - s)) (up 0 s)
up-Goes_all s n h =
    subst (Goes (pos s) false n (0 + (n - s))) (append-nil (up 0 s))
      (up-Goes s n 0 s (0 + (n - s)) [] (omega (arith, h)) (inr (omega (arith, h))) tt)

down-Goes_all : (s n : ℕ) → s ≤ n → Goes (pos s -ℤ pos 1) true n (0 + s) (down s (n - s))
down-Goes_all s n h =
    subst (Goes (pos s -ℤ pos 1) true n (0 + s)) (append-nil (down s (n - s)))
      (down-Goes s n s (n - s) (0 + s) [] (omega (arith, h)) (inl (omega (arith, h))) tt)

searched :
    (items : List (List String)) (query : String) (start cursor : ℤ) (backward : Bool) (js : List ℕ)
    → length js ≡ length items
    → Goes start backward (length items) 0 js
    → search_from items query start cursor backward (length items) 0
      ≡ some (first_match items query cursor js)
searched items query start cursor backward js e g =
    ap (λ k. search_from items query start cursor backward k 0) (sym e)
    ∙ search_from-first_match items query start cursor backward 0 js g

-- For a query that is not empty: forward from an index, at most the number of the items, the search
-- goes on to the last item and then from the first one up to the index; backward from the one before
-- it, to the first item and then from the last one. It gives the first item with the text, or the cursor where none has it, and never reads
-- past the items.
pub circular_search-first_match :
    (items : List (List String)) (query : String) (cursor : ℤ) (s : ℕ)
    → is_empty query ≡ false
    → s ≤ length items
    → (circular_search items query (pos s) cursor false
        ≡ some (first_match items query cursor (forward s (length items))))
      × (circular_search items query (pos s -ℤ pos 1) cursor true
          ≡ some (first_match items query cursor (backwards s (length items))))
unfolding circular_search
circular_search-first_match items query cursor s e h =
    let n = length items in
    let ups =
      up-Goes s n s (n - s) 0 (up 0 s) (omega arith) (inl (omega arith)) (up-Goes_all s n h) in
    let downs =
      down-Goes s n 0 s 0 (down s (n - s)) (omega arith) (inr (omega arith))
        (down-Goes_all s n h) in
    (
      rw (circular_search, e)
          (searched items query (pos s) cursor false (forward s n) (length-forward s n h) ups),
      rw (circular_search, e)
          (searched items query (pos s -ℤ pos 1) cursor true (backwards s n)
            (length-backwards s n h) downs),
    )
