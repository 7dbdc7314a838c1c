-- ===== src/Operations/AceJump/Narrowing.antt =====
-- What a typed key leaves of the candidates (internal/ui/operations/ace_jump/ace_jump.go).
use Prim.Native.Char.{Char}
use jjui.Operations.AceJump.{
  AceKey, AceJump, char_at, text_length, advance, is_bound, narrowed, all_moved, typed, bind_keys,
  narrow_to, narrow,
}
use jjui.Prelude.{
  ℕ, zero, suc, ◌+◌, ◌≤◌, String, ◌≡◌, refl, ap, ◌∙◌, inl, inr, true, Option, none, some, List, [],
  ◌∷◌, ◌++◌, map, arith, ltb, Bool-cases, length, keep, All,
}

-- The index of a candidate is inside its identifier.
abbrev pub IsInside : AceKey → Type 0
IsInside a = ltb a.bind_idx (text_length a.id) ≡ true

char_at-inside :
    (s : String) (n : ℕ) → ltb n (text_length s) ≡ true → (c : Char) × (char_at s n ≡ some c)
unfolding char_at
char_at-inside String.[] n e = absurd (ground arith)
char_at-inside (String.◌∷◌ c s) zero e = (c, refl)
char_at-inside (String.◌∷◌ c s) (suc n) e = char_at-inside s n (ground arith)

advance-IsInside : (a : AceKey) → IsInside a → IsInside (advance a)
unfolding advance
advance-IsInside a h = elim (Bool-cases (ltb (a.bind_idx + 1) (text_length a.id))) [
  | inl e ↦ rw e e
  | inr e ↦ rw e h
]

-- The row and the identifier of a candidate.
abbrev pub row_of : AceKey → ℕ × String
row_of a = (a.row_idx, a.id)

abbrev pub rows_of : List AceKey → List (ℕ × String)
rows_of aces = map row_of aces

row_of-advance : (a : AceKey) → row_of (advance a) ≡ row_of a
unfolding advance
row_of-advance a = elim (Bool-cases (ltb (a.bind_idx + 1) (text_length a.id))) [
  | inl e ↦ rw e refl
  | inr e ↦ rw e refl
]

rows_of-advance : (aces : List AceKey) → rows_of (map advance aces) ≡ rows_of aces
rows_of-advance [] = refl
rows_of-advance (a ∷ aces) = rw (row_of-advance a, rows_of-advance aces) refl

narrowed-keep :
    (k : String) (aces : List AceKey) → narrowed k aces ≡ map advance (keep (is_bound k) aces)
unfolding narrowed
narrowed-keep k [] = refl
narrowed-keep k (a ∷ aces) = elim (Bool-cases (is_bound k a)) [
  | inl e ↦ rw e (ap (λ rest. advance a ∷ rest) (narrowed-keep k aces))
  | inr e ↦ rw e (narrowed-keep k aces)
]

keep-IsInside :
    (k : String) (aces : List AceKey) → All IsInside aces → All IsInside (keep (is_bound k) aces)
keep-IsInside k [] h = h
keep-IsInside k (a ∷ aces) h = elim (Bool-cases (is_bound k a)) [
  | inl e ↦ rw e (h.0, keep-IsInside k aces h.1)
  | inr e ↦ rw e (keep-IsInside k aces h.1)
]

advanced-IsInside : (aces : List AceKey) → All IsInside aces → All IsInside (map advance aces)
advanced-IsInside [] h = h
advanced-IsInside (a ∷ aces) h = (advance-IsInside a h.0, advanced-IsInside aces h.1)

-- A candidate that waits for the character at its index.
abbrev pub Waits : AceKey → Type 0
Waits a = char_at a.id a.bind_idx ≡ some a.bind

abbrev Bound : List AceKey → Type 0
Bound aces =
    (bound : List AceKey) × (bind_keys aces ≡ some bound)
    × (rows_of bound ≡ rows_of aces)
    × All IsInside bound
    × All Waits bound

bind_keys-Bound : (aces : List AceKey) → All IsInside aces → Bound aces
unfolding bind_keys
bind_keys-Bound [] h = ([], refl, refl, tt, tt)
bind_keys-Bound (a ∷ aces) h =
    let (c, at) = char_at-inside a.id a.bind_idx h.0 in
    let (rest, found, rows, inside, waits) = bind_keys-Bound aces h.1 in
    (
      record a { bind = c } ∷ rest,
      rw (bind_keys, at, found) refl,
      rw rows refl,
      (h.0, inside),
      (at, waits),
    )

-- What a key does, by the candidates that wait for it.
pub data Narrowed (kept : List AceKey) (j : AceJump) (r : Option (AceJump × Option AceKey))
    : Type 0 where
  unmatched : kept ≡ [] → r ≡ some (j, none) → Narrowed kept j r
  single :
      (a found : AceKey) (next : AceJump)
      → kept ≡ a ∷ []
      → row_of found ≡ row_of a
      → r ≡ some (next, some found)
      → Narrowed kept j r
  several :
      (next : AceJump)
      → 2 ≤ length kept
      → rows_of next.ace ≡ rows_of kept
      → All IsInside next.ace
      → All Waits next.ace
      → r ≡ some (next, none)
      → Narrowed kept j r

Narrowed-to :
    (kept : List AceKey) (moved j : AceJump)
    → All IsInside kept
    → Narrowed kept j (narrow_to (map advance kept) moved j)
Narrowed-to [] moved j h = unmatched refl refl
Narrowed-to (a ∷ []) moved j h = single a (advance a) moved refl (row_of-advance a) refl
Narrowed-to (a ∷ b ∷ aces) moved j h =
    let kept = a ∷ b ∷ aces in
    let (bound, found, rows, inside, waits) =
      bind_keys-Bound (map advance kept) (advanced-IsInside kept h) in
    several (record moved { ace = bound }) (omega arith) (rows ∙ rows_of-advance kept) inside waits
      (rw found refl)

-- Where each candidate is inside its identifier, a key that no candidate waits for changes nothing;
-- one that a single candidate waits for chooses its row; and else exactly the candidates that wait
-- for it stay, in their order, each inside its identifier and waiting for its next character.
pub narrow-Narrowed :
    (k : String) (j : AceJump)
    → All IsInside j.ace
    → Narrowed (keep (is_bound k) j.ace) j (narrow k j)
unfolding narrow
narrow-Narrowed k j h = rw (narrowed-keep k j.ace) (
    Narrowed-to (keep (is_bound k) j.ace)
      (record { ace = all_moved k j.ace; prefix = j.prefix ++ typed k j.ace }) j
      (keep-IsInside k j.ace h))
