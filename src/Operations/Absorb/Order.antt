-- ===== src/Operations/Absorb/Order.antt =====
-- The sorted targets of the absorb operation (internal/ui/operations/absorb/absorb.go).
use jjui.Operations.{any_is}
use jjui.Operations.Absorb.{Targets, is_on, keys, text_leb, put, sort}
use jjui.Operations.Absorb.Sets.{IsKeySet}
use jjui.Operations.SetParents.Unique.{IsUnique}
use jjui.Prelude.{
  false, String, ◌≡◌, refl, ◌∙◌, inl, inr, Bool, true, ◌||◌, List, [], ◌∷◌, arith, str_eq, eq_iff,
  Bool-cases,
}
use jjui.Prelude.Maps.{lookup}

text_leb_total : (s t : String) → (text_leb s t || text_leb t s) ≡ true
unfolding text_leb
text_leb_total String.[] t = refl
text_leb_total (String.◌∷◌ c s) String.[] = refl
text_leb_total (String.◌∷◌ c s) (String.◌∷◌ d t) = ground (arith, text_leb_total s t)

abbrev pub first_leb : String → List String → Bool
first_leb s [] = true
first_leb s (t ∷ ts) = text_leb s t

-- Each text is at most the next one.
abbrev pub IsSorted : List String → Type 0
IsSorted [] = Unit
IsSorted (s ∷ ss) = (first_leb s ss ≡ true) × IsSorted ss

first_leb-put :
    (s t : String) (ts : List String)
    → text_leb t s ≡ true
    → first_leb t ts ≡ true
    → first_leb t (put s ts) ≡ true
unfolding put
first_leb-put s t [] e f = e
first_leb-put s t (u ∷ ts) e f = ground arith

put-IsSorted : (s : String) (ts : List String) → IsSorted ts → IsSorted (put s ts)
unfolding put
put-IsSorted s [] h = (refl, tt)
put-IsSorted s (t ∷ ts) h = elim (Bool-cases (text_leb s t)) [
  | inl e ↦ rw e (e, h)
  | inr e ↦
      let other : text_leb t s ≡ true = ground (arith, text_leb_total s t) in
      rw e (first_leb-put s t ts other h.0, put-IsSorted s ts h.1)
]

pub sort-IsSorted : (ss : List String) → IsSorted (sort ss)
unfolding sort
sort-IsSorted [] = tt
sort-IsSorted (s ∷ ss) = put-IsSorted s (sort ss) (sort-IsSorted ss)

any_is-put :
    (id s : String) (ts : List String) → any_is (put s ts) id ≡ (str_eq id s || any_is ts id)
unfolding put any_is
any_is-put id s [] = refl
any_is-put id s (t ∷ ts) = ground (arith, any_is-put id s ts)

any_is-sort : (id : String) (ss : List String) → any_is (sort ss) id ≡ any_is ss id
unfolding sort any_is
any_is-sort id [] = refl
any_is-sort id (s ∷ ss) = rw (any_is-put id s (sort ss), any_is-sort id ss) refl

pub any_is-keys : (id : String) (m : Targets) → IsKeySet m → any_is (keys m) id ≡ is_on id m
unfolding any_is is_on lookup
any_is-keys id [] h = refl
any_is-keys id ((at, on) ∷ m) h = ground (arith, any_is-keys id m h.2, eq_iff at id, eq_iff id at)

put-IsUnique :
    (s : String) (ts : List String) → any_is ts s ≡ false → IsUnique ts → IsUnique (put s ts)
unfolding put any_is
put-IsUnique s [] e h = (refl, tt)
put-IsUnique s (t ∷ ts) e h = elim (Bool-cases (text_leb s t)) [
  | inl f ↦ rw f (e, h)
  | inr f ↦
      let apart : any_is (put s ts) t ≡ false =
        any_is-put t s ts ∙ ground (arith, e, h.0, eq_iff s t, eq_iff t s) in
      rw f (apart, put-IsUnique s ts (ground (arith, e)) h.1)
]

sort-IsUnique : (ss : List String) → IsUnique ss → IsUnique (sort ss)
unfolding sort
sort-IsUnique [] h = tt
sort-IsUnique (s ∷ ss) h = put-IsUnique s (sort ss) (any_is-sort s ss ∙ h.0) (sort-IsUnique ss h.1)

keys-IsUnique : (m : Targets) → IsKeySet m → IsUnique (keys m)
unfolding is_on
keys-IsUnique [] h = tt
keys-IsUnique ((id, on) ∷ m) h = (any_is-keys id m h.2 ∙ rw (is_on, h.1) refl, keys-IsUnique m h.2)

pub sort_keys-IsUnique : (m : Targets) → IsKeySet m → IsUnique (sort (keys m))
sort_keys-IsUnique m h = sort-IsUnique (keys m) (keys-IsUnique m h)

-- The sorted keys are those of the set.
pub any_is-sort_keys :
    (id : String) (m : Targets) → IsKeySet m → any_is (sort (keys m)) id ≡ is_on id m
any_is-sort_keys id m h = any_is-sort id (keys m) ∙ any_is-keys id m h
