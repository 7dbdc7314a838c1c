-- ===== src/Operations/Absorb/Sets.antt =====
-- The sets of the absorb operation (internal/ui/operations/absorb/absorb.go): maps with each key once
-- and the value `true`.
use jjui.Operations.Absorb.{Targets, is_on, all_on, equal_sets, toggle_target, set_of}
use mathlib.Core.Path.{subst}
use jjui.Prelude.{
  suc, ◌≤◌, String, ◌≡◌, refl, sym, ap, ◌∙◌, ◌↔◌, inl, inr, Bool, true, false, not, ◌&&◌, ◌||◌,
  none, List, [], ◌∷◌, arith, str_eq, eq_iff, eq_refl, Bool-cases, length,
}
use jjui.Prelude.Maps.{lookup, insert, delete, lookup-insert, lookup-delete}

abbrev pub IsKeySet : Targets → Type 0
IsKeySet [] = Unit
IsKeySet ((id, on) ∷ m) = (on ≡ true) × (lookup id m ≡ none) × IsKeySet m

lookup-insert_off :
    (id asked : String) (m : Targets)
    → str_eq id asked ≡ false
    → lookup asked m ≡ none
    → lookup asked (insert id true m) ≡ none
lookup-insert_off id asked m e f = lookup-insert id asked true m ∙ rw e f

pub insert-IsKeySet : (id : String) (m : Targets) → IsKeySet m → IsKeySet (insert id true m)
unfolding insert lookup
insert-IsKeySet id [] h = (refl, refl, tt)
insert-IsKeySet id ((at, on) ∷ m) h = elim (Bool-cases (str_eq at id)) [
  | inl e ↦ rw e (refl, subst (λ k. lookup k m ≡ none) ((eq_iff at id).0 e) h.1, h.2)
  | inr e ↦ rw e (
    h.0,
    lookup-insert_off id at m (ground (arith, eq_iff at id, eq_iff id at)) h.1,
    insert-IsKeySet id m h.2,
  )
]

lookup-delete_off :
    (id asked : String) (m : Targets) → lookup asked m ≡ none → lookup asked (delete id m) ≡ none
lookup-delete_off id asked m e = lookup-delete id asked m ∙ ground arith

pub delete-IsKeySet : (id : String) (m : Targets) → IsKeySet m → IsKeySet (delete id m)
unfolding delete
delete-IsKeySet id [] h = tt
delete-IsKeySet id ((at, on) ∷ m) h = elim (Bool-cases (str_eq at id)) [
  | inl e ↦ rw e (delete-IsKeySet id m h.2)
  | inr e ↦ rw e (h.0, lookup-delete_off id at m h.1, delete-IsKeySet id m h.2)
]

pub toggle_target-IsKeySet :
    (id : String) (m : Targets) → IsKeySet m → IsKeySet (toggle_target id m)
unfolding toggle_target
toggle_target-IsKeySet id m h = elim (Bool-cases (is_on id m)) [
  | inl e ↦ rw e (delete-IsKeySet id m h)
  | inr e ↦ rw e (insert-IsKeySet id m h)
]

pub set_of-IsKeySet : (ids : List String) (m : Targets) → IsKeySet m → IsKeySet (set_of ids m)
unfolding set_of
set_of-IsKeySet [] m h = h
set_of-IsKeySet (id ∷ ids) m h = set_of-IsKeySet ids (insert id true m) (insert-IsKeySet id m h)

pub is_on-insert :
    (id asked : String) (m : Targets)
    → is_on asked (insert id true m) ≡ (str_eq id asked || is_on asked m)
unfolding is_on
is_on-insert id asked m = rw (is_on, lookup-insert id asked true m) (ground arith)

pub is_on-delete :
    (id asked : String) (m : Targets)
    → is_on asked (delete id m) ≡ (not (str_eq id asked) && is_on asked m)
unfolding is_on
is_on-delete id asked m = rw (is_on, lookup-delete id asked m) (ground arith)

is_on-cons :
    (id at : String) (m : Targets) → is_on id ((at, true) ∷ m) ≡ (str_eq at id || is_on id m)
unfolding is_on lookup
is_on-cons id at m = ground arith

length-delete_off :
    (id : String) (m : Targets) → lookup id m ≡ none → length (delete id m) ≡ length m
unfolding delete lookup
length-delete_off id [] e = refl
length-delete_off id ((at, on) ∷ m) e = ground (arith, length-delete_off id m)

is_on-past :
    (id at : String) (on : Bool) (m : Targets)
    → str_eq at id ≡ false
    → is_on id ((at, on) ∷ m) ≡ true
    → is_on id m ≡ true
unfolding is_on lookup
is_on-past id at on m f e = ground arith

length-delete :
    (id : String) (m : Targets)
    → IsKeySet m
    → is_on id m ≡ true
    → suc (length (delete id m)) ≡ length m
unfolding delete lookup is_on
length-delete id [] h e = ground arith
length-delete id ((at, on) ∷ m) h e = elim (Bool-cases (str_eq at id)) [
  | inl f ↦
      rw f
        (ap suc (length-delete_off id m (subst (λ k. lookup k m ≡ none) ((eq_iff at id).0 f) h.1)))
  | inr f ↦ rw f (ap suc (length-delete id m h.2 (is_on-past id at on m f e)))
]

all_on-cons :
    (at : String) (on : Bool) (a b : Targets)
    → all_on ((at, on) ∷ a) b ≡ true
    → (is_on at b ≡ true) × (all_on a b ≡ true)
unfolding all_on
all_on-cons at on a b h = (ground arith, ground arith)

is_on-all_on :
    (a b : Targets) (id : String) → all_on a b ≡ true → is_on id a ≡ true → is_on id b ≡ true
unfolding all_on is_on lookup
is_on-all_on [] b id h e = ground arith
is_on-all_on ((at, on) ∷ a) b id h e = elim (Bool-cases (str_eq at id)) [
  | inl f ↦ subst (λ k. is_on k b ≡ true) ((eq_iff at id).0 f) (all_on-cons at on a b h).0
  | inr f ↦ is_on-all_on a b id (all_on-cons at on a b h).1 (is_on-past id at on a f e)
]

-- A key that the first set has not may go from the second one.
all_on-delete :
    (a b : Targets) (id : String)
    → all_on a b ≡ true
    → lookup id a ≡ none
    → all_on a (delete id b) ≡ true
unfolding all_on lookup
all_on-delete [] b id h e = refl
all_on-delete ((at, on) ∷ a) b id h e =
    rw (is_on-delete id at b) (ground (arith, all_on-delete a b id, eq_iff at id, eq_iff id at))

length-all_on : (a b : Targets) → IsKeySet a → IsKeySet b → all_on a b ≡ true → length a ≤ length b
unfolding all_on
length-all_on [] b h k e = omega arith
length-all_on ((at, on) ∷ a) b h k e =
    let shorter =
      length-all_on a (delete at b) h.2 (delete-IsKeySet at b k)
        (all_on-delete a b at (ground arith) h.1) in
    let one = length-delete at b k (ground arith) in omega arith

lookup-off : (id : String) (m : Targets) → IsKeySet m → is_on id m ≡ false → lookup id m ≡ none
unfolding is_on lookup
lookup-off id [] h e = refl
lookup-off id ((at, on) ∷ m) h e = ground (arith, lookup-off id m)

-- As many keys leave none over.
all_on-swap :
    (a b : Targets) (id : String)
    → IsKeySet a
    → IsKeySet b
    → all_on a b ≡ true
    → length a ≡ length b
    → is_on id b ≡ true
    → is_on id a ≡ true
all_on-swap a b id h k e l o = elim (Bool-cases (is_on id a)) [
  | inl f ↦ f
  | inr f ↦
      let less =
        length-all_on a (delete id b) h (delete-IsKeySet id b k)
          (all_on-delete a b id e (lookup-off id a h f)) in
      let one = length-delete id b k o in absurd (omega arith)
]

is_on_self : (at : String) (on : Bool) (a : Targets) → on ≡ true → is_on at ((at, on) ∷ a) ≡ true
unfolding is_on lookup
is_on_self at on a e = rw (is_on, lookup, eq_refl at) e

is_on-later :
    (id at : String) (on : Bool) (a : Targets)
    → on ≡ true
    → is_on id a ≡ true
    → is_on id ((at, on) ∷ a) ≡ true
unfolding is_on lookup
is_on-later id at on a e f = ground arith

all_on-of :
    (a b : Targets)
    → IsKeySet a
    → ((id : String) → is_on id a ≡ true → is_on id b ≡ true)
    → all_on a b ≡ true
unfolding all_on
all_on-of [] b h f = refl
all_on-of ((at, on) ∷ a) b h f =
    rw (all_on, f at (is_on_self at on a h.0))
      (all_on-of a b h.2 (λ id e. f id (is_on-later id at on a h.0 e)))

both_ways : (p q : Bool) → (p ≡ true → q ≡ true) → (q ≡ true → p ≡ true) → p ≡ q
both_ways true q f g = sym (f refl)
both_ways false true f g = g refl
both_ways false false f g = refl

-- The comparison of the operation is equality of the sets.
pub equal_sets_iff :
    (a b : Targets)
    → IsKeySet a
    → IsKeySet b
    → (equal_sets a b ≡ true) ↔ ((id : String) → is_on id a ≡ is_on id b)
unfolding equal_sets
equal_sets_iff a b h k = (
  λ e id.
      both_ways (is_on id a) (is_on id b) (is_on-all_on a b id (ground arith))
        (all_on-swap a b id h k (ground arith) (ground arith)),
  λ f.
      let there = all_on-of a b h (λ id e. sym (f id) ∙ e) in
      let back = all_on-of b a k (λ id e. f id ∙ e) in
      let short = length-all_on a b h k there in
      let long = length-all_on b a k h back in ground arith,
)
