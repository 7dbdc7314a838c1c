-- ===== src/Prelude/Lists.antt =====
-- Lists measured and indexed by native numbers, under the library's names.
use Prim.Native.Nat.{ℕ, zero, suc, ◌+◌}
use mathlib.Core.Path.{◌≡◌, refl, ap, sym, ◌∙◌}
use mathlib.Core.Bool.{false≢true, true, Bool, false, ◌||◌}
use mathlib.Core.List.{
  Memᴰ, reverse, reverse-cons, reverse-append, reverse-reverse, append_assoc, List, [], ◌∷◌, ◌++◌,
}
use mathlib.Core.Option.{Option, none, some}
use native.Mathlib.Omega.{arith}
use mathlib.Core.Logic.{inl, inr}
use jjui.Prelude.Tests.{Bool-cases, if◌then◌else◌, ltb}

module _ {ℓ} {A : Type ℓ} where
  abbrev pub length : List A → ℕ
  length [] = 0
  length (x ∷ xs) = suc (length xs)

  abbrev pub get_elem? : List A → ℕ → Option A
  get_elem? [] i = none
  get_elem? (x ∷ xs) zero = some x
  get_elem? (x ∷ xs) (suc i) = get_elem? xs i

  abbrev pub take : ℕ → List A → List A
  take zero xs = []
  take (suc n) [] = []
  take (suc n) (x ∷ xs) = x ∷ take n xs

  abbrev pub drop : ℕ → List A → List A
  drop zero xs = xs
  drop (suc n) [] = []
  drop (suc n) (x ∷ xs) = drop n xs

  abbrev pub replicate : ℕ → A → List A
  replicate zero a = []
  replicate (suc n) a = a ∷ replicate n a

  -- `slices.DeleteFunc` with the test turned round.
  abbrev pub keep : (A → Bool) → List A → List A
  keep p [] = []
  keep p (x ∷ xs) = if p x then x ∷ keep p xs else keep p xs

  -- `slices.ContainsFunc`.
  abbrev pub any : (A → Bool) → List A → Bool
  any p [] = false
  any p (x ∷ xs) = p x || any p xs

  -- A predicate on every element.
  abbrev pub All {κ} : (A → Type κ) → List A → Type κ
  All P [] = Unit
  All P (x ∷ xs) = P x × All P xs

  pub length-append : (xs ys : List A) → length (xs ++ ys) ≡ length xs + length ys
  length-append [] ys = omega arith
  length-append (x ∷ xs) ys = omega (arith, length-append xs ys)

  pub length-replicate : (n : ℕ) (a : A) → length (replicate n a) ≡ n
  length-replicate zero a = refl
  length-replicate (suc n) a = ap suc (length-replicate n a)

  pub All-append {κ} :
      (P : A → Type κ) (front back : List A) → All P front → All P back → All P (front ++ back)
  All-append P [] back of_front of_back = of_back
  All-append P (x ∷ front) back (of_x, of_front) of_back =
      (of_x, All-append P front back of_front of_back)

module _ {ℓ} {A : Type ℓ} (p : A → Bool) where
  of-mem-keep_step :
      {a : A} (b : Bool) (x : A) (xs kept : List A)
      → p x ≡ b
      → (Memᴰ a kept → Memᴰ a xs × (p a ≡ true))
      → Memᴰ a (if b then x ∷ kept else kept)
      → Memᴰ a (x ∷ xs) × (p a ≡ true)
  of-mem-keep_step true x xs kept e rest (Memᴰ.head h) = (Memᴰ.head h, rw h e)
  of-mem-keep_step true x xs kept e rest (Memᴰ.tail m) = (Memᴰ.tail (rest m).0, (rest m).1)
  of-mem-keep_step false x xs kept e rest m = (Memᴰ.tail (rest m).0, (rest m).1)

  -- What is kept was there and passes the test.
  pub of-mem-keep : {a : A} (xs : List A) → Memᴰ a (keep p xs) → Memᴰ a xs × (p a ≡ true)
  of-mem-keep [] m = elim m [ ]
  of-mem-keep (x ∷ xs) m = of-mem-keep_step (p x) x xs (keep p xs) refl (of-mem-keep xs) m

  mem-keep_step :
      {a : A} (b : Bool) (x : A) (xs kept : List A)
      → p x ≡ b
      → (Memᴰ a xs → Memᴰ a kept)
      → p a ≡ true
      → Memᴰ a (x ∷ xs)
      → Memᴰ a (if b then x ∷ kept else kept)
  mem-keep_step true x xs kept e rest h (Memᴰ.head q) = Memᴰ.head q
  mem-keep_step true x xs kept e rest h (Memᴰ.tail m) = Memᴰ.tail (rest m)
  mem-keep_step false x xs kept e rest h (Memᴰ.head q) =
      absurd (false≢true (sym e ∙ sym (ap p q) ∙ h))
  mem-keep_step false x xs kept e rest h (Memᴰ.tail m) = rest m

  pub mem-keep : {a : A} (xs : List A) → p a ≡ true → Memᴰ a xs → Memᴰ a (keep p xs)
  mem-keep [] h m = elim m [ ]
  mem-keep (x ∷ xs) h m = mem-keep_step (p x) x xs (keep p xs) refl (mem-keep xs h) h m

-- What holds of every element holds of every element in reverse.
pub All-reverse {ℓ κ} : {A : Type ℓ} (P : A → Type κ) (xs : List A) → All P xs → All P (reverse xs)
All-reverse P [] h = h
All-reverse P (x ∷ xs) h =
    rw (reverse-cons x xs) (All-append P (reverse xs) (x ∷ []) (All-reverse P xs h.1) (h.0, tt))

-- A list that splits in reverse splits.
pub split_reverse {ℓ} :
    {A : Type ℓ} (xs before after : List A) (x : A)
    → reverse xs ≡ before ++ x ∷ after
    → xs ≡ reverse after ++ x ∷ reverse before
split_reverse xs before after x e =
    sym (reverse-reverse xs)
    ∙ ap reverse e
    ∙ reverse-append before (x ∷ after)
    ∙ ap (λ ys. ys ++ reverse before) (reverse-cons x after)
    ∙ append_assoc (reverse after) (x ∷ []) (reverse before)

pub All-keep {ℓ} : {A : Type ℓ} (p : A → Bool) (xs : List A) → All (λ x. p x ≡ true) (keep p xs)
All-keep p [] = tt
All-keep p (x ∷ xs) = elim (Bool-cases (p x)) [
  | inl e ↦ rw e (e, All-keep p xs)
  | inr e ↦ rw e (All-keep p xs)
]

pub All-map {ℓ κ μ} :
    {A : Type ℓ} {P : A → Type κ} {Q : A → Type μ} (f : (x : A) → P x → Q x) (xs : List A)
    → All P xs
    → All Q xs
All-map f [] h = tt
All-map f (x ∷ xs) h = (f x h.0, All-map f xs h.1)

pub All-both {ℓ κ μ} :
    {A : Type ℓ} (P : A → Type κ) (Q : A → Type μ) (xs : List A)
    → All P xs
    → All Q xs
    → All (λ x. P x × Q x) xs
All-both P Q [] h k = tt
All-both P Q (x ∷ xs) h k = ((h.0, k.0), All-both P Q xs h.1 k.1)

ltb_zero : (i : ℕ) → ltb i 0 ≡ true → ⊥
ltb_zero i h = ground arith

-- An index that the list has.
pub found_at {ℓ} :
    {A : Type ℓ} (xs : List A) (i : ℕ)
    → ltb i (length xs) ≡ true
    → (x : A) × (get_elem? xs i ≡ some x)
found_at [] i h = absurd (ltb_zero i h)
found_at (x ∷ xs) zero h = (x, refl)
found_at (x ∷ xs) (suc i) h = found_at xs i (ground arith)
