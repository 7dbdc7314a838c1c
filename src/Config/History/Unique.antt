-- ===== src/Config/History/Unique.antt =====
-- The entries of a unique history (internal/config/history.go: Entries, Append, dedup).
use mathlib.Core.List.{append_assoc}
use jjui.Config.History.{History, new_history, member, load, dedup, load_once, entries, append}
use mathlib.Core.Path.{subst}
use jjui.Prelude.{
  String, ◌≡◌, refl, sym, ap, ◌∙◌, ◌⊎◌, inl, inr, Bool, true, false, not, ◌&&◌, ◌||◌, Option, List,
  [], ◌∷◌, ◌++◌, arith, str_eq, eq_iff, eq_refl, Bool-cases,
}

abbrev pub IsDistinct : List String → Type 0
IsDistinct [] = Unit
IsDistinct (l ∷ lines) = (member l lines ≡ false) × IsDistinct lines

member-same :
    (y l : String) (lines : List String) → str_eq y l ≡ true → member y lines ≡ member l lines
member-same y l lines e = ap (λ t. member t lines) ((eq_iff y l).0 e)

member-dedup :
    (seen lines : List String) (y : String)
    → member y (dedup seen lines).0 ≡ (member y lines && not (member y seen))
unfolding dedup
member-dedup seen [] y = refl
member-dedup seen (l ∷ lines) y = elim (Bool-cases (member l seen)) [
  | inl e ↦ rw e (ground (arith, member-dedup seen lines y, member-same y l seen, e))
  | inr e ↦ rw e (ground (arith, member-dedup (l ∷ seen) lines y, member-same y l seen, e))
]

seen-dedup :
    (seen lines : List String) (y : String)
    → member y (dedup seen lines).1 ≡ (member y seen || member y lines)
unfolding dedup
seen-dedup seen [] y = ground arith
seen-dedup seen (l ∷ lines) y = elim (Bool-cases (member l seen)) [
  | inl e ↦ rw e (ground (arith, seen-dedup seen lines y, member-same y l seen, e))
  | inr e ↦ rw e (ground (arith, seen-dedup (l ∷ seen) lines y))
]

IsDistinct-dedup : (seen lines : List String) → IsDistinct (dedup seen lines).0
unfolding dedup
IsDistinct-dedup seen [] = tt
IsDistinct-dedup seen (l ∷ lines) = elim (Bool-cases (member l seen)) [
  | inl e ↦ rw e (IsDistinct-dedup seen lines)
  | inr e ↦ rw e (
    ground (arith, member-dedup (l ∷ seen) lines l, eq_refl l),
    IsDistinct-dedup (l ∷ seen) lines,
  )
]

member-append :
    (y : String) (xs ys : List String) → member y (xs ++ ys) ≡ (member y xs || member y ys)
member-append y [] ys = refl
member-append y (x ∷ xs) ys = ground (arith, member-append y xs ys)

IsDistinct-append :
    (xs : List String) (l : String)
    → IsDistinct xs
    → member l xs ≡ false
    → IsDistinct (xs ++ l ∷ [])
IsDistinct-append [] l h e = (refl, tt)
IsDistinct-append (x ∷ xs) l h e =
    let of_x = h.0 in
    (
      ground (arith, member-append x xs (l ∷ []), eq_iff x l, eq_iff l x),
      IsDistinct-append xs l h.1 (ground arith),
    )

-- A unique history that is loaded: no entry is there twice, and the sets have what the lists have.
pub record IsUnique (h : History) : Type 0 where
  pub is_unique : h.unique ≡ true
  pub is_loaded : h.append_only ≡ true
  pub distinct : IsDistinct (h.loaded ++ h.appended)
  pub of_loaded : (y : String) → member y h.loaded_unique ≡ member y h.loaded
  pub of_appended : (y : String) → member y h.append_unique ≡ member y h.appended

append_nil : (xs : List String) → xs ++ [] ≡ xs
append_nil [] = refl
append_nil (x ∷ xs) = ap (λ l. x ∷ l) (append_nil xs)

entries-IsUnique : (file : Option String) → IsUnique (entries file (new_history true)).1
unfolding entries load_once new_history
entries-IsUnique file = record {
  is_unique = refl;
  is_loaded = refl;
  distinct =
      subst IsDistinct (sym (append_nil (dedup [] (load file)).0))
        (IsDistinct-dedup [] (load file));
  of_loaded = λ y. ground (arith, seen-dedup [] (load file) y, member-dedup [] (load file) y);
  of_appended = λ y. refl;
}

member-loaded :
    (file : Option String) (y : String)
    → member y
        ((entries file (new_history true)).1.loaded ++ (entries file (new_history true)).1.appended)
      ≡ member y (load file)
unfolding entries load_once new_history
member-loaded file y =
    ap (member y) (append_nil (dedup [] (load file)).0)
    ∙ ground (arith, member-dedup [] (load file) y)

-- The entries that a loaded history gives.
abbrev all_of : History → List String
all_of h = h.loaded ++ h.appended

added : History → String → History
added h line = record h {
  append_unique = line ∷ h.append_unique;
  appended = h.appended ++ line ∷ [];
}

all_of-added : (h : History) (line : String) → all_of (added h line) ≡ all_of h ++ line ∷ []
unfolding added
all_of-added h line = sym (append_assoc h.loaded h.appended (line ∷ []))

added-IsUnique :
    (line : String) (h : History)
    → IsUnique h
    → member line h.append_unique ≡ false
    → member line h.loaded_unique ≡ false
    → IsUnique (added h line)
unfolding added
added-IsUnique line h u e f = record {
  is_unique = u.is_unique;
  is_loaded = u.is_loaded;
  distinct = subst IsDistinct (append_assoc h.loaded h.appended (line ∷ [])) (
      IsDistinct-append (all_of h) line u.distinct (
        ground (
          arith,
          e,
          f,
          u.of_loaded line,
          u.of_appended line,
          member-append line h.loaded h.appended,
        )));
  of_loaded = u.of_loaded;
  of_appended = λ y. ground (arith, u.of_appended y, member-append y h.appended (line ∷ []));
}

-- A line is added where the history does not have it.
append_cases :
    (line : String) (h : History)
    → IsUnique h
    → ((append line h ≡ h) × (member line (all_of h) ≡ true))
      ⊎ ((append line h ≡ added h line)
          × (member line h.append_unique ≡ false)
          × (member line h.loaded_unique ≡ false))
unfolding append added
append_cases line h u = elim (Bool-cases (member line h.append_unique)) [
  | inl e ↦ inl (
    ground (arith, u.is_unique, e),
    ground (arith, e, u.of_appended line, member-append line h.loaded h.appended),
  )
  | inr e ↦ elim (Bool-cases (member line h.loaded_unique)) [
    | inl f ↦ inl (
      ground (arith, u.is_unique, e, f),
      ground (arith, f, u.of_loaded line, member-append line h.loaded h.appended),
    )
    | inr f ↦ inr (ground (arith, u.is_unique, e, f), e, f)
  ]
]

unfoldable pub append_all : List String → History → History
append_all [] h = h
append_all (l ∷ lines) h = append_all lines (append l h)

or_assoc : (a b c : Bool) → ((a || (b || false)) || c) ≡ (a || (b || c))
or_assoc a b c = ground arith

append_all-IsUnique :
    (lines : List String) (h : History)
    → IsUnique h
    → IsUnique (append_all lines h)
      × ((y : String)
          → member y (all_of (append_all lines h)) ≡ (member y (all_of h) || member y lines))
unfolding append_all
append_all-IsUnique [] h u = (u, λ y. ground arith)
append_all-IsUnique (l ∷ lines) h u = elim (append_cases l h u) [
  | inl (e, f) ↦ rw e (
      let rest = append_all-IsUnique lines h u in
      (rest.0, λ y. ground (arith, rest.1 y, f, member-same y l (all_of h))))
  | inr (e, f, g) ↦
      let rest = append_all-IsUnique lines (added h l) (added-IsUnique l h u f g) in
      subst
        (λ k.
          IsUnique (append_all lines k)
          × ((y : String)
              → member y (all_of (append_all lines k))
                ≡ (member y (all_of h) || member y (l ∷ lines))))
        (sym e)
        (
          rest.0,
          λ y.
              rest.1 y
              ∙ ap (λ b. b || member y lines)
                  (ap (member y) (all_of-added h l) ∙ member-append y (all_of h) (l ∷ []))
              ∙ or_assoc (member y (all_of h)) (str_eq y l) (member y lines),
        )
]

entries-loaded :
    (file : Option String) (h : History) → h.append_only ≡ true → (entries file h).0 ≡ all_of h
unfolding entries load_once
entries-loaded file h e = rw e refl

-- The entries of a unique history that was loaded before lines are appended: none is there twice,
-- and they are the lines of the file and the appended ones.
pub entries_unique :
    (file later : Option String) (lines : List String)
    → IsDistinct (entries later (append_all lines (entries file (new_history true)).1)).0
      × ((y : String)
          → member y (entries later (append_all lines (entries file (new_history true)).1)).0
            ≡ (member y (load file) || member y lines))
entries_unique file later lines =
    let start = (entries file (new_history true)).1 in
    let (unique, members) = append_all-IsUnique lines start (entries-IsUnique file) in
    rw (entries-loaded later (append_all lines start) unique.is_loaded)
      (unique.distinct, λ y. members y ∙ ap (λ b. b || member y lines) (member-loaded file y))
