-- ===== src/Prelude/Maps.antt =====
-- A Go map with text keys, as an association list. No model here depends on the order of a map.
use jjui.Prelude.{
  ◌≡◌, refl, Option, none, some, List, [], ◌∷◌, String, str_eq, eq_iff, arith, if◌then◌else◌,
}

abbrev pub Map : Type 0 → Type 0
Map V = List (String × V)

module _ {V : Type 0} where
  unfoldable pub lookup : String → Map V → Option V
  lookup key [] = none
  lookup key ((at, value) ∷ entries) = if str_eq at key then some value else lookup key entries

  unfoldable pub insert : String → V → Map V → Map V
  insert key new [] = (key, new) ∷ []
  insert key new ((at, value) ∷ entries) =
      if str_eq at key then (key, new) ∷ entries else (at, value) ∷ insert key new entries

  unfoldable pub delete : String → Map V → Map V
  delete key [] = []
  delete key ((at, value) ∷ entries) =
      if str_eq at key then delete key entries else (at, value) ∷ delete key entries

  pub lookup-insert :
      (key asked : String) (new : V) (entries : Map V)
      → lookup asked (insert key new entries)
        ≡ (if str_eq key asked then some new else lookup asked entries)
  unfolding insert lookup
  lookup-insert key asked new [] = refl
  lookup-insert key asked new ((at, value) ∷ entries) =
      ground (
        lookup-insert key asked new entries,
        eq_iff at asked,
        eq_iff at key,
        eq_iff key asked,
        arith,
      )

  pub lookup-delete :
      (key asked : String) (entries : Map V)
      → lookup asked (delete key entries)
        ≡ (if str_eq key asked then none else lookup asked entries)
  unfolding delete lookup
  lookup-delete key asked [] = ground arith
  lookup-delete key asked ((at, value) ∷ entries) =
      ground
        (lookup-delete key asked entries, eq_iff at asked, eq_iff at key, eq_iff key asked, arith)
