-- ===== src/Operations/SetParents/Unique.antt =====
-- The parents to add (internal/ui/operations/set_parents/set_parents_operation.go) as a list with each
-- identifier once.
use jjui.Operations.{any_is}
use jjui.Operations.SetParents.{drop_first, toggle_added}
use jjui.Prelude.{
  String, ◌≡◌, refl, ap, ◌∙◌, inl, inr, true, false, not, ◌&&◌, ◌||◌, List, [], ◌∷◌, ◌++◌, arith,
  str_eq, eq_iff, if◌then◌else◌, Bool-cases,
}

abbrev pub IsUnique : List String → Type 0
IsUnique [] = Unit
IsUnique (s ∷ ss) = (any_is ss s ≡ false) × IsUnique ss

any_is-onto :
    (ss : List String) (id asked : String)
    → any_is (ss ++ id ∷ []) asked ≡ (any_is ss asked || str_eq asked id)
unfolding any_is
any_is-onto [] id asked = ground arith
any_is-onto (s ∷ ss) id asked = rw (any_is-onto ss id asked) (ground arith)

-- The three comparisons go together.
abbrev Together : (s id asked : String) → Type 0
Together s id asked =
    (str_eq s id ≡ true → str_eq asked s ≡ str_eq id asked)
    × (str_eq s id ≡ false → str_eq asked s ≡ true → str_eq id asked ≡ false)

same-texts : (s id asked : String) → Together s id asked
same-texts s id asked = (
  λ e. ground (arith, eq_iff s id, eq_iff asked s, eq_iff id asked),
  λ e f. ground (arith, eq_iff s id, eq_iff asked s, eq_iff id asked),
)

any_is-drop_first :
    (ss : List String) (id asked : String)
    → IsUnique ss
    → any_is (drop_first id ss) asked ≡ (any_is ss asked && not (str_eq id asked))
unfolding any_is drop_first
any_is-drop_first [] id asked h = refl
any_is-drop_first (s ∷ ss) id asked h = elim (Bool-cases (str_eq s id)) [
  | inl e ↦ rw e (elim (Bool-cases (str_eq asked s)) [
    | inl f ↦
        let off : any_is ss asked ≡ false = ap (any_is ss) ((eq_iff asked s).0 f) ∙ h.0 in
        ground (arith, same-texts s id asked)
    | inr f ↦ ground (arith, same-texts s id asked)
  ])
  | inr e ↦ rw (e, any_is-drop_first ss id asked h.1) (ground (arith, same-texts s id asked))
]

drop_first-IsUnique : (ss : List String) (id : String) → IsUnique ss → IsUnique (drop_first id ss)
unfolding drop_first
drop_first-IsUnique [] id h = tt
drop_first-IsUnique (s ∷ ss) id h = elim (Bool-cases (str_eq s id)) [
  | inl e ↦ rw e h.1
  | inr e ↦ rw e (any_is-drop_first ss id s h.1 ∙ rw h.0 refl, drop_first-IsUnique ss id h.1)
]

onto-IsUnique :
    (ss : List String) (id : String) → IsUnique ss → any_is ss id ≡ false → IsUnique (ss ++ id ∷ [])
unfolding any_is
onto-IsUnique [] id h e = (refl, tt)
onto-IsUnique (s ∷ ss) id h e = (
  (any_is-onto ss id s ∙ ground (arith, eq_iff s id, eq_iff id s)),
  onto-IsUnique ss id h.1 (ground arith),
)

pub toggle_added-IsUnique :
    (id : String) (ss : List String) → IsUnique ss → IsUnique (toggle_added id ss)
unfolding toggle_added
toggle_added-IsUnique id ss h = elim (Bool-cases (any_is ss id)) [
  | inl e ↦ rw e (drop_first-IsUnique ss id h)
  | inr e ↦ rw e (onto-IsUnique ss id h e)
]

pub any_is-toggle_added :
    (id asked : String) (ss : List String)
    → IsUnique ss
    → any_is (toggle_added id ss) asked
      ≡ (if str_eq id asked then not (any_is ss id) else any_is ss asked)
unfolding toggle_added
any_is-toggle_added id asked ss h = elim (Bool-cases (any_is ss id)) [
  | inl e ↦ rw (e, any_is-drop_first ss id asked h) (ground (arith, e))
  | inr e ↦ rw (e, any_is-onto ss id asked) (ground (arith, eq_iff asked id, eq_iff id asked))
]
