-- ===== src/Jj/Toggling.antt =====
-- Selecting and deselecting revisions (internal/jj/selected_revisions.go).
use jjui.Jj.Selections.{
  Commit, SelectedRevisions, get_change_id, contains_commit, contains, same_id, remove_first,
  remove, add, toggle,
}
use jjui.Prelude.{
  ◌≡◌, refl, ap, inl, inr, Bool, true, false, not, ◌&&◌, ◌||◌, some, List, [], ◌∷◌, ◌++◌, arith,
  str_eq, eq_iff, if◌then◌else◌, Bool-cases, any,
}

-- No two revisions of a list have the same identifier.
abbrev pub IsDistinct : List Commit → Type 0
IsDistinct [] = Unit
IsDistinct (r ∷ rs) = (contains_commit rs r ≡ false) × IsDistinct rs

contains_commit-append :
    (rs : List Commit) (c d : Commit)
    → contains_commit (rs ++ c ∷ []) d ≡ (contains_commit rs d || same_id c d)
unfolding contains_commit
contains_commit-append [] c d = ground arith
contains_commit-append (r ∷ rs) c d = ground (arith, contains_commit-append rs c d)

-- Two commits with one identifier are in the same lists.
contains_commit-same :
    (rs : List Commit) (c d : Commit)
    → same_id c d ≡ true
    → contains_commit rs c ≡ contains_commit rs d
unfolding contains_commit
contains_commit-same rs c d e =
    ap (λ i. any (λ r. str_eq (get_change_id r) i) rs)
      ((eq_iff (get_change_id c) (get_change_id d)).0 e)

contains_commit-remove_first :
    (rs : List Commit) (c d : Commit)
    → IsDistinct rs
    → contains_commit (remove_first rs c) d ≡ (contains_commit rs d && not (same_id c d))
unfolding contains_commit remove_first
contains_commit-remove_first [] c d h = refl
contains_commit-remove_first (r ∷ rs) c d h =
    let of_r = h.0 in
    ground (
      arith,
      contains_commit-remove_first rs c d h.1,
      contains_commit-same rs r d,
      contains_commit-same rs c d,
      eq_iff (get_change_id r) (get_change_id c),
      eq_iff (get_change_id r) (get_change_id d),
      eq_iff (get_change_id c) (get_change_id d),
    )

IsDistinct-append :
    (rs : List Commit) (c : Commit)
    → IsDistinct rs
    → contains_commit rs c ≡ false
    → IsDistinct (rs ++ c ∷ [])
unfolding contains_commit
IsDistinct-append [] c h e = (refl, tt)
IsDistinct-append (r ∷ rs) c h e =
    let of_r = h.0 in
    (
      ground (
        arith,
        contains_commit-append rs c r,
        eq_iff (get_change_id r) (get_change_id c),
        eq_iff (get_change_id c) (get_change_id r),
      ),
      IsDistinct-append rs c h.1 (ground arith),
    )

IsDistinct-remove_first :
    (rs : List Commit) (c : Commit) → IsDistinct rs → IsDistinct (remove_first rs c)
unfolding remove_first
IsDistinct-remove_first [] c h = tt
IsDistinct-remove_first (r ∷ rs) c h = elim (Bool-cases (same_id r c)) [
  | inl e ↦ rw e h.1
  | inr e ↦ rw e (
    ground (arith, h.0, contains_commit-remove_first rs c r h.1),
    IsDistinct-remove_first rs c h.1,
  )
]

-- The selection after the revisions are toggled one by one.
unfoldable pub toggle_all : SelectedRevisions → List Commit → SelectedRevisions
toggle_all s [] = s
toggle_all s (c ∷ cs) = toggle_all (toggle s (some c)) cs

-- A state that is turned over once for each of the revisions with an identifier.
unfoldable pub turned : Commit → List Commit → Bool → Bool
turned d [] b = b
turned d (c ∷ cs) b = turned d cs (if same_id c d then not b else b)

toggle-IsDistinct :
    (s : SelectedRevisions) (c : Commit)
    → IsDistinct s.revisions
    → IsDistinct (toggle s (some c)).revisions
unfolding toggle contains remove add
toggle-IsDistinct s c h = elim (Bool-cases (contains_commit s.revisions c)) [
  | inl e ↦ rw e (IsDistinct-remove_first s.revisions c h)
  | inr e ↦ rw e (IsDistinct-append s.revisions c h e)
]

contains-toggle :
    (s : SelectedRevisions) (c d : Commit)
    → IsDistinct s.revisions
    → contains (toggle s (some c)) (some d)
      ≡ (if same_id c d then not (contains s (some d)) else contains s (some d))
unfolding toggle contains remove add
contains-toggle s c d h = elim (Bool-cases (contains_commit s.revisions c)) [
  | inl e ↦ rw e (
      ground (
        arith,
        contains_commit-remove_first s.revisions c d h,
        contains_commit-same s.revisions c d,
      ))
  | inr e ↦
      rw e (
        ground
          (arith, contains_commit-append s.revisions c d, contains_commit-same s.revisions c d))
]

-- From a selection without two revisions of one identifier, after any toggles a revision is
-- selected exactly where its selection was turned over once for each toggle of its identifier, and
-- still no two revisions have the same identifier.
pub contains-toggle_all :
    (s : SelectedRevisions) (cs : List Commit) (d : Commit)
    → IsDistinct s.revisions
    → (contains (toggle_all s cs) (some d) ≡ turned d cs (contains s (some d)))
      × IsDistinct (toggle_all s cs).revisions
unfolding toggle_all turned
contains-toggle_all s [] d h = (refl, h)
contains-toggle_all s (c ∷ cs) d h =
    rw (← contains-toggle s c d h)
      (contains-toggle_all (toggle s (some c)) cs d (toggle-IsDistinct s c h))
