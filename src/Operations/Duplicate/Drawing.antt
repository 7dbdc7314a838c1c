-- ===== src/Operations/Duplicate/Drawing.antt =====
-- What the duplicate operation draws (`Render` of
-- internal/ui/operations/duplicate/duplicate_operation.go).
use Prim.Native.String.{◌++◌ as append}
use jjui.Jj.Selections.{Commit, SelectedRevisions, contains, get_ids}
use jjui.Operations.{ModeTarget, is_gap, id_of, RenderPosition, is_expected, Drawn, is_at, word_of}
use jjui.Operations.Lines.{
  is_marker, marker_only, on_line, draws_at, has_text, Shown, Shown-drawing, Shown-of,
}
use jjui.Operations.Duplicate.{Operation, Event, new_operation, update}
use jjui.Operations.Duplicate.Choosing.{IsPlaced, machine}
use jjui.Operations.Runs.{run_events, run_events-Refines}
use mathlib.Core.Path.{subst}
use mathlib.Core.Option.{some-injective}
use jjui.Prelude.Texts.{is_empty, join}
use jjui.Prelude.{
  true, not, ◌||◌, ◌≢◌, String, Bool, refl, ◌≡◌, false, ◌&&◌, Option, none, some, List, [], ◌∷◌,
  arith, if◌then◌else◌,
}

-- The marker before the identifier of a revision; here the pointers are tested first.
unfoldable pub marker_of : Operation → Commit → Option String
marker_of r commit = some (
    if contains r.revisions (some commit)
    then "<< duplicate >>"
    else if is_gap r.target && is_at r.insert_start commit
    then "<< after this >>"
    else if is_gap r.target && is_at r.to commit
    then "<< before this >>"
    else "")

abbrev pub gap_line : (insert_start to : Option String) → Operation → Drawn
gap_line none to r = none
gap_line (some start) none r = none
gap_line (some start) (some to) r = some (
    "<< insert >>"
    ∷ " "
    ∷ "duplicate "
    ∷ join " " (get_ids r.revisions)
    ∷ " between "
    ∷ start
    ∷ " and "
    ∷ to
    ∷ [])

unfoldable pub place_line : Operation → Drawn
place_line r =
    let ret = word_of r.target in
    if is_gap r.target then gap_line (id_of r.insert_start) (id_of r.to) r else elim (id_of r.to) [
      | none ↦ none
      | some to ↦ some (
          append "<< " (append ret " >>")
          ∷ " duplicate "
          ∷ join " " (get_ids r.revisions)
          ∷ append " " (append ret " ")
          ∷ to
          ∷ [])
    ]

unfoldable pub render : Operation → Commit → RenderPosition → Drawn
render r commit at =
    if is_marker at
    then marker_only (marker_of r commit)
    else on_line (is_expected r.target at) (is_at r.to commit) (place_line r)

marker_of-some : (r : Operation) (c : Commit) → IsPlaced r → marker_of r c ≢ none
unfolding marker_of
marker_of-some r c h e = ground arith

place_line-some : (r : Operation) → IsPlaced r → place_line r ≢ none
unfolding place_line
place_line-some r h e = ground arith

place_line-text :
    (r : Operation) (parts : List String) → place_line r ≡ some parts → has_text parts ≡ true
unfolding place_line
place_line-text r parts e = ground (arith, e)

text_of_sides :
    (chosen in_gap at_start at_to : Bool)
    → not (
        is_empty (
          if chosen
          then "<< duplicate >>"
          else if in_gap && at_start
          then "<< after this >>"
          else if in_gap && at_to
          then "<< before this >>"
          else ""))
      ≡ (chosen || in_gap && (at_start || at_to))
text_of_sides true in_gap at_start at_to = ground arith
text_of_sides false true true at_to = ground arith
text_of_sides false true false true = refl
text_of_sides false true false false = refl
text_of_sides false false at_start at_to = refl

-- What marks a revision here: it is duplicated, or one of the two sides of a gap.
abbrev pub is_marked : Operation → Commit → Bool
is_marked r c =
    contains r.revisions (some c) || is_gap r.target && (is_at r.insert_start c || is_at r.to c)

marker_of-is_marked :
    (r : Operation) (c : Commit) (marker : String)
    → marker_of r c ≡ some marker
    → not (is_empty marker) ≡ is_marked r c
unfolding marker_of
marker_of-is_marked r c marker e =
    subst (λ t. not (is_empty t) ≡ is_marked r c) (some-injective _ marker e)
      (text_of_sides (contains r.revisions (some c)) (is_gap r.target) (is_at r.insert_start c)
        (is_at r.to c))

-- A duplicate operation that was opened on a revision, with a target other than the gap, is drawn without
-- a panic after any events, at every place of every row. Before an identifier it draws a text exactly
-- where the revision is duplicated or, with the gap as the target, on one of its sides; and elsewhere
-- exactly on the line of the target.
pub run_events-Draws :
    (revisions : SelectedRevisions) (current : Commit) (target : ModeTarget) (es : List Event)
    (commit : Commit) (at : RenderPosition)
    → is_gap target ≡ false
    → (r : Operation) × (run_events update es (new_operation revisions (some current) target)
        ≡ some r)
      × Shown (render r commit at) (draws_at at r.target r.to commit (is_marked r commit))
unfolding new_operation render
run_events-Draws revisions current target es commit at e =
    let (r, ran, placed, plan) =
      run_events-Refines machine es (new_operation revisions (some current) target)
        (ground arith) in
    (
      r,
      ran,
      Shown-drawing (is_marker at) (is_expected r.target at) (is_at r.to commit)
          (is_marked r commit) (marker_of r commit) (place_line r) (marker_of-some r commit placed)
          (marker_of-is_marked r commit)
          (Shown-of (place_line r) (place_line-some r placed) (place_line-text r)),
    )
