-- ===== src/Operations/Rebase/Drawing.antt =====
-- What the rebase operation draws (`Render` of internal/ui/operations/rebase/rebase_operation.go).
use Prim.Native.String.{◌++◌ as append}
use jjui.Jj.Selections.{Commit, SelectedRevisions, get_change_id, get_ids}
use jjui.Operations.{
  ModeTarget, is_gap, id_of, RenderPosition, is_expected, Drawn, is_at, word_of, any_is,
}
use jjui.Operations.Lines.{
  is_marker, marker_only, on_line, draws_at, marks, has_text, Shown, Shown-drawing, Shown-of,
}
use jjui.Operations.Runs.{run_events, run_events-Refines}
use jjui.Operations.Rebase.{
  Source, source_revision, source_branch, source_descendants, Operation, Event, new_operation,
  update,
}
use jjui.Operations.Rebase.Choosing.{IsPlaced, machine}
use mathlib.Core.Path.{subst}
use mathlib.Core.Option.{some-injective, none-ne-some}
use jjui.Operations.{destination, after, before, gap}
use jjui.Prelude.{
  true, ◌||◌, refl, String, ◌≡◌, ◌≢◌, Bool, false, not, ◌&&◌, Option, none, some, List, [], ◌∷◌,
  arith, str_eq, if◌then◌else◌,
}
use jjui.Prelude.Texts.{is_empty, join}

abbrev pub with_skipping : Bool → String → String
with_skipping skips marker =
    if skips && not (is_empty marker) then append marker " (skip emptied)" else marker

-- The marker in the gap, if neither pointer is nil.
abbrev pub gap_marker : (insert_start to : Option String) → String → String → Option String
gap_marker none to id marker = none
gap_marker (some start) none id marker = none
gap_marker (some start) (some to) id marker = some (
    if str_eq to id
    then "<< before this >>"
    else if str_eq start id
    then "<< after this >>"
    else marker)

-- The marker before the identifier of a revision.
unfoldable pub marker_of : Operation → String → Option String
marker_of r id =
    let moves = if any_is r.highlighted_ids id then "<< move >>" else "" in
    let marked =
      if is_gap r.target
      then gap_marker (id_of r.insert_start) (id_of r.to) id moves
      else some moves in
    elim marked [ none ↦ none | some marker ↦ some (with_skipping r.skip_emptied marker) ]

-- One revision counts as many here.
unfoldable pub name_of_source : Source → List Commit → String
name_of_source source_branch [] = "branch of "
name_of_source source_branch (c ∷ cs) = "branches of "
name_of_source source_descendants [] = "itself and descendants of "
name_of_source source_descendants (c ∷ cs) = "itself and descendants of each "
name_of_source source_revision [] = "revision "
name_of_source source_revision (c ∷ cs) = "revisions "

abbrev pub gap_line : (insert_start to : Option String) → Operation → Drawn
gap_line none to r = none
gap_line (some start) none r = none
gap_line (some start) (some to) r = some (
    "<< insert >>"
    ∷ " "
    ∷ name_of_source r.source r.revisions.revisions
    ∷ join " " (get_ids r.revisions)
    ∷ " between "
    ∷ start
    ∷ " and "
    ∷ to
    ∷ [])

unfoldable pub place_line : Operation → Drawn
place_line r =
    let ret = word_of r.target in
    if is_gap r.target then gap_line (id_of r.insert_start) (id_of r.to) r else elim (id_of r.to) [
      | none ↦ none
      | some to ↦ some (
          append "<< " (append ret " >>")
          ∷ " rebase "
          ∷ name_of_source r.source r.revisions.revisions
          ∷ join " " (get_ids r.revisions)
          ∷ " "
          ∷ ret
          ∷ " "
          ∷ to
          ∷ [])
    ]

unfoldable pub render : Operation → Commit → RenderPosition → Drawn
render r commit at =
    if is_marker at
    then marker_only (marker_of r (get_change_id commit))
    else on_line (is_expected r.target at) (is_at r.to commit) (place_line r)

marker_of-some : (r : Operation) (id : String) → IsPlaced r → marker_of r id ≢ none
unfolding marker_of
marker_of-some r id h e = ground arith

place_line-some : (r : Operation) → IsPlaced r → place_line r ≢ none
unfolding place_line
place_line-some r h e = ground arith

place_line-text :
    (r : Operation) (parts : List String) → place_line r ≡ some parts → has_text parts ≡ true
unfolding place_line
place_line-text r parts e = ground (arith, e)

skipping-text :
    (skips moves at_start at_to : Bool)
    → not (
        is_empty (
          with_skipping skips (
            if at_to
            then "<< before this >>"
            else if at_start
            then "<< after this >>"
            else if moves
            then "<< move >>"
            else "")))
      ≡ (moves || (at_start || at_to))
skipping-text true moves at_start true = ground arith
skipping-text true moves true false = ground arith
skipping-text true true false false = refl
skipping-text true false false false = refl
skipping-text false moves at_start true = ground arith
skipping-text false moves true false = ground arith
skipping-text false true false false = refl
skipping-text false false false false = refl

is_text :
    (text marker : String) (b : Bool)
    → Path (Option String) (some text) (some marker)
    → not (is_empty text) ≡ b
    → not (is_empty marker) ≡ b
is_text text marker b e h = subst (λ t. not (is_empty t) ≡ b) (some-injective text marker e) h

marked_text :
    (skips moves : Bool) (target : ModeTarget) (start to : Option Commit) (c : Commit)
    (marker : String)
    → (elim (if is_gap target
          then gap_marker
              (id_of start)
              (id_of to)
              (get_change_id c)
              (if moves then "<< move >>" else "")
          else some (if moves then "<< move >>" else ""))
        as (λ o. Option String) [ none ↦ none | some text ↦ some (with_skipping skips text) ])
      ≡ some marker
    → not (is_empty marker) ≡ (moves || is_gap target && (is_at start c || is_at to c))
marked_text skips moves destination start to c marker e =
    is_text _ marker _ e (skipping-text skips moves false false)
marked_text skips moves after start to c marker e =
    is_text _ marker _ e (skipping-text skips moves false false)
marked_text skips moves before start to c marker e =
    is_text _ marker _ e (skipping-text skips moves false false)
marked_text skips moves gap none to c marker e = absurd (none-ne-some marker e)
marked_text skips moves gap (some start) none c marker e = absurd (none-ne-some marker e)
marked_text skips moves gap (some start) (some to) c marker e = is_text _ marker _ e (
    skipping-text skips moves (str_eq (get_change_id start) (get_change_id c))
      (str_eq (get_change_id to) (get_change_id c)))

marker_of-marks :
    (r : Operation) (c : Commit) (marker : String)
    → marker_of r (get_change_id c) ≡ some marker
    → not (is_empty marker) ≡ marks r.highlighted_ids r.target r.insert_start r.to c
unfolding marker_of
marker_of-marks r c marker e =
    marked_text r.skip_emptied (any_is r.highlighted_ids (get_change_id c)) r.target r.insert_start
      r.to c marker e

-- A rebase that was opened on a revision, with a target other than the gap, is drawn without a panic
-- after any events, at every place of every row. Before an identifier it draws a text exactly where
-- the revision is highlighted or, with the gap as the target, on one of its sides; and elsewhere
-- exactly on the line of the target.
pub run_events-Draws :
    (revisions : SelectedRevisions) (current : Commit) (source : Source) (target : ModeTarget)
    (es : List Event) (commit : Commit) (at : RenderPosition)
    → is_gap target ≡ false
    → (r : Operation) × (run_events update es (new_operation revisions (some current) source target)
        ≡ some r)
      × Shown (render r commit at) (
          draws_at at r.target r.to commit
            (marks r.highlighted_ids r.target r.insert_start r.to commit))
unfolding new_operation render
run_events-Draws revisions current source target es commit at e =
    let (r, ran, placed, plan) =
      run_events-Refines machine es (new_operation revisions (some current) source target)
        (ground arith) in
    (
      r,
      ran,
      Shown-drawing (is_marker at) (is_expected r.target at) (is_at r.to commit)
          (marks r.highlighted_ids r.target r.insert_start r.to commit)
          (marker_of r (get_change_id commit)) (place_line r)
          (marker_of-some r (get_change_id commit) placed) (marker_of-marks r commit)
          (Shown-of (place_line r) (place_line-some r placed) (place_line-text r)),
    )
