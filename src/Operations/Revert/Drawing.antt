-- ===== src/Operations/Revert/Drawing.antt =====
-- What the revert operation draws (`Render` of
-- internal/ui/operations/revert/revert_operation.go).
use Prim.Native.String.{◌++◌ as append}
use jjui.Jj.Selections.{equal, Commit, SelectedRevisions, get_change_id, get_ids}
use jjui.Operations.{
  ModeTarget, is_gap, id_of, RenderPosition, is_expected, Drawn, is_at, word_of, any_is,
  destination, after, before, gap,
}
use jjui.Operations.Lines.{
  is_marker, marker_only, on_line, draws_at, marks, has_text, Shown, Shown-drawing, Shown-of,
}
use jjui.Operations.Revert.{Operation, Event, new_operation, update, set_selected_revision}
use jjui.Operations.Revert.Choosing.{IsPlaced, machine}
use jjui.Operations.Runs.{run_events, run_events-Refines}
use mathlib.Core.Path.{subst}
use mathlib.Core.Option.{some-injective, none-ne-some}
use jjui.Prelude.Texts.{is_empty, join}
use jjui.Prelude.{
  true, not, ◌||◌, ◌≢◌, String, Bool, refl, ◌&&◌, ◌≡◌, false, Option, none, some, List, [], ◌∷◌,
  arith, str_eq, if◌then◌else◌,
}

-- The marker in the gap, if the pointers that are read are not nil.
abbrev pub gap_marker : (insert_start to : Option String) → String → Option String
gap_marker none to id = none
gap_marker (some start) to id = if str_eq start id then some "<< after this >>" else elim to [
  | none ↦ none
  | some target ↦ some (if str_eq target id then "<< before this >>" else "")
]

-- The marker before the identifier of a revision.
unfoldable pub marker_of : Operation → Commit → Option String
marker_of r commit =
    let id = get_change_id commit in
    if any_is r.highlighted_ids id
    then some "<< revert >>"
    else if is_gap r.target
    then gap_marker (id_of r.insert_start) (id_of r.to) id
    else some ""

-- One revision counts as many here.
abbrev pub name_of_source : List Commit → String
name_of_source [] = "revision "
name_of_source (c ∷ cs) = "revisions "

abbrev pub gap_line : (insert_start to : Option String) → Operation → Drawn
gap_line none to r = none
gap_line (some start) none r = none
gap_line (some start) (some to) r = some (
    "<< insert >>"
    ∷ " "
    ∷ name_of_source r.revisions.revisions
    ∷ join " " (get_ids r.revisions)
    ∷ " between "
    ∷ start
    ∷ " and "
    ∷ to
    ∷ [])

unfoldable pub place_line : Operation → Drawn
place_line r =
    let ret = word_of r.target in
    if is_gap r.target then gap_line (id_of r.insert_start) (id_of r.to) r else elim (id_of r.to) [
      | none ↦ none
      | some to ↦ some (
          append "<< " (append ret " >>")
          ∷ " revert "
          ∷ name_of_source r.revisions.revisions
          ∷ join " " (get_ids r.revisions)
          ∷ " "
          ∷ ret
          ∷ " "
          ∷ to
          ∷ [])
    ]

unfoldable pub render : Operation → Commit → RenderPosition → Drawn
render r commit at =
    if is_marker at
    then marker_only (marker_of r commit)
    else on_line (is_expected r.target at) (is_at r.to commit) (place_line r)

marker_of-some : (r : Operation) (c : Commit) → IsPlaced r → marker_of r c ≢ none
unfolding marker_of
marker_of-some r c h e = ground arith

place_line-some : (r : Operation) → IsPlaced r → place_line r ≢ none
unfolding place_line
place_line-some r h e = ground arith

place_line-text :
    (r : Operation) (parts : List String) → place_line r ≡ some parts → has_text parts ≡ true
unfolding place_line
place_line-text r parts e = ground (arith, e)

is_text :
    (text marker : String) (b : Bool)
    → Path (Option String) (some text) (some marker)
    → not (is_empty text) ≡ b
    → not (is_empty marker) ≡ b
is_text text marker b e h = subst (λ t. not (is_empty t) ≡ b) (some-injective text marker e) h

gap_marker-text :
    (at_start at_to : Bool) (marker : String)
    → Path
        (Option String)
        (if at_start
          then some "<< after this >>"
          else some (if at_to then "<< before this >>" else ""))
        (some marker)
    → not (is_empty marker) ≡ (at_start || at_to)
gap_marker-text true at_to marker e = is_text _ marker _ e refl
gap_marker-text false true marker e = is_text _ marker _ e refl
gap_marker-text false false marker e = is_text _ marker _ e refl

none-marker :
    (at_start : Bool) (marker : String)
    → Path (Option String) (if at_start then some "<< after this >>" else none) (some marker)
    → not (is_empty marker) ≡ (at_start || false)
none-marker true marker e = is_text _ marker _ e refl
none-marker false marker e = absurd (none-ne-some marker e)

gap_marker-sides :
    (start to : Option Commit) (c : Commit) (marker : String)
    → gap_marker (id_of start) (id_of to) (get_change_id c) ≡ some marker
    → not (is_empty marker) ≡ (is_at start c || is_at to c)
gap_marker-sides none to c marker e = absurd (none-ne-some marker e)
gap_marker-sides (some start) none c marker e = none-marker _ marker e
gap_marker-sides (some start) (some to) c marker e = gap_marker-text _ _ marker e

marked_text :
    (chosen : Bool) (target : ModeTarget) (start to : Option Commit) (c : Commit) (marker : String)
    → (if chosen
        then some "<< revert >>"
        else if is_gap target
        then gap_marker (id_of start) (id_of to) (get_change_id c)
        else some "")
      ≡ some marker
    → not (is_empty marker) ≡ (chosen || is_gap target && (is_at start c || is_at to c))
marked_text true target start to c marker e = is_text _ marker _ e refl
marked_text false destination start to c marker e = is_text _ marker _ e refl
marked_text false after start to c marker e = is_text _ marker _ e refl
marked_text false before start to c marker e = is_text _ marker _ e refl
marked_text false gap start to c marker e = gap_marker-sides start to c marker e

marker_of-marks :
    (r : Operation) (c : Commit) (marker : String)
    → marker_of r c ≡ some marker
    → not (is_empty marker) ≡ marks r.highlighted_ids r.target r.insert_start r.to c
unfolding marker_of
marker_of-marks r c marker e =
    marked_text (any_is r.highlighted_ids (get_change_id c)) r.target r.insert_start r.to c marker e

-- A revert operation that was opened on a revision, with a target other than the gap, is drawn without
-- a panic after any events, at every place of every row. Before an identifier it draws a text exactly
-- where the revision is highlighted or, with the gap as the target, on one of its sides; and elsewhere
-- exactly on the line of the target.
pub run_events-Draws :
    (revisions : SelectedRevisions) (current : Commit) (target : ModeTarget) (es : List Event)
    (commit : Commit) (at : RenderPosition)
    → is_gap target ≡ false
    → (r : Operation) × (run_events update es (new_operation revisions (some current) target)
        ≡ some r)
      × Shown (render r commit at) (
          draws_at at r.target r.to commit
            (marks r.highlighted_ids r.target r.insert_start r.to commit))
unfolding new_operation render set_selected_revision equal
run_events-Draws revisions current target es commit at e =
    let (r, ran, placed, plan) =
      run_events-Refines machine es (new_operation revisions (some current) target)
        (ground arith) in
    (
      r,
      ran,
      Shown-drawing (is_marker at) (is_expected r.target at) (is_at r.to commit)
          (marks r.highlighted_ids r.target r.insert_start r.to commit) (marker_of r commit)
          (place_line r) (marker_of-some r commit placed) (marker_of-marks r commit)
          (Shown-of (place_line r) (place_line-some r placed) (place_line-text r)),
    )
