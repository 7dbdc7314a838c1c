-- ===== src/Operations/Abandon/Selecting.antt =====
-- The selections of the abandon operation against a map from identifiers
-- (internal/ui/operations/abandon/abandon.go).
use jjui.Jj.Commands.Changes.{abandon}
use jjui.Jj.Selections.{Commit, SelectedRevisions, get_change_id, equal}
use jjui.Operations.{
  Effect, nothing, send, close, start_ace_jump, run, refresh, close_applied, taken,
  SelectedRevision, commit_of, before_change_id,
}
use jjui.Operations.Abandon.{
  SelectionType, revision, descendants, is_type, Selections, Operation, ace_jump, toggle_select,
  select_descendants, cancel, other_intent, apply, Event, intent, selection_changed, add_selection,
  other_event, toggle_selection, has, refresh_selected_revisions, revset, picks, is_nil,
  handle_intent, set_selected_revision, update, render, selection_items, new_operation,
}
use jjui.Operations.Moving.{text_of, text_of-equal}
use jjui.Operations.Runs.{Machine, run_events, planned_all, run_events-Refines}
use mathlib.Core.Path.{fun_ext}
use jjui.Prelude.{
  String, ◌≡◌, refl, ap, ◌∙◌, inl, inr, Bool, not, ◌&&◌, Option, none, some, List, [], ◌∷◌, arith,
  str_eq, eq_iff, if◌then◌else◌, Bool-cases, Option-cases, any,
}
use jjui.Prelude.Maps.{lookup, insert, lookup-insert, lookup-delete}
use jjui.Prelude.Texts.{is_empty}

-- What the user has picked, by identifier, and what is under the cursor.
pub record Plan : Type 0 where
  pub selected : String
  pub picked : String → Option SelectionType

-- A type that is picked again is off, and another one takes its place.
abbrev pub flip : SelectionType → Option SelectionType → Option SelectionType
flip t none = some t
flip t (some existing) = if is_type existing t then none else some t

abbrev pub pick : SelectionType → Plan → Plan
pick t p = record p {
  picked = λ id.
      if is_empty p.selected
      then p.picked id
      else if str_eq p.selected id
      then flip t (p.picked p.selected)
      else p.picked id;
}

abbrev pub planned : Event → Plan → Plan
planned (selection_changed (some s)) p = record p { selected = s.change_id }
planned (intent toggle_select) p = pick revision p
planned (intent select_descendants) p = pick descendants p
planned _ p = p

abbrev pub plan_of : Operation → Plan
plan_of s = record { selected = text_of s.current; picked = λ id. lookup id s.selections }

lookup-toggle_selection :
    (id asked : String) (t : SelectionType) (items : Selections)
    → lookup asked (toggle_selection id t items) ≡ (
        if is_empty id
        then lookup asked items
        else if str_eq id asked
        then flip t (lookup id items)
        else lookup asked items)
unfolding toggle_selection
lookup-toggle_selection id asked t items = elim (Bool-cases (is_empty id)) [
  | inl e ↦ rw e refl
  | inr e ↦ rw e (elim (Option-cases (lookup id items)) [
    | inl f ↦ rw f (lookup-insert id asked t items)
    | inr (existing, f) ↦ rw f (elim (Bool-cases (is_type existing t)) [
      | inl g ↦ rw g (lookup-delete id asked items)
      | inr g ↦ rw g (lookup-insert id asked t items)
    ])
  ])
]

refresh_selections :
    (s : Operation)
    → ((refresh_selected_revisions s).0.selections ≡ s.selections)
      × ((refresh_selected_revisions s).0.current ≡ s.current)
unfolding refresh_selected_revisions
refresh_selections s = elim (Bool-cases (is_empty (revset s.selections))) [
  | inl e ↦ rw e (refl, refl)
  | inr e ↦ rw e (refl, refl)
]

abbrev pub Steps : Option (Operation × Effect) → Plan → Type 0
Steps o p = (t : Operation) × (eff : Effect) × (o ≡ some (t, eff)) × Unit {0} × (plan_of t ≡ p)

Plan-eq :
    (p q : Plan) → p.selected ≡ q.selected → ((id : String) → p.picked id ≡ q.picked id) → p ≡ q
Plan-eq p q e f =
    ap (λ k. record p { selected = k }) e
    ∙ ap (λ k. record { selected = q.selected; picked = k }) (fun_ext f)

Steps-picks :
    (t : SelectionType) (c : Option Commit) (s : Operation)
    → s.current ≡ c
    → (next : Operation) × (eff : Effect) × (picks t c s ≡ taken next eff)
      × (plan_of next ≡ pick t (plan_of s))
Steps-picks t none s e =
    (s, nothing, refl, Plan-eq (plan_of s) (pick t (plan_of s)) refl (λ id. rw e refl))
Steps-picks t (some c) s e =
    let on = record s { selections = toggle_selection (get_change_id c) t s.selections } in
    let next = refresh_selected_revisions on in
    let (items, cursor) = refresh_selections on in
    (
      next.0,
      next.1,
      refl,
      Plan-eq (plan_of next.0) (pick t (plan_of s)) (ap text_of cursor) (λ id.
          ap (lookup id) items
          ∙ lookup-toggle_selection (get_change_id c) id t s.selections
          ∙ rw e refl),
    )

Steps-selection_changed :
    (s : SelectedRevision) (r : Operation)
    → Steps (update (selection_changed (some s)) r) (record (plan_of r) { selected = s.change_id })
unfolding update set_selected_revision get_change_id
Steps-selection_changed s r = elim (Bool-cases (equal r.current (some (commit_of s)))) [
  | inl e ↦ (
    r,
    nothing,
    rw e refl,
    tt,
    ap (λ k. record (plan_of r) { selected = k }) (text_of-equal r.current s e),
  )
  | inr e ↦ (record r { current = some (commit_of s) }, nothing, rw e refl, tt, refl)
]

Steps-apply : (force : Bool) (s : Operation) → Steps (update (intent (apply force)) s) (plan_of s)
unfolding update handle_intent
Steps-apply force s = elim (Bool-cases (is_nil s.selected_revisions.revisions)) [
  | inl e ↦ (s, nothing, rw e refl, tt, refl)
  | inr e ↦ (
    s,
    run (abandon s.selected_revisions force) (refresh ∷ close_applied ∷ []),
    rw e refl,
    tt,
    refl,
  )
]

pub Steps-update :
    (e : Event) (s : Operation) → Unit {0} → Steps (update e s) (planned e (plan_of s))
unfolding update handle_intent
Steps-update (selection_changed none) s h = (s, nothing, refl, tt, refl)
Steps-update (selection_changed (some r)) s h = Steps-selection_changed r s
Steps-update (add_selection revisions) s h =
    (record s { selected_revisions = revisions }, nothing, refl, tt, refl)
Steps-update (intent ace_jump) s h = (s, send start_ace_jump, refl, tt, refl)
Steps-update (intent (apply force)) s h = Steps-apply force s
Steps-update (intent toggle_select) s h =
    let (next, eff, e, plan) = Steps-picks revision s.current s refl in
    (next, eff, rw e refl, tt, plan)
Steps-update (intent select_descendants) s h =
    let (next, eff, e, plan) = Steps-picks descendants s.current s refl in
    (next, eff, rw e refl, tt, plan)
Steps-update (intent cancel) s h = (s, send close, refl, tt, refl)
Steps-update (intent other_intent) s h = (s, nothing, refl, tt, refl)
Steps-update other_event s h = (s, nothing, refl, tt, refl)

-- The operation as a machine.
abbrev pub machine : Machine Operation Event Effect Plan
machine = record {
  update = update;
  IsReady = λ s. Unit {0};
  plan_of = plan_of;
  planned = planned;
  leads = Steps-update;
}

abbrev pub marker_of : Option SelectionType → String
marker_of none = ""
marker_of (some revision) = "<< abandon >>"
marker_of (some descendants) = "<< abandon descendants of >>"

render-marker_of :
    (s : Operation) (c : Commit)
    → render s c before_change_id ≡ marker_of (lookup (get_change_id c) s.selections)
unfolding render has
render-marker_of s c = elim (Option-cases (lookup (get_change_id c) s.selections)) [
  | inl e ↦ rw (render, has, e) refl
  | inr (revision, e) ↦ rw (render, has, e) refl
  | inr (descendants, e) ↦ rw (render, has, e) refl
]

lookup-selection_items :
    (cs : List Commit) (items : Selections) (id : String)
    → lookup id (selection_items cs items) ≡ (
        if not (is_empty id) && any (λ c. str_eq (get_change_id c) id) cs
        then some revision
        else lookup id items)
unfolding selection_items
lookup-selection_items [] items id = ground arith
lookup-selection_items (c ∷ cs) items id = elim (Bool-cases (is_empty (get_change_id c))) [
  | inl e ↦
      rw (e, lookup-selection_items cs items id)
        (ground (arith, eq_iff (get_change_id c) id, eq_iff (get_change_id c) "", eq_iff id ""))
  | inr e ↦
      rw
        (
          e,
          lookup-selection_items cs (insert (get_change_id c) revision items) id,
          lookup-insert (get_change_id c) id revision items,
        )
        (ground (arith, eq_iff (get_change_id c) id, eq_iff (get_change_id c) "", eq_iff id ""))
]

-- The plan of a new operation: the selected revisions are picked.
abbrev pub first_plan : SelectedRevisions → Option Commit → Plan
first_plan selected current = record {
  selected = text_of current;
  picked = λ id.
      if not (is_empty id) && any (λ c. str_eq (get_change_id c) id) selected.revisions
      then some revision
      else none;
}

-- Whatever the user does, the markers of an abandon operation are where the choices come to: first at
-- the selected revisions, then each choice of a revision or of its descendants turns the same choice
-- off, replaces the other one, and touches no other revision.
pub run_events-marker_of :
    (selected : SelectedRevisions) (current : Option Commit) (es : List Event) (c : Commit)
    → (s : Operation) × (run_events update es (new_operation selected current) ≡ some s)
      × (render s c before_change_id
          ≡ marker_of
              ((planned_all planned es (first_plan selected current)).picked (get_change_id c)))
unfolding new_operation lookup
run_events-marker_of selected current es c =
    let (s, at, ready, plan) = run_events-Refines machine es (new_operation selected current) tt in
    let first =
      Plan-eq (plan_of (new_operation selected current)) (first_plan selected current) refl
        (lookup-selection_items selected.revisions []) in
    (
      s,
      at,
      render-marker_of s c
          ∙ ap (λ p. marker_of (p.picked (get_change_id c)))
              (plan ∙ ap (planned_all planned es) first),
    )
