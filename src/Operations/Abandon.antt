-- ===== src/Operations/Abandon.antt =====
-- The abandon operation (internal/ui/operations/abandon/abandon.go). The answer of jj to the query for
-- the selected revisions is an event of its own.
pub mod Selecting
use Prim.Native.String.{◌++◌ as append}
use jjui.Jj.Commands.Changes.{abandon}
use jjui.Jj.Commands.Queries.{get_ids_from_revset}
use jjui.Jj.Selections.{
  Commit, SelectedRevisions, get_change_id, equal, new_selected_revisions, contains,
}
use jjui.Operations.{
  close, close_applied, refresh, start_ace_jump, Effect, nothing, send, run, look_up, Handled,
  taken, refused, forget, SelectedRevision, commit_of, RenderPosition,
}
use jjui.Operations.Lines.{is_marker}
use mathlib.Core.Path.{subst, fun_ext}
use mathlib.Core.List.{reverse}
use mathlib.Core.Bool.{false≢true}
use jjui.Prelude.{
  ℕ, zero, suc, ◌+◌, ◌-◌, ◌*◌, ◌/◌, ◌%◌, ◌≤◌, ◌<◌, min, max, String, ◌≡◌, refl, sym, ap, ◌∙◌, ◌≢◌,
  ◌↔◌, ◌⊎◌, inl, inr, Bool, true, false, not, ◌&&◌, ◌||◌, Option, none, some, Memᴰ, List, [], ◌∷◌,
  ◌++◌, map, arith, str_eq, eq_iff, eq_refl, ltb, leb, ◌==◌, ==_iff, if◌then◌else◌, ltb→lt, lt→ltb,
  leb→le, tests, Bool-cases, Option-cases, length, get_elem?, take, drop, replicate, keep, any, All,
  length-append, length-replicate, All-append, All-keep, All-map, All-both, All-reverse,
  split_reverse, of-mem-keep, mem-keep,
}
use jjui.Prelude.Int.{
  ℤ, pos, negsuc, pos_part, neg_part, sub_ℕ, ◌+ℤ◌, ◌-ℤ◌, ◌≤ℤ◌, ◌<ℤ◌, ltb_ℤ, leb_ℤ, min_ℤ, max_ℤ,
  half_ℤ, +ℤ_parts, -ℤ_parts, eq_of_parts, min_ℤ_le, le-max_ℤ, int_laws,
}
use jjui.Prelude.Maps.{Map, lookup, insert, delete, lookup-insert, lookup-delete}
use jjui.Prelude.Texts.{trim_space, is_empty, is_space, join, join_onto, itoa, split_lines}

pub data SelectionType : Type 0 where
  revision descendants : SelectionType

abbrev pub is_type : SelectionType → SelectionType → Bool
is_type revision revision = true
is_type descendants descendants = true
is_type _ _ = false

abbrev pub Selections : Type 0
Selections = Map SelectionType

pub record Operation : Type 0 where
  pub selected_revisions : SelectedRevisions
  pub selections : Selections
  pub current : Option Commit

pub data Intent : Type 0 where
  ace_jump toggle_select select_descendants cancel other_intent : Intent
  apply : (force : Bool) → Intent

pub data Event : Type 0 where
  intent : Intent → Event
  -- `none` is a selected item that is no revision.
  selection_changed : Option SelectedRevision → Event
  add_selection : SelectedRevisions → Event
  other_event : Event

unfoldable pub toggle_selection : String → SelectionType → Selections → Selections
toggle_selection id t items = if is_empty id then items else elim (lookup id items) [
  | none ↦ insert id t items
  | some existing ↦ if is_type existing t then delete id items else insert id t items
]

abbrev pub part_of : String → SelectionType → String
part_of id revision = id
part_of id descendants = append id "::"

-- The parts of the revset, in the order of the map.
unfoldable pub revset_parts : Selections → List String
revset_parts [] = []
revset_parts ((id, t) ∷ items) =
    let rest = revset_parts items in if is_empty id then rest else part_of id t ∷ rest

unfoldable pub revset : Selections → String
revset items = join " | " (revset_parts items)

unfoldable pub has : String → SelectionType → Selections → Bool
has id t items = elim (lookup id items) [ none ↦ false | some selected ↦ is_type selected t ]

abbrev pub commit_with : String → Commit
commit_with id = commit_of (record { change_id = id; commit_id = "" })

unfoldable pub selected_revisions_from_output : String → SelectedRevisions
selected_revisions_from_output output =
    let trimmed = trim_space output in
    if is_empty trimmed
    then new_selected_revisions []
    else new_selected_revisions (map (λ id. some (commit_with id)) (split_lines trimmed))

unfoldable pub refresh_selected_revisions : Operation → Operation × Effect
refresh_selected_revisions s =
    let asked = revset s.selections in
    if is_empty asked
    then (record s { selected_revisions = new_selected_revisions [] }, nothing)
    else (s, look_up (get_ids_from_revset asked))

abbrev pub picks : SelectionType → Option Commit → Operation → Handled Operation
picks t none s = taken s nothing
picks t (some c) s =
    let next =
      refresh_selected_revisions
        (record s { selections = toggle_selection (get_change_id c) t s.selections }) in
    taken next.0 next.1

abbrev pub is_nil : List Commit → Bool
is_nil [] = true
is_nil (c ∷ cs) = false

unfoldable pub handle_intent : Intent → Operation → Handled Operation
handle_intent ace_jump s = taken s (send start_ace_jump)
handle_intent (apply force) s =
    if is_nil s.selected_revisions.revisions
    then taken s nothing
    else taken s (run (abandon s.selected_revisions force) (refresh ∷ close_applied ∷ []))
handle_intent toggle_select s = picks revision s.current s
handle_intent select_descendants s = picks descendants s.current s
handle_intent cancel s = taken s (send close)
handle_intent other_intent s = refused s

unfoldable pub set_selected_revision : Option Commit → Operation → Operation
set_selected_revision commit s = if equal s.current commit then s else record s { current = commit }

unfoldable pub update : Event → Operation → Option (Operation × Effect)
update (intent i) s = forget (handle_intent i s)
update (selection_changed none) s = some (s, nothing)
update (selection_changed (some selected)) s =
    some (set_selected_revision (some (commit_of selected)) s, nothing)
update (add_selection revisions) s = some (record s { selected_revisions = revisions }, nothing)
update other_event s = some (s, nothing)

-- The marker before the identifier of a revision.
unfoldable pub render : Operation → Commit → RenderPosition → String
render s commit at =
    if not (is_marker at)
    then ""
    else if has (get_change_id commit) descendants s.selections
    then "<< abandon descendants of >>"
    else if has (get_change_id commit) revision s.selections
    then "<< abandon >>"
    else ""

-- Whether the text of a row is struck through.
unfoldable pub strikes : Operation → Option Commit → Bool
strikes s none = false
strikes s (some c) = contains s.selected_revisions (some c)

-- The loop over the revisions.
unfoldable pub selection_items : List Commit → Selections → Selections
selection_items [] items = items
selection_items (c ∷ cs) items =
    selection_items cs
      (if is_empty (get_change_id c) then items else insert (get_change_id c) revision items)

unfoldable pub new_operation : SelectedRevisions → Option Commit → Operation
new_operation selected current = record {
  selected_revisions = selected;
  selections = selection_items selected.revisions [];
  current = current;
}
