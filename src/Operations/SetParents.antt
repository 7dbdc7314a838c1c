-- ===== src/Operations/SetParents.antt =====
-- The operation that sets the parents of a revision
-- (internal/ui/operations/set_parents/set_parents_operation.go).
pub mod Unique
pub mod Parents
use jjui.Jj.Commands.Changes.{set_parents}
use jjui.Jj.Selections.{Commit, get_change_id, equal}
use jjui.Operations.{
  close, close_applied, start_ace_jump, refresh_and_select, Effect, nothing, send, run, Handled,
  taken, refused, forget, SelectedRevision, commit_of, RenderPosition, any_is,
}
use jjui.Operations.Absorb.{is_on, toggle_target, keys}
use jjui.Operations.Lines.{is_marker}
use mathlib.Core.Path.{subst, fun_ext}
use mathlib.Core.List.{reverse}
use mathlib.Core.Bool.{false≢true}
use jjui.Prelude.{
  ℕ, zero, suc, ◌+◌, ◌-◌, ◌*◌, ◌/◌, ◌%◌, ◌≤◌, ◌<◌, min, max, String, ◌≡◌, refl, sym, ap, ◌∙◌, ◌≢◌,
  ◌↔◌, ◌⊎◌, inl, inr, Bool, true, false, not, ◌&&◌, ◌||◌, Option, none, some, Memᴰ, List, [], ◌∷◌,
  ◌++◌, map, arith, str_eq, eq_iff, eq_refl, ltb, leb, ◌==◌, ==_iff, if◌then◌else◌, ltb→lt, lt→ltb,
  leb→le, tests, Bool-cases, Option-cases, length, get_elem?, take, drop, replicate, keep, any, All,
  length-append, length-replicate, All-append, All-keep, All-map, All-both, All-reverse,
  split_reverse, of-mem-keep, mem-keep,
}
use jjui.Prelude.Int.{
  ℤ, pos, negsuc, pos_part, neg_part, sub_ℕ, ◌+ℤ◌, ◌-ℤ◌, ◌≤ℤ◌, ◌<ℤ◌, ltb_ℤ, leb_ℤ, min_ℤ, max_ℤ,
  half_ℤ, +ℤ_parts, -ℤ_parts, eq_of_parts, min_ℤ_le, le-max_ℤ, int_laws,
}
use jjui.Prelude.Maps.{Map, lookup, insert, delete, lookup-insert, lookup-delete}
use jjui.Prelude.Texts.{trim_space, is_empty, is_space, join, join_onto, itoa, split_lines}

pub record Model : Type 0 where
  pub target : Commit
  pub current : Option Commit
  pub to_remove : Map Bool
  pub to_add : List String
  pub parents : List String

pub data Intent : Type 0 where
  ace_jump toggle_select apply cancel other_intent : Intent

pub data Event : Type 0 where
  intent : Intent → Event
  -- `none` is a selected item that is no revision.
  selection_changed : Option SelectedRevision → Event
  other_event : Event

unfoldable pub set_selected_revision : Option Commit → Model → Model
set_selected_revision commit m = if equal m.current commit then m else record m { current = commit }

-- `slices.Index` and the two slices.
unfoldable pub drop_first : String → List String → List String
drop_first id [] = []
drop_first id (s ∷ ss) = let rest = drop_first id ss in if str_eq s id then ss else s ∷ rest

unfoldable pub toggle_added : String → List String → List String
toggle_added id ids = if any_is ids id then drop_first id ids else ids ++ id ∷ []

abbrev pub toggle_removed : String → Map Bool → Map Bool
toggle_removed id m = toggle_target id m

-- The current revision is read also where it is nil.
unfoldable pub toggle_current : Option Commit → Model → Handled Model
toggle_current none m = none
toggle_current (some c) m =
    let id = get_change_id c in
    if str_eq id (get_change_id m.target)
    then taken m nothing
    else if any_is m.parents c.commit_id
    then taken (record m { to_remove = toggle_removed id m.to_remove }) nothing
    else taken (record m { to_add = toggle_added id m.to_add }) nothing

abbrev pub is_nil {ℓ} : {A : Type ℓ} → List A → Bool
is_nil [] = true
is_nil (a ∷ as_) = false

-- The removed parents are in the order of the map.
unfoldable pub handle_intent : Intent → Model → Handled Model
handle_intent ace_jump m = taken m (send start_ace_jump)
handle_intent toggle_select m = toggle_current m.current m
handle_intent apply m =
    let target = get_change_id m.target in
    if is_nil m.to_add && is_nil m.to_remove
    then taken m (send close)
    else taken m (
        run (set_parents target m.to_add (keys m.to_remove))
          (refresh_and_select target ∷ close_applied ∷ []))
handle_intent cancel m = taken m (send close)
handle_intent other_intent m = refused m

unfoldable pub update : Event → Model → Option (Model × Effect)
update (intent i) m = forget (handle_intent i m)
update (selection_changed none) m = some (m, nothing)
update (selection_changed (some selected)) m =
    some (set_selected_revision (some (commit_of selected)) m, nothing)
update other_event m = some (m, nothing)

-- The marker before the identifier of a revision.
unfoldable pub render : Model → Commit → RenderPosition → String
render m commit at =
    let id = get_change_id commit in
    if not (is_marker at)
    then ""
    else if any_is m.to_add id
    then "<< add >>"
    else if is_on id m.to_remove
    then "<< remove >>"
    else if any_is m.parents commit.commit_id
    then "<< parent >>"
    else if str_eq id (get_change_id m.target)
    then "<< to >>"
    else ""

-- The parents are the fields of the answer of jj.
unfoldable pub new_model : List String → Commit → Option Commit → Model
new_model parents to current = record {
  target = to;
  current = current;
  to_remove = [];
  to_add = [];
  parents = parents;
}
