-- ===== src/Operations/Duplicate.antt =====
-- The duplicate operation (internal/ui/operations/duplicate/duplicate_operation.go).
pub mod Choosing
pub mod Drawing
use jjui.Jj.Commands.Changes.{duplicate, duplicate_insert}
use jjui.Jj.Selections.{Commit, SelectedRevisions, get_ids, equal, last}
use jjui.Operations.{
  destination, after, before, gap, ModeTarget, is_gap, target_to_flags, close, close_applied,
  start_ace_jump, open_target_picker, refresh_and_select, Effect, nothing, send, run, Handled,
  taken, refused, forget, id_of, SelectedRevision, commit_of, named_or_selected,
}
use mathlib.Core.Path.{subst, fun_ext}
use mathlib.Core.List.{reverse}
use mathlib.Core.Bool.{false≢true}
use jjui.Prelude.{
  ℕ, zero, suc, ◌+◌, ◌-◌, ◌*◌, ◌/◌, ◌%◌, ◌≤◌, ◌<◌, min, max, String, ◌≡◌, refl, sym, ap, ◌∙◌, ◌≢◌,
  ◌↔◌, ◌⊎◌, inl, inr, Bool, true, false, not, ◌&&◌, ◌||◌, Option, none, some, Memᴰ, List, [], ◌∷◌,
  ◌++◌, map, arith, str_eq, eq_iff, eq_refl, ltb, leb, ◌==◌, ==_iff, if◌then◌else◌, ltb→lt, lt→ltb,
  leb→le, tests, Bool-cases, Option-cases, length, get_elem?, take, drop, replicate, keep, any, All,
  length-append, length-replicate, All-append, All-keep, All-map, All-both, All-reverse,
  split_reverse, of-mem-keep, mem-keep,
}
use jjui.Prelude.Int.{
  ℤ, pos, negsuc, pos_part, neg_part, sub_ℕ, ◌+ℤ◌, ◌-ℤ◌, ◌≤ℤ◌, ◌<ℤ◌, ltb_ℤ, leb_ℤ, min_ℤ, max_ℤ,
  half_ℤ, +ℤ_parts, -ℤ_parts, eq_of_parts, min_ℤ_le, le-max_ℤ, int_laws,
}
use jjui.Prelude.Maps.{Map, lookup, insert, delete, lookup-insert, lookup-delete}
use jjui.Prelude.Texts.{trim_space, is_empty, is_space, join, join_onto, itoa, split_lines}

pub record Operation : Type 0 where
  pub revisions : SelectedRevisions
  pub insert_start : Option Commit
  pub to : Option Commit
  pub target : ModeTarget
  pub target_name : String

pub data Intent : Type 0 where
  ace_jump open_picker cancel other_intent : Intent
  set_target : ModeTarget → Intent
  apply : (force : Bool) → Intent

pub data Event : Type 0 where
  target_selected : String → (force : Bool) → Event
  -- `none` is a selected item that is no revision.
  selection_changed : Option SelectedRevision → Event
  intent : Intent → Event
  other_event : Event

abbrev pub target_arg : Operation → String
target_arg r = named_or_selected r.target_name r.to

-- The command of `Apply`, if the pointers that it reads are not nil.
unfoldable pub apply_args : Operation → Option (List String)
apply_args r =
    if is_gap r.target
    then elim (id_of r.insert_start) [
      | none ↦ none
      | some insert_after ↦ some (duplicate_insert r.revisions insert_after (target_arg r))
    ]
    else some (duplicate r.revisions (target_arg r) (target_to_flags r.target))

abbrev pub apply_with : Option (List String) → Operation → Handled Operation
apply_with none r = none
apply_with (some args) r =
    taken r (run args (refresh_and_select (last r.revisions) ∷ close_applied ∷ []))

unfoldable pub handle_intent : Intent → Operation → Handled Operation
handle_intent ace_jump r = taken r (send start_ace_jump)
handle_intent (set_target target) r =
    taken
      (record r { target = target; insert_start = if is_gap target then r.to else r.insert_start })
      nothing
handle_intent open_picker r = taken r (send open_target_picker)
handle_intent (apply force) r = apply_with (apply_args r) r
handle_intent cancel r = taken r (send close)
handle_intent other_intent r = refused r

unfoldable pub set_selected_revision : Option Commit → Operation → Operation
set_selected_revision commit r = if equal r.to commit then r else record r { to = commit }

unfoldable pub update : Event → Operation → Option (Operation × Effect)
update (target_selected target force) r =
    forget (handle_intent (apply force) (record r { target_name = trim_space target }))
update (selection_changed none) r = some (r, nothing)
update (selection_changed (some selected)) r =
    some (set_selected_revision (some (commit_of selected)) r, nothing)
update (intent i) r = forget (handle_intent i r)
update other_event r = some (r, nothing)

unfoldable pub new_operation : SelectedRevisions → Option Commit → ModeTarget → Operation
new_operation revisions current target = record {
  revisions = revisions;
  insert_start = none;
  to = current;
  target = target;
  target_name = "";
}
