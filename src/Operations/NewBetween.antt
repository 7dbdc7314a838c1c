-- ===== src/Operations/NewBetween.antt =====
-- The operation for a new revision between others
-- (internal/ui/operations/new_between/new_between_operation.go).
pub mod Placing
use jjui.Jj.Commands.Changes.{new, new_insert}
use jjui.Jj.Selections.{
  Commit, SelectedRevisions, equal_commits, new_selected_revisions, contains, toggle,
}
use jjui.Operations.{
  close, refresh_and_select, Effect, nothing, send, run, sequence, Handled, taken, refused, forget,
  SelectedRevision, commit_of, RenderPosition, is_at,
}
use jjui.Operations.Lines.{is_marker}
use mathlib.Core.Path.{subst, fun_ext}
use mathlib.Core.List.{reverse}
use mathlib.Core.Bool.{false≢true}
use jjui.Prelude.{
  ℕ, zero, suc, ◌+◌, ◌-◌, ◌*◌, ◌/◌, ◌%◌, ◌≤◌, ◌<◌, min, max, String, ◌≡◌, refl, sym, ap, ◌∙◌, ◌≢◌,
  ◌↔◌, ◌⊎◌, inl, inr, Bool, true, false, not, ◌&&◌, ◌||◌, Option, none, some, Memᴰ, List, [], ◌∷◌,
  ◌++◌, map, arith, str_eq, eq_iff, eq_refl, ltb, leb, ◌==◌, ==_iff, if◌then◌else◌, ltb→lt, lt→ltb,
  leb→le, tests, Bool-cases, Option-cases, length, get_elem?, take, drop, replicate, keep, any, All,
  length-append, length-replicate, All-append, All-keep, All-map, All-both, All-reverse,
  split_reverse, of-mem-keep, mem-keep,
}
use jjui.Prelude.Int.{
  ℤ, pos, negsuc, pos_part, neg_part, sub_ℕ, ◌+ℤ◌, ◌-ℤ◌, ◌≤ℤ◌, ◌<ℤ◌, ltb_ℤ, leb_ℤ, min_ℤ, max_ℤ,
  half_ℤ, +ℤ_parts, -ℤ_parts, eq_of_parts, min_ℤ_le, le-max_ℤ, int_laws,
}
use jjui.Prelude.Maps.{Map, lookup, insert, delete, lookup-insert, lookup-delete}
use jjui.Prelude.Texts.{trim_space, is_empty, is_space, join, join_onto, itoa, split_lines}

pub record Operation : Type 0 where
  pub insert_after : SelectedRevisions
  pub insert_before : SelectedRevisions
  pub current : Option Commit

pub data Intent : Type 0 where
  cancel apply toggle_insert_before other_intent : Intent

pub data Event : Type 0 where
  -- `none` is a selected item that is no revision.
  selection_changed : Option SelectedRevision → Event
  intent : Intent → Event
  other_event : Event

abbrev pub is_nil : List Commit → Bool
is_nil [] = true
is_nil (c ∷ cs) = false

unfoldable pub effective_insert_before : Operation → SelectedRevisions
effective_insert_before o =
    if not (is_nil o.insert_before.revisions)
    then o.insert_before
    else new_selected_revisions (o.current ∷ [])

-- Both have one revision, and it is the same.
unfoldable pub is_same_single : List Commit → List Commit → Bool
is_same_single (a ∷ []) (b ∷ []) = equal_commits a b
is_same_single _ _ = false

unfoldable pub new_command : SelectedRevisions → Operation → List String
new_command insert_before o =
    if is_same_single o.insert_after.revisions insert_before.revisions
    then new o.insert_after
    else new_insert o.insert_after insert_before

unfoldable pub handle_intent : Intent → Operation → Handled Operation
handle_intent cancel o = taken o (send close)
handle_intent apply o =
    let insert_before = effective_insert_before o in
    if is_nil o.insert_after.revisions && is_nil insert_before.revisions
    then taken o nothing
    else taken o
        (sequence (send close) (run (new_command insert_before o) (refresh_and_select "@" ∷ [])))
handle_intent toggle_insert_before o =
    taken (record o { insert_before = toggle o.insert_before o.current }) nothing
handle_intent other_intent o = refused o

unfoldable pub update : Event → Operation → Option (Operation × Effect)
update (selection_changed none) o = some (o, nothing)
update (selection_changed (some selected)) o =
    some (record o { current = some (commit_of selected) }, nothing)
update (intent i) o = forget (handle_intent i o)
update other_event o = some (o, nothing)

-- The marker before the identifier of a revision.
unfoldable pub render : Operation → Commit → RenderPosition → String
render o commit at =
    let is_insert_before =
      if not (is_nil o.insert_before.revisions)
      then contains o.insert_before (some commit)
      else is_at o.current commit in
    if not (is_marker at)
    then ""
    else if contains o.insert_after (some commit)
    then "<< after this >>"
    else if is_insert_before
    then "<< before this >>"
    else ""

unfoldable pub new_operation : SelectedRevisions → Option Commit → Operation
new_operation insert_after current = record {
  insert_after = insert_after;
  insert_before = record { revisions = [] };
  current = current;
}
