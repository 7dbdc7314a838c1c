-- ===== src/Revisions/Sending.antt =====
-- How the list of revisions hands messages and intents to its operation and the layers
-- (internal/ui/revisions/revisions.go). What these do is a parameter: a new state, the row that they
-- move the cursor to, and a command.
use jjui.Jj.Selections.{Commit, equal}
use jjui.Prelude.{Bool, false, Option, none, some, List, [], ◌∷◌, ◌++◌, if◌then◌else◌}
use jjui.Prelude.Int.{ℤ}
use jjui.Operations.AceJump.{Operation as JumpOperation}
use jjui.Revisions.{set_cursor, selected_revision}
use jjui.Revisions.Layers.{
  ImmediateModel, RevisionsView, base_operation, set_base_operation, push_layer,
}
use jjui.Revisions.Starting.{Started}

pub record Answer (A F : Type 0) : Type 0 where
  pub next : A
  pub to_row : Option ℤ
  pub command : F

-- The models of the other packages, for the messages M and the intents I; a layer that handles no
-- intents has no `handle_intent`.
pub record Models (M I F : Type 0) : Type 0 where
  pub update : M → ImmediateModel → Answer ImmediateModel F
  pub handle_intent : I → ImmediateModel → Option (Answer ImmediateModel F × Bool)
  pub init : ImmediateModel → F
  pub made : Started → ImmediateModel
  pub ace_jump : JumpOperation → ImmediateModel
  pub target_picker : ImmediateModel
  pub selection_changed : Commit → M

unfoldable pub move_cursor : Option ℤ → RevisionsView → RevisionsView
move_cursor none v = v
move_cursor (some i) v = record v { list = set_cursor i v.list }

module _ {M I F : Type 0} (models : Models M I F) where
  unfoldable pub update_base : M → RevisionsView → RevisionsView × F
  update_base msg v =
      let a = models.update msg (base_operation v) in
      (move_cursor a.to_row (record v { base_op = some a.next }), a.command)

  unfoldable pub update_active : M → RevisionsView → RevisionsView × F
  update_active msg v = elim v.layers [
    | [] ↦ update_base msg v
    | layer ∷ below ↦
        let a = models.update msg layer in
        (move_cursor a.to_row (record v { layers = a.next ∷ below }), a.command)
  ]

  -- The layers from the oldest one on.
  unfoldable pub update_each :
      M → List ImmediateModel → RevisionsView → List ImmediateModel × RevisionsView × List F
  update_each msg [] v = ([], v, [])
  update_each msg (layer ∷ below) v =
      let (below', w, commands) = update_each msg below v in
      let a = models.update msg layer in
      (a.next ∷ below', move_cursor a.to_row w, commands ++ a.command ∷ [])

  unfoldable pub update_operations : M → RevisionsView → RevisionsView × List F
  update_operations msg v =
      let (w, command) = update_base msg v in
      let (layers, w', commands) = update_each msg w.layers w in
      (record w' { layers = layers }, command ∷ commands)

  -- The operation and the layers learn of another selected revision.
  unfoldable pub operation_selection_changed :
      (previous : Option Commit) → RevisionsView → RevisionsView × List F
  operation_selection_changed previous v = elim (selected_revision v.list) [
    | none ↦ (v, [])
    | some current ↦
        if equal previous (some current)
        then (v, [])
        else update_operations (models.selection_changed current) v
  ]

  unfoldable pub keep_active : ImmediateModel → RevisionsView → RevisionsView
  keep_active layer v = elim v.layers [
    | [] ↦ record v { base_op = some layer }
    | old ∷ below ↦ record v { layers = layer ∷ below }
  ]

  -- The active model has the intent, if it handles any.
  unfoldable pub try_active :
      I → (active : ImmediateModel) → RevisionsView → RevisionsView × List F × Bool
  try_active intent active v = elim (models.handle_intent intent active) [
    | none ↦ (v, [], false)
    | some (a, handled) ↦ (
      move_cursor a.to_row (keep_active a.next v),
      if handled then a.command ∷ [] else [],
      handled,
    )
  ]

  unfoldable pub open_operation : ImmediateModel → RevisionsView → RevisionsView × List F
  open_operation op v = (set_base_operation op v, models.init op ∷ [])

  unfoldable pub open_layer : ImmediateModel → RevisionsView → RevisionsView × List F
  open_layer layer v = (push_layer layer v, models.init layer ∷ [])
