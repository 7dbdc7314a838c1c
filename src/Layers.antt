-- ===== src/Layers.antt =====
-- The layers over the revisions view (internal/ui/layers.go), bottom first. A view is its type and
-- an identity; what it does when it starts, is updated or is asked to close is an interface, `Views`.
pub mod Invariant
pub mod Steps
pub mod Opening
mod Tests
use jjui.Prelude.{
  ◌≡◌, ℕ, suc, String, Bool, true, false, not, ◌&&◌, Option, none, some, List, [], ◌∷◌, ◌++◌,
  if◌then◌else◌, get_elem?, keep,
}

-- The types of the views: three of screens, and the dialogs by name.
pub data Kind : Type 0 where
  oplog diff annotation : Kind
  dialog_of : String → Kind
  revisions_view : Kind

pub record View : Type 0 where
  pub kind : Kind
  pub id : ℕ

pub record Layer : Type 0 where
  pub model : View
  pub screen : Bool

-- The fields of the root model that the layers concern.
pub record Root : Type 0 where
  pub layers : List Layer
  pub revisions : View

-- `CloseViewMsg`.
pub record CloseViewMsg : Type 0 where
  pub applied : Bool

pub record Views (Cmd : Type 0) : Type 0 where
  pub init : View → Cmd
  pub update : View → CloseViewMsg → Cmd
  -- `RequestClose` of an annotation, which may open a confirmation in it.
  pub request_close : View → View × Cmd × Bool
  pub request_close-kind : (v : View) → (request_close v).0.kind ≡ v.kind

abbrev pub last? {ℓ} : {A : Type ℓ} → List A → Option A
last? [] = none
last? (x ∷ []) = some x
last? (x ∷ y ∷ xs) = last? (y ∷ xs)

abbrev pub drop_last {ℓ} : {A : Type ℓ} → List A → List A
drop_last [] = []
drop_last (x ∷ []) = []
drop_last (x ∷ y ∷ xs) = x ∷ drop_last (y ∷ xs)

unfoldable pub top_layer : Root → Option Layer
top_layer m = last? m.layers

-- The top layer when it is a dialog.
unfoldable pub dialog : Root → Option View
unfolding top_layer
dialog m = elim (top_layer m) [
  | none ↦ none
  | some top ↦ if top.screen then none else some top.model
]

-- The index of the last layer that passes a test, for the loops over `slices.Backward`.
unfoldable pub last_index : (Layer → Bool) → List Layer → Option ℕ
last_index p [] = none
last_index p (l ∷ ls) = elim (last_index p ls) [
  | some i ↦ some (suc i)
  | none ↦ if p l then some 0 else none
]

-- `none` for -1.
unfoldable pub screen_index : Root → Option ℕ
unfolding last_index
screen_index m = last_index (λ l. l.screen) m.layers

unfoldable pub screen : Root → Option View
screen m = elim (screen_index m) [
  | none ↦ none
  | some i ↦ elim (get_elem? m.layers i) [ none ↦ none | some l ↦ some l.model ]
]

abbrev pub is_oplog : Kind → Bool
is_oplog oplog = true
is_oplog _ = false

-- `findLayer` for the views that pass a test of their type.
unfoldable pub find_layer : (Kind → Bool) → Root → Option View
unfolding last_index
find_layer of_type m = elim (last_index (λ l. of_type l.model.kind) m.layers) [
  | none ↦ none
  | some i ↦ elim (get_elem? m.layers i) [ none ↦ none | some l ↦ some l.model ]
]

unfoldable pub primary : Root → View
primary m = elim (find_layer is_oplog m) [ some v ↦ v | none ↦ m.revisions ]

unfoldable pub close_dialog : Root → Root
close_dialog m = elim (dialog m) [ none ↦ m | some _ ↦ record m { layers = drop_last m.layers } ]

abbrev pub same_screen_kind : Kind → Kind → Bool
same_screen_kind oplog oplog = true
same_screen_kind diff diff = true
same_screen_kind annotation annotation = true
same_screen_kind _ _ = false

unfoldable pub open_screen : Root → View → Root
open_screen m v = record m {
  layers =
      keep (λ l. not (same_screen_kind l.model.kind v.kind)) m.layers
      ++ record { model = v; screen = true } ∷ [];
}

abbrev pub is_annotation : Kind → Bool
is_annotation annotation = true
is_annotation _ = false

-- The visible screen opens a target picker as a root dialog.
unfoldable pub accepts_targets : Root → Bool
accepts_targets m = elim (screen m) [
  | none ↦ false
  | some v ↦ elim v.kind [ diff ↦ true | annotation ↦ true | _ ↦ false ]
]

-- The top layer with another model.
abbrev pub replace_last : Layer → List Layer → List Layer
replace_last l ls = drop_last ls ++ l ∷ []

module _ {Cmd : Type 0} (views : Views Cmd) where
  unfoldable pub open_dialog : Root → View → Root × Cmd
  open_dialog m v =
      let m' = close_dialog m in
      (record m' { layers = m'.layers ++ record { model = v; screen = false } ∷ [] }, views.init v)

  unfoldable pub close_layer : Root → Layer → CloseViewMsg → Root × Option Cmd
  close_layer m top msg = (
    record m { layers = drop_last m.layers },
    if top.screen then none else some (views.update top.model msg),
  )

  -- An annotation is asked first, unless the close was applied.
  unfoldable pub close_asking : Root → Layer → CloseViewMsg → Root × Option Cmd
  close_asking m top msg =
      let (v, cmd, can_close) = views.request_close top.model in
      let asked_top = record top { model = v } in
      let asked = record m { layers = replace_last asked_top m.layers } in
      if is_annotation top.model.kind && not msg.applied
      then (if can_close then close_layer asked asked_top msg else (asked, some cmd))
      else close_layer m top msg

  -- `none` is the panic of a call with no layer open.
  unfoldable pub close_top_layer : Root → CloseViewMsg → Option (Root × Option Cmd)
  close_top_layer m msg = elim (top_layer m) [
    | none ↦ none
    | some top ↦ some (close_asking m top msg)
  ]
