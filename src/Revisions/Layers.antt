-- ===== src/Revisions/Layers.antt =====
-- The operation of the list of revisions and the layers over it (internal/ui/revisions/revisions.go).
-- A layer is what the list asks of it: `none` is an answer of a layer without that interface.
pub mod Editing
use jjui.Prelude.{
  ℕ, String, Bool, true, false, not, ◌&&◌, ◌||◌, Option, none, some, List, [], ◌∷◌, ◌++◌,
  if◌then◌else◌, length, ltb, ◌==◌,
}
use jjui.Prelude.Texts.{is_empty}
use jjui.Revisions.{Model, clear_checked_revisions}
use jjui.Scopes.{LeakPolicy, leak_all, leak_none, Scope}

pub record ImmediateModel : Type 0 where
  pub scopes : List Scope
  pub editing : Option Bool
  pub overlay : Option Bool
  pub focus : Option Bool
  pub is_default : Bool

abbrev pub new_default : ImmediateModel
new_default = record {
  scopes = [];
  editing = none;
  overlay = none;
  focus = none;
  is_default = true;
}

-- The layers stand with the newest one first; `handler` is the list itself.
pub record RevisionsView : Type 0 where
  pub list : Model
  pub base_op : Option ImmediateModel
  pub layers : List ImmediateModel
  pub quick_search : String
  pub focused : Bool
  pub handler : ℕ
  pub output : String
  pub failed : Bool
  pub previous_op_log_id : String

unfoldable pub base_operation : RevisionsView → ImmediateModel
base_operation v = elim v.base_op [ none ↦ new_default | some op ↦ op ]

unfoldable pub active_model : RevisionsView → ImmediateModel
active_model v = elim v.layers [ [] ↦ base_operation v | layer ∷ below ↦ layer ]

unfoldable pub push_layer : ImmediateModel → RevisionsView → RevisionsView
push_layer layer v = record v { layers = layer ∷ v.layers }

unfoldable pub pop_layer : RevisionsView → RevisionsView
pop_layer v = elim v.layers [ [] ↦ v | layer ∷ below ↦ record v { layers = below } ]

unfoldable pub reset_operations : RevisionsView → RevisionsView
reset_operations v = record v { base_op = some new_default; layers = [] }

unfoldable pub set_base_operation : ImmediateModel → RevisionsView → RevisionsView
set_base_operation op v = record v { base_op = some op; layers = [] }

abbrev pub answer_of : Option Bool → Bool → Bool
answer_of none otherwise = otherwise
answer_of (some b) otherwise = b

-- The answer of the newest layer, or else of the operation, or else this one.
unfoldable pub ask : (ImmediateModel → Option Bool) → (otherwise : Bool) → RevisionsView → Bool
ask question otherwise v =
    let of_base = answer_of (question (base_operation v)) otherwise in
    elim v.layers [ [] ↦ of_base | layer ∷ below ↦ answer_of (question layer) of_base ]

unfoldable pub is_editing : RevisionsView → Bool
is_editing v = ask (λ l. l.editing) false v

unfoldable pub is_overlay : RevisionsView → Bool
is_overlay v = ask (λ l. l.overlay) false v

unfoldable pub is_focused : RevisionsView → Bool
is_focused v = ask (λ l. l.focus) v.focused v

unfoldable pub in_normal_mode : RevisionsView → Bool
in_normal_mode v = (base_operation v).is_default && length v.layers == 0

abbrev pub scopes_of : List ImmediateModel → List Scope
scopes_of [] = []
scopes_of (layer ∷ below) = layer.scopes ++ scopes_of below

abbrev pub inner_scopes : RevisionsView → List Scope
inner_scopes v = scopes_of v.layers ++ (base_operation v).scopes

abbrev pub own_scope : String → RevisionsView → Scope
own_scope name v = record {
  name = name;
  leak = if is_editing v then leak_none else leak_all;
  global = false;
  hide_from_help = false;
  handler = v.handler;
}

abbrev pub quick_search_scopes : RevisionsView → List Scope
quick_search_scopes v =
    if is_empty v.quick_search then [] else own_scope "revisions.quick_search" v ∷ []

unfoldable pub scopes : RevisionsView → List Scope
scopes v =
    inner_scopes v
    ++ quick_search_scopes v
    ++ own_scope (if in_normal_mode v then "revisions" else "") v ∷ []

-- What the list does with a cancellation that its active model refuses; false leaks it.
unfoldable pub cancel : RevisionsView → RevisionsView × Bool
cancel v =
    if ltb 0 (length v.list.checked_revisions) || not (in_normal_mode v)
    then (reset_operations (record v { list = clear_checked_revisions v.list }), true)
    else (v, false)

-- A search is swallowed while an operation is active.
unfoldable pub handle_quick_search : RevisionsView → Bool
handle_quick_search v = not (in_normal_mode v)

unfoldable pub close_view : RevisionsView → RevisionsView
close_view v = elim v.layers [ [] ↦ reset_operations v | layer ∷ below ↦ pop_layer v ]

-- `RestoreOperationMsg`; `none` is a value that is not an operation.
unfoldable pub restore_operation : Option ImmediateModel → RevisionsView → RevisionsView
restore_operation none v = reset_operations v
restore_operation (some op) v = record v { base_op = some op; layers = [] }
