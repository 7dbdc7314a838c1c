-- ===== src/Bindings.antt =====
-- Key bindings (internal/ui/bindings/binding.go). The text of an error is left out. Arguments are
-- values that nothing changes, so a copy of them (`CloneArgs`) is the same value.
pub mod Validation
mod Tests
use jjui.Prelude.{
  ℕ, suc, Bool, not, Option, none, some, List, [], ◌∷◌, String, ◌==◌, ltb, if◌then◌else◌, length,
  any,
}
use jjui.Prelude.Texts.{is_empty}
use jjui.Condition.{Expr, parse_condition}

-- An argument value of a binding.
pub data Arg : Type 0 where
  text_arg : String → Arg
  bool_arg : Bool → Arg
  number_arg : ℕ → Arg
  other_arg : Arg

abbrev pub Args : Type 0
Args = List (String × Arg)

pub record Binding : Type 0 where
  pub action : String
  pub desc : String
  pub when : String
  pub scope : String
  pub key : List String
  pub seq : List String
  pub args : Args

pub data BindingError : Type 0 where
  no_action no_scope bad_condition key_and_seq empty_key empty_seq_key short_seq : BindingError

abbrev pub same : Bool → Bool → Bool
same a b = if a then b else not b

-- `validate`; `none` is no error.
unfoldable pub validate : (String → Option Expr) → Binding → Option BindingError
validate parse_expr b =
    let has_key = ltb 0 (length b.key) in
    let has_seq = ltb 0 (length b.seq) in
    let conditional =
      if same has_key has_seq
      then some key_and_seq
      else if any is_empty b.key
      then some empty_key
      else if any is_empty b.seq
      then some empty_seq_key
      else if length b.seq == 1
      then some short_seq
      else none in
    if is_empty b.action
    then some no_action
    else if is_empty b.scope
    then some no_scope
    else elim (parse_condition parse_expr b.when) [
      | none ↦ some bad_condition
      | some _ ↦ conditional
    ]

-- The index of the first binding that is refused, and why.
unfoldable pub validate_bindings : (String → Option Expr) → List Binding → Option (ℕ × BindingError)
validate_bindings parse_expr [] = none
validate_bindings parse_expr (b ∷ bs) =
    let further = validate_bindings parse_expr bs in
    elim (validate parse_expr b) [
      | some e ↦ some (0, e)
      | none ↦ elim further [ none ↦ none | some (i, e) ↦ some (suc i, e) ]
    ]
