-- ===== src/Condition.antt =====
-- Conditions over model state (internal/ui/actionmeta/condition.go). `parser.ParseExpr` of Go's
-- standard library is a parameter: a parser of texts into the expressions that `Condition` reads.
pub mod Meaning
mod Tests
use Prim.Native.String.{◌++◌ as append}
use jjui.Prelude.{
  Bool, true, false, not, ◌&&◌, ◌||◌, Option, none, some, String, str_eq, if◌then◌else◌,
}
use jjui.Prelude.Texts.{trim_space, is_empty}

pub data UnaryOp : Type 0 where
  not_op other_unary : UnaryOp

pub data BinaryOp : Type 0 where
  land lor other_binary : BinaryOp

-- `ast.Expr`; `other` is any other form of expression.
pub data Expr : Type 0 where
  ident : String → Expr
  selector : Expr → String → Expr
  paren : Expr → Expr
  unary : UnaryOp → Expr → Expr
  binary : BinaryOp → Expr → Expr → Expr
  other : Expr

-- An `any` of Go: a Boolean, or something else.
pub data Value : Type 0 where
  boolean : Bool → Value
  not_boolean : Value

-- `QueryState`: a value, and whether the property was found.
abbrev pub StateProvider : Type 0
StateProvider = String → Value × Bool

-- `none` is the zero value, without an expression.
abbrev pub Condition : Type 0
Condition = Option Expr

-- `statePath`.
unfoldable pub state_path : Expr → String × Bool
state_path (ident name) = (name, true)
state_path (selector e name) =
    let (base, valid) = state_path e in (append (append base ".") name, valid)
state_path e = ("", false)

abbrev is_not : UnaryOp → Bool
is_not not_op = true
is_not other_unary = false

abbrev is_junction : BinaryOp → Bool
is_junction land = true
is_junction lor = true
is_junction other_binary = false

unfoldable pub valid_condition : Expr → Bool
unfolding state_path
valid_condition (ident name) = true
valid_condition (selector e name) = (state_path e).1
valid_condition (paren e) = valid_condition e
valid_condition (unary op e) = is_not op && valid_condition e
valid_condition (binary op d e) = is_junction op && valid_condition d && valid_condition e
valid_condition other = false

-- `none` is an error.
unfoldable pub parse_condition : (String → Option Expr) → String → Option Condition
parse_condition parse_expr source =
    if is_empty (trim_space source) then some none else elim (parse_expr source) [
      | none ↦ none
      | some expr ↦ if valid_condition expr then some (some expr) else none
    ]

-- A value that the state gives, and whether it is a Boolean that was found.
as_boolean : Value × Bool → Bool × Bool
as_boolean (boolean b, found) = (b, found)
as_boolean (not_boolean, found) = (false, false)

unfoldable pub query : Option StateProvider → String → Bool × Bool
unfolding as_boolean
query state path =
    if str_eq path "true"
    then (true, true)
    else if str_eq path "false"
    then (false, true)
    else elim state [ none ↦ (false, false) | some q ↦ as_boolean (q path) ]

-- Any operator but `&&` is taken for `||`; `valid_condition` lets no other one through.
abbrev pub junction : BinaryOp → Bool → Bool → Bool
junction land a b = a && b
junction _ a b = a || b

-- `evaluateCondition`. A selector without a state path matches no case of its switch.
unfoldable pub evaluate_condition : Option StateProvider → Expr → Bool × Bool
unfolding query
evaluate_condition state (ident name) = query state name
evaluate_condition state (selector e name) =
    let (path, valid) = state_path (selector e name) in
    if valid then query state path else (false, false)
evaluate_condition state (paren e) = evaluate_condition state e
evaluate_condition state (unary op e) =
    let (value, valid) = evaluate_condition state e in (not value, valid)
evaluate_condition state (binary op d e) =
    let (left, left_valid) = evaluate_condition state d in
    let (right, right_valid) = evaluate_condition state e in
    (junction op left right, left_valid && right_valid)
evaluate_condition state other = (false, false)

-- `Condition.Matches`.
unfoldable pub matches : Condition → Option StateProvider → Bool
unfolding evaluate_condition
matches none state = true
matches (some expr) state = let (value, valid) = evaluate_condition state expr in valid && value
