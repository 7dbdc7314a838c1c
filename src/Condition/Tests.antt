-- ===== src/Condition/Tests.antt =====
-- The condition `flag && !busy` (internal/ui/actionmeta/condition.go).
use jjui.Prelude.{
  String, ◌≡◌, refl, ◌↔◌, ◌⊎◌, true, false, Option, none, some, str_eq, if◌then◌else◌,
}
use jjui.Prelude.Texts.{trim_space}
use jjui.Condition.{
  Expr, ident, unary, binary, not_op, land, StateProvider, boolean, parse_condition, matches,
  valid_condition,
}
use jjui.Condition.Meaning.{Means, matches-Means}

abbrev flag_not_busy : Expr
flag_not_busy = binary land (ident "flag") (unary not_op (ident "busy"))

-- A parser that reads this one condition.
abbrev reads_one : String → Option Expr
reads_one source = if str_eq source "flag && !busy" then some flag_not_busy else none

abbrev flagged : StateProvider
flagged name =
    if str_eq name "flag" then (boolean true, true) else (boolean false, str_eq name "busy")

matches-Means_example : (matches (some flag_not_busy) (some flagged) ≡ true) ↔ (
    (some flag_not_busy ≡ none)
    ⊎ ((e : Expr) × (some flag_not_busy ≡ some e) × Means (some flagged) e true))
unfolding parse_condition valid_condition trim_space
matches-Means_example =
    matches-Means reads_one "flag && !busy" (some flag_not_busy) (some flagged) refl
