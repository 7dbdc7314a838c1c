-- ===== src/Condition/Meaning.antt =====
-- What a valid condition means (internal/ui/actionmeta/condition.go).
use jjui.Prelude.{
  ◌≡◌, refl, ◌∙◌, ◌↔◌, ◌⊎◌, inl, inr, Bool, true, not, ◌&&◌, ◌||◌, Option, none, some, String,
  arith,
}
use jjui.Condition.{
  not_op, other_unary, land, lor, other_binary, Expr, ident, selector, paren, unary, binary, other,
  StateProvider, Condition, state_path, valid_condition, parse_condition, query, evaluate_condition,
  matches,
}

-- `expr` has the truth value `b` in a state, every path that it mentions being a known Boolean.
pub data Means (state : Option StateProvider) : Expr → Bool → Type 0 where
  path :
      {e : Expr} {b : Bool}
      → (state_path e).1 ≡ true
      → query state (state_path e).0 ≡ (b, true)
      → Means state e b
  group : {e : Expr} {b : Bool} → Means state e b → Means state (paren e) b
  negation : {e : Expr} {b c : Bool} → Means state e b → c ≡ not b → Means state (unary not_op e) c
  conjunction :
      {d e : Expr} {a b c : Bool}
      → Means state d a
      → Means state e b
      → c ≡ (a && b)
      → Means state (binary land d e) c
  disjunction :
      {d e : Expr} {a b c : Bool}
      → Means state d a
      → Means state e b
      → c ≡ (a || b)
      → Means state (binary lor d e) c

module _ (state : Option StateProvider) where
  evaluate_sound :
      (e : Expr) (b : Bool)
      → valid_condition e ≡ true
      → evaluate_condition state e ≡ (b, true)
      → Means state e b
  unfolding valid_condition evaluate_condition state_path
  evaluate_sound (ident name) b v h = path refl h
  evaluate_sound (selector e name) b v h = path v (ground arith)
  evaluate_sound (paren e) b v h = group (evaluate_sound e b v h)
  evaluate_sound (unary not_op e) b v h =
      let found = evaluate_sound e (evaluate_condition state e).0 v (ground arith) in
      negation found (ground arith)
  evaluate_sound (unary other_unary e) b v h = cc
  evaluate_sound (binary land d e) b v h =
      let left = evaluate_sound d (evaluate_condition state d).0 (ground arith) (ground arith) in
      let right = evaluate_sound e (evaluate_condition state e).0 (ground arith) (ground arith) in
      conjunction left right (ground arith)
  evaluate_sound (binary lor d e) b v h =
      let left = evaluate_sound d (evaluate_condition state d).0 (ground arith) (ground arith) in
      let right = evaluate_sound e (evaluate_condition state e).0 (ground arith) (ground arith) in
      disjunction left right (ground arith)
  evaluate_sound (binary other_binary d e) b v h = cc
  evaluate_sound other b v h = cc

  -- Where the path of an expression is a state path, evaluation asks the state for it.
  evaluate-path :
      (e : Expr)
      → (state_path e).1 ≡ true
      → evaluate_condition state e ≡ query state (state_path e).0
  unfolding evaluate_condition state_path
  evaluate-path (ident name) v = refl
  evaluate-path (selector e name) v = ground arith
  evaluate-path (paren e) v = cc
  evaluate-path (unary op e) v = cc
  evaluate-path (binary op d e) v = cc
  evaluate-path other v = cc

  evaluate_complete :
      {e : Expr} {b : Bool} → Means state e b → evaluate_condition state e ≡ (b, true)
  unfolding evaluate_condition
  evaluate_complete (path {e} v q) = evaluate-path e v ∙ q
  evaluate_complete (group m) = evaluate_complete m
  evaluate_complete (negation m c) = ground (arith, evaluate_complete m)
  evaluate_complete (conjunction l r c) = ground (arith, evaluate_complete l, evaluate_complete r)
  evaluate_complete (disjunction l r c) = ground (arith, evaluate_complete l, evaluate_complete r)

parse-valid :
    (parse_expr : String → Option Expr) (source : String) (e : Expr)
    → parse_condition parse_expr source ≡ some (some e)
    → valid_condition e ≡ true
unfolding parse_condition
parse-valid parse_expr source e p = ground arith

matches-eval :
    (e : Expr) (state : Option StateProvider)
    → matches (some e) state ≡ true
    → evaluate_condition state e ≡ (true, true)
unfolding matches
matches-eval e state h = ground arith

meaning-matches :
    (e : Expr) (state : Option StateProvider)
    → ((some e ≡ none) ⊎ ((d : Expr) × (some e ≡ some d) × Means state d true))
    → matches (some e) state ≡ true
unfolding matches
meaning-matches e state (inl n) = cc
meaning-matches e state (inr (d, q, m)) = ground (arith, evaluate_complete state m)

-- A condition that `ParseCondition` accepts matches exactly where it is empty or its expression
-- means `true`: it fails where any path that it mentions is unknown or no Boolean, also under a
-- negation or beside a true operand of `||`.
pub matches-Means :
    (parse_expr : String → Option Expr) (source : String) (c : Condition)
    (state : Option StateProvider)
    → parse_condition parse_expr source ≡ some c
    → (matches c state ≡ true) ↔ ((c ≡ none) ⊎ ((e : Expr) × (c ≡ some e) × Means state e true))
matches-Means parse_expr source none state p = (λ _. inl refl, λ _. unfold matches in refl)
matches-Means parse_expr source (some e) state p = (
  λ h. inr (
    e,
    refl,
    evaluate_sound state e true (parse-valid parse_expr source e p) (matches-eval e state h),
  ),
  meaning-matches e state,
)
