-- ===== src/Bindings/Validation.antt =====
-- What `ValidateBindings` (internal/ui/bindings/binding.go) guarantees.
use mathlib.Core.Option.{none-ne-some}
use jjui.Prelude.{
  inl, inr, sym, ◌∙◌, Option-cases, zero, ℕ, suc, refl, List, [], ◌∷◌, All, take, get_elem?, ◌≡◌,
  ◌⊎◌, ◌≤◌, false, Option, none, some, String, arith, length, any,
}
use jjui.Prelude.Texts.{is_empty}
use jjui.Condition.{Expr, Condition, parse_condition}
use jjui.Bindings.{Binding, BindingError, validate, validate_bindings}

-- A usable binding: an action in a scope, under a condition that can be read, and either some keys
-- or a sequence of two keys or more, none of them empty.
pub record IsUsable (parse_expr : String → Option Expr) (b : Binding) : Type 0 where
  pub named : is_empty b.action ≡ false
  pub scoped : is_empty b.scope ≡ false
  pub readable : (c : Condition) × (parse_condition parse_expr b.when ≡ some c)
  pub triggered :
      ((1 ≤ length b.key) × (length b.seq ≡ 0)) ⊎ ((length b.key ≡ 0) × (2 ≤ length b.seq))
  pub keys : any is_empty b.key ≡ false
  pub seqs : any is_empty b.seq ≡ false

pub validate-IsUsable :
    (parse_expr : String → Option Expr) (b : Binding)
    → validate parse_expr b ≡ none
    → IsUsable parse_expr b
unfolding validate
validate-IsUsable parse_expr b h = ground arith

pub usable-validate :
    (parse_expr : String → Option Expr) (b : Binding)
    → IsUsable parse_expr b
    → validate parse_expr b ≡ none
unfolding validate
usable-validate parse_expr b u = ground arith

module _ (parse_expr : String → Option Expr) where
  pub of-validate_bindings :
      (bs : List Binding) → validate_bindings parse_expr bs ≡ none → All (IsUsable parse_expr) bs
  unfolding validate_bindings
  of-validate_bindings [] h = tt
  of-validate_bindings (b ∷ bs) h =
      (validate-IsUsable parse_expr b (ground arith), of-validate_bindings bs (ground arith))

  validate_bindings_first :
      (bs : List Binding) (i : ℕ) (e : BindingError)
      → validate_bindings parse_expr bs ≡ some (i, e)
      → All (IsUsable parse_expr) (take i bs)
        × ((b : Binding) × (get_elem? bs i ≡ some b) × (validate parse_expr b ≡ some e))
  unfolding validate_bindings
  validate_bindings_first [] i e h = cc
  validate_bindings_first (b ∷ bs) zero e h = (tt, (b, refl, ground arith))
  validate_bindings_first (b ∷ bs) (suc i) e h =
      let (before, at) = validate_bindings_first bs i e (ground arith) in
      ((validate-IsUsable parse_expr b (ground arith), before), at)

  -- The first binding that is refused, with its error.
  pub record IsRefused (bs : List Binding) : Type 0 where
    pub index : ℕ
    pub error : BindingError
    pub binding : Binding
    pub result : validate_bindings parse_expr bs ≡ some (index, error)
    pub before : All (IsUsable parse_expr) (take index bs)
    pub found : get_elem? bs index ≡ some binding
    pub own : validate parse_expr binding ≡ some error
    pub unusable : ¬ IsUsable parse_expr binding

  error-unusable :
      (b : Binding) (e : BindingError) → validate parse_expr b ≡ some e → ¬ IsUsable parse_expr b
  error-unusable b e h u = none-ne-some e (sym (usable-validate parse_expr b u) ∙ h)

  -- A list of bindings is accepted where each of them is usable; else the error is that of the first
  -- one that is not usable, with its index.
  pub validate_bindings-outcome :
      (bs : List Binding)
      → ((validate_bindings parse_expr bs ≡ none) × All (IsUsable parse_expr) bs) ⊎ IsRefused bs
  validate_bindings-outcome bs = elim (Option-cases (validate_bindings parse_expr bs)) [
    | inl h ↦ inl (h, of-validate_bindings bs h)
    | inr ((i, e), h) ↦
        let (before, at) = validate_bindings_first bs i e h in
        let (b, found, own) = at in
        inr (record {
          index = i;
          error = e;
          binding = b;
          result = h;
          before = before;
          found = found;
          own = own;
          unusable = error-unusable b e own;
        })
  ]
