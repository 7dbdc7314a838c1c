-- ===== src/Dispatch/Registry.antt =====
-- What `NewDispatcher` (internal/ui/dispatch/dispatcher.go) registers.
use mathlib.Core.Path.{subst}
use mathlib.Core.List.{append-nil, append_assoc}
use jjui.Prelude.{
  ◌≤◌, String, ◌≡◌, refl, sym, ap, ◌∙◌, ◌⊎◌, inl, inr, Option, none, some, List, [], ◌∷◌, ◌++◌,
  arith, str_eq, eq_iff, if◌then◌else◌, Bool-cases, length, keep, All,
}
use jjui.Prelude.Maps.{Map, lookup, insert, lookup-insert}
use jjui.Condition.{Expr}
use jjui.Bindings.{Binding, validate_bindings}
use jjui.Bindings.Validation.{IsUsable, of-validate_bindings}
use jjui.Dispatch.{
  Metadata, Dispatcher, new_dispatcher, add_binding, add_bindings, empty_dispatcher, scope_bindings,
  or_empty,
}
use jjui.Dispatch.Keys.{is_nil}
use jjui.Dispatch.Pending.{AwaitsMore, IsCoherent, HasLongSeq, SeqsAreLong}

-- The bindings of a scope in a list, in order.
abbrev pub of_scope : String → List Binding → List Binding
of_scope name bs = keep (λ b. str_eq b.scope name) bs

one_more :
    (b : Binding) (m : Map (List Binding)) (name : String) (rest : List Binding)
    → or_empty (lookup name (insert b.scope (or_empty (lookup b.scope m) ++ b ∷ []) m)) ++ rest
      ≡ or_empty (lookup name m) ++ (if str_eq b.scope name then b ∷ rest else rest)
one_more b m name rest =
    let j : String = b.scope in
    ground (
      arith,
      lookup-insert b.scope name (or_empty (lookup b.scope m) ++ b ∷ []) m,
      eq_iff b.scope name,
      append_assoc (or_empty (lookup name m)) (b ∷ []) rest,
    )

scope_bindings-add_bindings :
    (md : Metadata) (d : Dispatcher) (bs : List Binding) (name : String)
    → scope_bindings (add_bindings md d bs) name ≡ scope_bindings d name ++ of_scope name bs
unfolding add_bindings scope_bindings
scope_bindings-add_bindings md d [] name = sym (append-nil _)
scope_bindings-add_bindings md d (b ∷ bs) name =
    scope_bindings-add_bindings md (add_binding md d b) bs name
    ∙ one_more b d.bindings name (of_scope name bs)

add_bindings_keeps :
    (md : Metadata) (d : Dispatcher) (bs : List Binding)
    → ((add_bindings md d bs).buffered ≡ d.buffered)
      × ((add_bindings md d bs).candidates ≡ d.candidates)
      × ((add_bindings md d bs).action_overrides ≡ d.action_overrides)
unfolding add_bindings
add_bindings_keeps md d [] = (refl, refl, refl)
add_bindings_keeps md d (b ∷ bs) = add_bindings_keeps md (add_binding md d b) bs

new_dispatcher_inv :
    (md : Metadata) (bs : List Binding) (d : Dispatcher)
    → new_dispatcher md bs ≡ some d
    → (validate_bindings md.parse_expr bs ≡ none) × (d ≡ add_bindings md (empty_dispatcher md) bs)
unfolding new_dispatcher
new_dispatcher_inv md bs d h = ground arith

-- An accepted list of bindings gives each scope its bindings in the order of the list, no sequence
-- in progress and no override.
pub scope_bindings-new_dispatcher :
    (md : Metadata) (bs : List Binding) (d : Dispatcher)
    → new_dispatcher md bs ≡ some d
    → ((name : String) → scope_bindings d name ≡ of_scope name bs)
      × (d.buffered ≡ [])
      × (d.candidates ≡ [])
      × (d.action_overrides ≡ [])
unfolding empty_dispatcher scope_bindings lookup
scope_bindings-new_dispatcher md bs d h =
    let kept = add_bindings_keeps md (empty_dispatcher md) bs in
    rw ((new_dispatcher_inv md bs d h).1)
      (scope_bindings-add_bindings md (empty_dispatcher md) bs, kept.0, kept.1, kept.2)

triggered-HasLongSeq :
    (b : Binding)
    → ((1 ≤ length b.key) × (length b.seq ≡ 0)) ⊎ ((length b.key ≡ 0) × (2 ≤ length b.seq))
    → HasLongSeq b
triggered-HasLongSeq b t = omega arith

keep-HasLongSeq :
    (parse_expr : String → Option Expr) (name : String) (bs : List Binding)
    → All (IsUsable parse_expr) bs
    → All HasLongSeq (of_scope name bs)
keep-HasLongSeq parse_expr name [] h = tt
keep-HasLongSeq parse_expr name (b ∷ bs) h = elim (Bool-cases (str_eq b.scope name)) [
  | inl e ↦ rw e (triggered-HasLongSeq b h.0.triggered, keep-HasLongSeq parse_expr name bs h.1)
  | inr e ↦ rw e (keep-HasLongSeq parse_expr name bs h.1)
]

idle-IsCoherent : (d : Dispatcher) → d.buffered ≡ [] → d.candidates ≡ [] → IsCoherent d
idle-IsCoherent d b c = record {
  awaiting = subst (All (AwaitsMore d.buffered)) (sym c) tt;
  both_empty = ap is_nil b ∙ sym (ap is_nil c);
}

-- A new dispatcher is coherent, and all its sequences have two keys or more.
pub new_dispatcher-IsCoherent :
    (md : Metadata) (bs : List Binding) (d : Dispatcher)
    → new_dispatcher md bs ≡ some d
    → IsCoherent d × SeqsAreLong d
new_dispatcher-IsCoherent md bs d h =
    let made = scope_bindings-new_dispatcher md bs d h in
    let usable = of-validate_bindings md.parse_expr bs (new_dispatcher_inv md bs d h).0 in
    (
      idle-IsCoherent d made.1 made.2,
      λ name.
          subst (All HasLongSeq) (sym (made.0 name)) (keep-HasLongSeq md.parse_expr name bs usable),
    )
