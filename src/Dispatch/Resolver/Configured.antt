-- ===== src/Dispatch/Resolver/Configured.antt =====
-- Configured actions (internal/ui/dispatch/resolver.go: newResolverWithActions).
use mathlib.Core.Path.{ap₂}
use jjui.Prelude.{
  String, ◌≡◌, refl, sym, ap, ◌∙◌, inl, inr, Bool, true, false, Option, none, some, List, [], ◌∷◌,
  arith, str_eq, eq_iff, if◌then◌else◌, Bool-cases, Option-cases,
}
use jjui.Prelude.Maps.{Map, lookup, insert, lookup-insert, lookup-delete}
use jjui.Prelude.Texts.{trim_space, is_empty}
use jjui.Condition.{Condition, parse_condition, matches}
use jjui.Dispatch.{Metadata, Dispatcher, set_action_when, action_enabled, built_in_action_enabled}
use jjui.Dispatch.Resolver.{ActionConfig, configure, set_whens, new_resolver}

-- The last configured action whose trimmed name is `name`, over `r` for none.
abbrev pub last_named : String → Option ActionConfig → List ActionConfig → Option ActionConfig
last_named name r [] = r
last_named name r (a ∷ actions) =
    last_named name (if str_eq (trim_space a.name) name then some a else r) actions

other_name :
    (name other : String)
    → is_empty name ≡ false
    → is_empty other ≡ true
    → str_eq other name ≡ false
other_name name other n o = ground (arith, eq_iff other name, eq_iff other "", eq_iff name "")

lookup-configure :
    (name : String) (m : Map ActionConfig) (actions : List ActionConfig)
    → is_empty name ≡ false
    → lookup name (configure m actions) ≡ last_named name (lookup name m) actions
unfolding configure
lookup-configure name m [] n = refl
lookup-configure name m (a ∷ actions) n = elim (Bool-cases (is_empty (trim_space a.name))) [
  | inl blank ↦ rw blank (
      lookup-configure name m actions n
      ∙ ap (λ b. last_named name (if b then some a else lookup name m) actions)
          (sym (other_name name (trim_space a.name) n blank)))
  | inr text ↦ rw text (
      lookup-configure name (insert (trim_space a.name) a m) actions n
      ∙ ap (λ r. last_named name r actions) (lookup-insert (trim_space a.name) name a m))
]

-- The override that a configured condition stands for: none where it is blank or cannot be read.
abbrev pub override_of : Metadata → String → Option Condition
override_of md when = elim (parse_condition md.parse_expr when) [
  | none ↦ none
  | some c ↦ if is_empty (trim_space when) then none else some c
]

lookup-set_action_when :
    (md : Metadata) (d : Dispatcher) (action when k : String)
    → lookup k (set_action_when md d action when).action_overrides
      ≡ (if str_eq action k then override_of md when else lookup k d.action_overrides)
unfolding set_action_when
lookup-set_action_when md d action when k =
    elim (Option-cases (parse_condition md.parse_expr when)) [
      | inl e ↦ ground (arith, lookup-delete action k d.action_overrides)
      | inr (c, e) ↦ ground (
        arith,
        lookup-delete action k d.action_overrides,
        lookup-insert action k c d.action_overrides,
      )
    ]

set_action_when_keeps :
    (md : Metadata) (d : Dispatcher) (action when : String)
    → ((set_action_when md d action when).state ≡ d.state)
      × ((set_action_when md d action when).built_in_actions ≡ d.built_in_actions)
unfolding set_action_when
set_action_when_keeps md d action when = ground arith

set_whens_keeps :
    (md : Metadata) (d : Dispatcher) (m : Map ActionConfig)
    → ((set_whens md d m).state ≡ d.state)
      × ((set_whens md d m).built_in_actions ≡ d.built_in_actions)
unfolding set_whens
set_whens_keeps md d [] = (refl, refl)
set_whens_keeps md d ((name, a) ∷ m) =
    let (s, b) = set_action_when_keeps md (set_whens md d m) name a.when in
    let (s', b') = set_whens_keeps md d m in (s ∙ s', b ∙ b')

-- `o`, or what the dispatcher had, for an action without a configuration.
abbrev pub overridden : Metadata → Option ActionConfig → Option Condition → Option Condition
overridden md none c = c
overridden md (some a) c = override_of md a.when

lookup-set_whens :
    (md : Metadata) (d : Dispatcher) (m : Map ActionConfig) (k : String)
    → lookup k (set_whens md d m).action_overrides
      ≡ overridden md (lookup k m) (lookup k d.action_overrides)
unfolding set_whens lookup
lookup-set_whens md d [] k = refl
lookup-set_whens md d ((name, a) ∷ m) k =
    lookup-set_action_when md (set_whens md d m) name a.when k
    ∙ under_test (str_eq name k) (lookup-set_whens md d m k)
  where
    under_test :
        (b : Bool)
        → lookup k (set_whens md d m).action_overrides
          ≡ overridden md (lookup k m) (lookup k d.action_overrides)
        → (if b then override_of md a.when else lookup k (set_whens md d m).action_overrides)
          ≡ overridden md (if b then some a else lookup k m) (lookup k d.action_overrides)
    under_test true ih = refl
    under_test false ih = ih

-- Whether an action may run, by its override or else by its built-in condition.
abbrev pub allowed_by : Option Condition → Dispatcher → String → Bool
allowed_by none d action = built_in_action_enabled d action
allowed_by (some c) d action = matches c d.state

lookup-nil : {V : Type 0} (k : String) → lookup {V = V} k [] ≡ none
unfolding lookup
lookup-nil k = refl

action_enabled_by :
    (d e : Dispatcher) (action : String) (o : Option Condition)
    → lookup action d.action_overrides ≡ o
    → d.state ≡ e.state
    → d.built_in_actions ≡ e.built_in_actions
    → action_enabled d action ≡ allowed_by o e action
unfolding action_enabled
action_enabled_by d e action none o s b =
    rw (o, action_enabled)
      (ap₂ (λ m st. elim (lookup action m) [ none ↦ true | some c ↦ matches c st ]) b s)
action_enabled_by d e action (some c) o s b = rw (o, action_enabled) (ap (matches c) s)

-- The last configured action of a name is the one that counts, and with a new dispatcher its
-- condition, where it has one that can be read, decides in place of the built-in one.
pub new_resolver_configured :
    (md : Metadata) (d : Dispatcher) (actions : List ActionConfig) (name : String)
    → d.action_overrides ≡ []
    → is_empty name ≡ false
    → let r = new_resolver md d actions in
      let a = last_named name none actions in
      (lookup name r.configured_actions ≡ a)
      × (action_enabled r.dispatcher name ≡ allowed_by (overridden md a none) d name)
unfolding new_resolver
new_resolver_configured md d actions name fresh n =
    let m = configure [] actions in
    let found =
      lookup-configure name [] actions n ∙ ap (λ r. last_named name r actions) (lookup-nil name) in
    let kept = set_whens_keeps md d m in
    let none_before = ap (lookup name) fresh ∙ lookup-nil name in
    (
      found,
      action_enabled_by (set_whens md d m) d name _
          (lookup-set_whens md d m name ∙ ap₂ (overridden md) found none_before) kept.0 kept.1,
    )
