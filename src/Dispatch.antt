-- ===== src/Dispatch.antt =====
-- The key dispatcher (internal/ui/dispatch/dispatcher.go). A key of Bubble Tea is what its
-- `String` and `Keystroke` return; a map of bindings keeps, for each scope, the order of adding.
pub mod Resolver
pub mod Keys
pub mod Single
pub mod Sequence
pub mod Pending
pub mod Coherent
pub mod Registry
mod Tests
use jjui.Prelude.{
  Bool, true, false, ◌&&◌, ◌||◌, Option, none, some, List, [], ◌∷◌, ◌++◌, String, str_eq,
  if◌then◌else◌, keep, any,
}
use jjui.Prelude.Maps.{Map, lookup, insert, delete}
use jjui.Prelude.Texts.{trim_space, is_empty}
use jjui.Condition.{Expr, Condition, StateProvider, parse_condition, matches}
use jjui.Scopes.{Scope, visible_scopes}
use jjui.Bindings.{Args, Binding, validate_bindings}

-- `tea.Key`, by its `String()` and its `Keystroke()`.
pub record Key : Type 0 where
  pub text : String
  pub keystroke : String

pub record Continuation : Type 0 where
  pub key : String
  pub desc : String
  pub action : String
  pub is_leaf : Bool

pub record ResolveResult : Type 0 where
  pub action : String
  pub scope : String
  pub args : Args
  pub pending : Bool
  pub consumed : Bool
  pub continuations : List Continuation

pub record Candidate : Type 0 where
  pub scope : String
  pub binding : Binding

pub record Dispatcher : Type 0 where
  pub bindings : Map (List Binding)
  pub conditions : Map Condition
  pub built_in_actions : Map Condition
  pub action_overrides : Map Condition
  pub state : Option StateProvider
  pub buffered : List Key
  pub candidates : List Candidate

-- What the dispatcher takes from elsewhere: the expression parser of Go's standard library, and
-- the generated table of built-in actions with their conditions.
pub record Metadata : Type 0 where
  pub parse_expr : String → Option Expr
  pub built_in_actions : List String
  pub action_when : String → String

abbrev pub or_zero : Option Condition → Condition
or_zero none = none
or_zero (some c) = c

abbrev pub or_empty {ℓ} : {A : Type ℓ} → Option (List A) → List A
or_empty none = []
or_empty (some xs) = xs

unfoldable pub add_built_in : Metadata → Map Condition → List String → Map Condition
add_built_in md m [] = m
add_built_in md m (action ∷ actions) =
    let when = md.action_when action in
    let condition = or_zero (parse_condition md.parse_expr when) in
    add_built_in md (if is_empty when then m else insert action condition m) actions

unfoldable pub add_binding : Metadata → Dispatcher → Binding → Dispatcher
add_binding md d b =
    let condition = or_zero (parse_condition md.parse_expr b.when) in
    let added = or_empty (lookup b.scope d.bindings) ++ b ∷ [] in
    record d {
      conditions = insert b.when condition d.conditions;
      bindings = insert b.scope added d.bindings;
    }

unfoldable pub add_bindings : Metadata → Dispatcher → List Binding → Dispatcher
unfolding add_binding
add_bindings md d [] = d
add_bindings md d (b ∷ bs) = add_bindings md (add_binding md d b) bs

unfoldable pub empty_dispatcher : Metadata → Dispatcher
unfolding add_built_in
empty_dispatcher md = record {
  bindings = [];
  conditions = [];
  built_in_actions = add_built_in md [] md.built_in_actions;
  action_overrides = [];
  state = none;
  buffered = [];
  candidates = [];
}

-- `none` where a binding is refused.
unfoldable pub new_dispatcher : Metadata → List Binding → Option Dispatcher
new_dispatcher md available = elim (validate_bindings md.parse_expr available) [
  | some e ↦ none
  | none ↦ some (add_bindings md (empty_dispatcher md) available)
]

unfoldable pub set_state_provider : Dispatcher → Option StateProvider → Dispatcher
set_state_provider d state = record d { state = state }

unfoldable pub set_action_when : Metadata → Dispatcher → String → String → Dispatcher
set_action_when md d action when = elim (parse_condition md.parse_expr when) [
  | none ↦ record d { action_overrides = delete action d.action_overrides }
  | some condition ↦
      if is_empty (trim_space when)
      then record d { action_overrides = delete action d.action_overrides }
      else record d { action_overrides = insert action condition d.action_overrides }
]

unfoldable pub built_in_action_enabled : Dispatcher → String → Bool
built_in_action_enabled d action = elim (lookup action d.built_in_actions) [
  | none ↦ true
  | some condition ↦ matches condition d.state
]

unfoldable pub action_enabled : Dispatcher → String → Bool
unfolding built_in_action_enabled
action_enabled d action = elim (lookup action d.action_overrides) [
  | some condition ↦ matches condition d.state
  | none ↦ built_in_action_enabled d action
]

unfoldable pub enabled : Dispatcher → Binding → Bool
enabled d b = matches (or_zero (lookup b.when d.conditions)) d.state && action_enabled d b.action

unfoldable pub key_matches : String → Key → Bool
key_matches candidate key = str_eq candidate key.text || str_eq candidate key.keystroke

unfoldable pub is_prefix : List String → List Key → Bool
is_prefix full [] = true
is_prefix [] (k ∷ ks) = false
is_prefix (f ∷ full) (k ∷ ks) = key_matches f k && is_prefix full ks

unfoldable pub eligible_candidates : Dispatcher → List Scope → List Candidate
eligible_candidates d scopes =
    let visible = visible_scopes scopes in
    keep (λ c. enabled d c.binding && any (λ s. str_eq s.name c.scope) visible) d.candidates

unfoldable pub reset_sequence : Dispatcher → Dispatcher
reset_sequence d = record d { buffered = []; candidates = [] }

-- The bindings of a scope, in the order in which they were added.
unfoldable pub scope_bindings : Dispatcher → String → List Binding
scope_bindings d name = or_empty (lookup name d.bindings)

-- `len(binding.Seq) > 0 && keyMatches(binding.Seq[0], key)`.
abbrev pub starts_seq : Key → List String → Bool
starts_seq key [] = false
starts_seq key (first ∷ seq) = key_matches first key

unfoldable pub candidates_in : Dispatcher → Key → String → List Binding → List Candidate
candidates_in d key name [] = []
candidates_in d key name (b ∷ bs) =
    let rest = candidates_in d key name bs in
    if enabled d b && starts_seq key b.seq
    then record { scope = name; binding = b } ∷ rest
    else rest

unfoldable pub initial_in : Dispatcher → Key → List Scope → List Candidate
unfolding candidates_in
initial_in d key [] = []
initial_in d key (s ∷ scopes) =
    candidates_in d key s.name (scope_bindings d s.name) ++ initial_in d key scopes

unfoldable pub initial_sequence_candidates : Dispatcher → Key → List Scope → List Candidate
unfolding initial_in
initial_sequence_candidates d key scopes = initial_in d key (visible_scopes scopes)
