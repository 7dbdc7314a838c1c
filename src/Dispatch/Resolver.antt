-- ===== src/Dispatch/Resolver.antt =====
-- From keys to intents (internal/ui/dispatch/resolver.go, internal/ui/actions/resolve_by_action.go).
-- The generated catalog of intents and the table of an action's scopes are parameters.
pub mod Outcome
pub mod Configured
use jjui.Prelude.{String, Bool, true, false, not, Option, none, some, List, [], ◌∷◌, if◌then◌else◌}
use jjui.Prelude.Maps.{Map, lookup, insert}
use jjui.Prelude.Texts.{trim_space, is_empty}
use jjui.Scopes.{Scope, derive_scope}
use jjui.Bindings.{Args}
use jjui.Dispatch.{
  Key, Continuation, ResolveResult, Metadata, Dispatcher, set_action_when, action_enabled,
  built_in_action_enabled, reset_sequence,
}
use jjui.Dispatch.Keys.{resolve, continuations}

-- `config.ActionConfig`, in the fields that the resolver reads.
pub record ActionConfig : Type 0 where
  pub name : String
  pub lua : String
  pub when : String

pub record Catalog (Intent : Type 0) : Type 0 where
  pub action_scopes : String → List String
  pub resolve_intent : String → String → Args → Option Intent

pub record Result (Intent : Type 0) : Type 0 where
  pub intent : Option Intent
  pub scope : String
  pub args : Args
  pub lua_script : String
  pub pending : Bool
  pub consumed : Bool
  pub continuations : List Continuation

pub record Resolver : Type 0 where
  pub dispatcher : Dispatcher
  pub configured_actions : Map ActionConfig

-- The map of the configured actions: a later one of a name replaces an earlier one.
unfoldable pub configure : Map ActionConfig → List ActionConfig → Map ActionConfig
configure m [] = m
configure m (a ∷ actions) =
    let name = trim_space a.name in configure (if is_empty name then m else insert name a m) actions

-- The loop over the map, whose keys differ and which Go goes through in any order.
unfoldable pub set_whens : Metadata → Dispatcher → Map ActionConfig → Dispatcher
set_whens md d [] = d
set_whens md d ((name, a) ∷ m) = set_action_when md (set_whens md d m) name a.when

-- `newResolverWithActions`.
unfoldable pub new_resolver : Metadata → Dispatcher → List ActionConfig → Resolver
new_resolver md d actions =
    let configured = configure [] actions in
    record { dispatcher = set_whens md d configured; configured_actions = configured }

module _ {Intent : Type 0} where
  abbrev pub empty_result : Result Intent
  empty_result = record {
    intent = none;
    scope = "";
    args = [];
    lua_script = "";
    pending = false;
    consumed = false;
    continuations = [];
  }

  abbrev pub consumed_result : Result Intent
  consumed_result = record empty_result { consumed = true }

  -- The loop of `ResolveByAction`.
  unfoldable pub first_intent : Catalog Intent → List String → String → Args → Option Intent
  first_intent c [] action args = none
  first_intent c (scope ∷ scopes) action args =
      let further = first_intent c scopes action args in
      elim (c.resolve_intent scope action args) [ some i ↦ some i | none ↦ further ]

  unfoldable pub resolve_by_action : Catalog Intent → String → Args → Option Intent
  resolve_by_action c action args =
      let name = trim_space action in
      if is_empty name then none else first_intent c (c.action_scopes name) action args

  unfoldable pub resolve_from_catalog : Catalog Intent → String → Args → Option (Intent × String)
  resolve_from_catalog c action args = elim (resolve_by_action c action args) [
    | none ↦ none
    | some i ↦ some (i, derive_scope c.action_scopes action)
  ]

  unfoldable pub from_catalog : Catalog Intent → String → Args → Result Intent
  from_catalog c action args = elim (resolve_from_catalog c action args) [
    | some (i, scope) ↦ record empty_result {
      intent = some i;
      scope = scope;
      args = args;
      consumed = true;
    }
    | none ↦ empty_result
  ]

  unfoldable pub from_config : ActionConfig → Result Intent
  from_config a =
      let script = trim_space a.lua in
      if is_empty script
      then consumed_result
      else record empty_result { lua_script = script; consumed = true }

  unfoldable pub resolve_action : Resolver → Catalog Intent → String → Args → Bool → Result Intent
  resolve_action r c action args skip_configured =
      let allowed =
        if skip_configured
        then built_in_action_enabled r.dispatcher action
        else action_enabled r.dispatcher action in
      let normal : Result Intent = elim (lookup action r.configured_actions) [
        | some a ↦ from_config a
        | none ↦ from_catalog c action args
      ] in
      if not allowed
      then consumed_result
      else if skip_configured
      then from_catalog c action args
      else normal

  -- `ran` is what the found action resolves to; it is asked for only where there is one.
  unfoldable pub key_result : ResolveResult → Result Intent → Result Intent
  key_result found ran =
      if found.pending
      then record empty_result {
        pending = true;
        consumed = true;
        continuations = found.continuations;
      }
      else if not (is_empty found.action)
      then (if is_empty found.scope then ran else record ran { scope = found.scope })
      else if found.consumed
      then consumed_result
      else empty_result

  unfoldable pub resolve_key :
      Resolver → Catalog Intent → Key → List Scope → Result Intent × Resolver
  unfolding key_result
  resolve_key r c key scopes =
      let (found, d) = resolve r.dispatcher key scopes in
      let r' = record r { dispatcher = d } in
      (key_result found (resolve_action r' c found.action found.args false), r')

unfoldable pub resolver_continuations : Resolver → List Scope → List Continuation
resolver_continuations r scopes = continuations r.dispatcher scopes

unfoldable pub reset_resolver : Resolver → Resolver
reset_resolver r = record r { dispatcher = reset_sequence r.dispatcher }
