-- ===== src/Scopes.antt =====
-- Routing scopes (internal/ui/common/scope.go). A handler is a reference into the program's state;
-- what calling it does is a parameter of `route_intent`, which passes that state on.
pub mod Visible
pub mod Route
mod Tests
use jjui.Prelude.{
  ℕ, Bool, true, false, Option, none, some, List, [], ◌∷◌, String, if◌then◌else◌, keep,
}
use jjui.Prelude.Texts.{trim_space, is_empty}

pub data LeakPolicy : Type 0 where
  leak_all leak_global leak_none : LeakPolicy

pub record Scope : Type 0 where
  pub name : String
  pub leak : LeakPolicy
  pub global : Bool
  pub hide_from_help : Bool
  pub handler : ℕ

unfoldable pub visible_after : LeakPolicy → List Scope → List Scope → List Scope
visible_after leak_all rest further = further
visible_after leak_global rest further = keep (λ s. s.global) rest
visible_after leak_none rest further = []

unfoldable pub visible_scopes : List Scope → List Scope
unfolding visible_after
visible_scopes [] = []
visible_scopes (scope ∷ rest) =
    let further = visible_scopes rest in scope ∷ visible_after scope.leak rest further

-- The loop of `RouteIntent`: the first handler that consumes the intent ends it.
module _ {State Intent Cmd : Type 0} (handle_intent : ℕ → Intent → State → State × Cmd × Bool) where
  unfoldable pub route_through : List Scope → Intent → State → State × Option Cmd × Bool
  route_through [] intent state = (state, none, false)
  route_through (scope ∷ scopes) intent state =
      let (state', cmd, handled) = handle_intent scope.handler intent state in
      let further = route_through scopes intent state' in
      if handled then (state', some cmd, true) else further

  unfoldable pub route_intent : List Scope → Intent → State → State × Option Cmd × Bool
  unfolding route_through
  route_intent scopes intent state = route_through (visible_scopes scopes) intent state

first_or_empty : List String → String
first_or_empty [] = ""
first_or_empty (s ∷ ss) = s

-- `DeriveScope`; `action_scopes` is the generated table of `actionmeta`.
unfoldable pub derive_scope : (String → List String) → String → String
unfolding first_or_empty
derive_scope action_scopes action =
    let name = trim_space action in
    if is_empty name then "" else first_or_empty (action_scopes name)
