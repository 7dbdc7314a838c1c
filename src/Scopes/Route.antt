-- ===== src/Scopes/Route.antt =====
-- Which handler `RouteIntent` (internal/ui/common/scope.go) leaves an intent to.
use jjui.Prelude.{
  ℕ, ◌≡◌, refl, ap, Bool, true, false, Option, none, some, List, [], ◌∷◌, ◌++◌, if◌then◌else◌,
}
use jjui.Scopes.{Scope, visible_scopes, route_through, route_intent}

module _ {State Intent Cmd : Type 0} (handle_intent : ℕ → Intent → State → State × Cmd × Bool)
    (intent : Intent) where
  -- The handlers of the scopes are called in order and none consumes the intent.
  pub data Refused : List Scope → State → State → Type 0 where
    all_asked : {s : State} → Refused [] s s
    refused :
        {c : Scope} {cs : List Scope} {s t u : State} {cmd : Cmd}
        → handle_intent c.handler intent s ≡ (t, cmd, false)
        → Refused cs t u
        → Refused (c ∷ cs) s u

  -- What the loop does over `scopes` from state `s`.
  pub data Routed (scopes : List Scope) (s : State) : State × Option Cmd × Bool → Type 0 where
    not_consumed : {t : State} → Refused scopes s t → Routed scopes s (t, none, false)
    consumed :
        {before : List Scope} (c : Scope) (after : List Scope) {t u : State} {cmd : Cmd}
        → scopes ≡ before ++ c ∷ after
        → Refused before s t
        → handle_intent c.handler intent t ≡ (u, cmd, true)
        → Routed scopes s (u, some cmd, true)

  Routed-cons :
      {c : Scope} {scopes : List Scope} {s t : State} {cmd : Cmd} {r : State × Option Cmd × Bool}
      → handle_intent c.handler intent s ≡ (t, cmd, false)
      → Routed scopes t r
      → Routed (c ∷ scopes) s r
  Routed-cons e (not_consumed n) = not_consumed (refused e n)
  Routed-cons {c} e (consumed d after split n h) =
      consumed d after (ap (◌∷◌ c) split) (refused e n) h

  route_step :
      (c : Scope) (cs : List Scope) (s : State) (r : State × Cmd × Bool)
      → handle_intent c.handler intent s ≡ r
      → ((t : State) → Routed cs t (route_through handle_intent cs intent t))
      → Routed
          (c ∷ cs)
          s
          (if r.2 then (r.0, some r.1, true) else route_through handle_intent cs intent r.0)
  route_step c cs s (t, cmd, true) e further = consumed c cs refl all_asked e
  route_step c cs s (t, cmd, false) e further = Routed-cons e (further t)

  route_through-Routed :
      (scopes : List Scope) (s : State)
      → Routed scopes s (route_through handle_intent scopes intent s)
  unfolding route_through
  route_through-Routed [] s = not_consumed all_asked
  route_through-Routed (c ∷ cs) s =
      route_step c cs s (handle_intent c.handler intent s) refl (route_through-Routed cs)

  -- An intent goes to the first visible scope whose handler consumes it, after all scopes inside
  -- that one have refused it, each seeing the state that the one before left.
  pub route_intent-Routed :
      (scopes : List Scope) (s : State)
      → Routed (visible_scopes scopes) s (route_intent handle_intent scopes intent s)
  unfolding route_intent
  route_intent-Routed scopes s = route_through-Routed (visible_scopes scopes) s
