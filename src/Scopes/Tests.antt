-- ===== src/Scopes/Tests.antt =====
-- A dialog over the revisions view and the root scope (internal/ui/common/scope.go).
use jjui.Prelude.{ℕ, ◌+◌, String, ◌≡◌, refl, ◌↔◌, Bool, true, false, Memᴰ, [], ◌∷◌, ◌==◌}
use jjui.Scopes.{leak_all, leak_global, Scope, visible_scopes, route_intent}
use jjui.Scopes.Visible.{IsReachable, mem-visible_scopes}
use jjui.Scopes.Route.{Routed, route_intent-Routed}

abbrev menu : Scope
menu = record {
  name = "git";
  leak = leak_global;
  global = false;
  hide_from_help = false;
  handler = 1;
}

abbrev view : Scope
view = record {
  name = "revisions";
  leak = leak_all;
  global = false;
  hide_from_help = false;
  handler = 2;
}

abbrev root : Scope
root = record { name = "ui"; leak = leak_all; global = true; hide_from_help = false; handler = 3 }

shown : visible_scopes (menu ∷ view ∷ root ∷ []) ≡ menu ∷ root ∷ []
unfolding visible_scopes
shown = refl

mem-visible_scopes_example :
    Memᴰ root (visible_scopes (menu ∷ view ∷ root ∷ []))
    ↔ IsReachable (menu ∷ view ∷ root ∷ []) root
mem-visible_scopes_example = mem-visible_scopes (menu ∷ view ∷ root ∷ []) root

-- The handler 3 takes every intent; the others refuse. The state counts the calls.
abbrev counting : ℕ → String → ℕ → ℕ × ℕ × Bool
counting handler intent calls = (calls + 1, handler, handler == 3)

route_intent-Routed_example :
    Routed counting "quit"
      (visible_scopes (menu ∷ view ∷ root ∷ []))
      0
      (route_intent counting (menu ∷ view ∷ root ∷ []) "quit" 0)
route_intent-Routed_example = route_intent-Routed counting "quit" (menu ∷ view ∷ root ∷ []) 0
