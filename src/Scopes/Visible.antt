-- ===== src/Scopes/Visible.antt =====
-- Which scopes `VisibleScopes` (internal/ui/common/scope.go) lets through.
use mathlib.Core.Path.{subst}
use jjui.Prelude.{Memᴰ, sym, of-mem-keep, mem-keep, ◌≡◌, refl, ◌↔◌, true, List, [], ◌∷◌}
use jjui.Scopes.{LeakPolicy, leak_all, leak_global, leak_none, Scope, visible_scopes, visible_after}

-- A scope that can be reached from the innermost one: itself, any outer scope behind scopes that
-- leak everything, and the global ones behind the first scope that leaks only those.
pub data IsReachable : List Scope → Scope → Type 0 where
  innermost : {s : Scope} {rest : List Scope} → IsReachable (s ∷ rest) s
  leaked :
      {s t : Scope} {rest : List Scope}
      → s.leak ≡ leak_all
      → IsReachable rest t
      → IsReachable (s ∷ rest) t
  globally :
      {s t : Scope} {rest : List Scope}
      → s.leak ≡ leak_global
      → Memᴰ t rest
      → t.global ≡ true
      → IsReachable (s ∷ rest) t

module _ {t : Scope} (s : Scope) (rest : List Scope) where
  outer-IsReachable :
      (l : LeakPolicy)
      → s.leak ≡ l
      → (Memᴰ t (visible_scopes rest) → IsReachable rest t)
      → Memᴰ t (visible_after l rest (visible_scopes rest))
      → IsReachable (s ∷ rest) t
  unfolding visible_after
  outer-IsReachable leak_all e further m = leaked e (further m)
  outer-IsReachable leak_global e further m =
      let kept = of-mem-keep (λ (u : Scope). u.global) rest m in globally e kept.0 kept.1
  outer-IsReachable leak_none e further m = elim m [ ]

visible-IsReachable :
    {t : Scope} (scopes : List Scope) → Memᴰ t (visible_scopes scopes) → IsReachable scopes t
unfolding visible_scopes
visible-IsReachable [] m = elim m [ ]
visible-IsReachable (s ∷ rest) (Memᴰ.head e) = subst (IsReachable (s ∷ rest)) (sym e) innermost
visible-IsReachable (s ∷ rest) (Memᴰ.tail m) =
    outer-IsReachable s rest s.leak refl (visible-IsReachable rest) m

reachable-visible :
    {t : Scope} {scopes : List Scope} → IsReachable scopes t → Memᴰ t (visible_scopes scopes)
unfolding visible_scopes
reachable-visible (innermost) = Memᴰ.head refl
reachable-visible (leaked e r) = Memᴰ.tail (rw e (reachable-visible r))
reachable-visible (globally {rest} e m g) =
    Memᴰ.tail (rw e (mem-keep (λ (u : Scope). u.global) rest g m))

-- A scope is visible exactly where it can be reached from the innermost one.
pub mem-visible_scopes :
    (scopes : List Scope) (t : Scope) → Memᴰ t (visible_scopes scopes) ↔ IsReachable scopes t
mem-visible_scopes scopes t = (visible-IsReachable scopes, reachable-visible)
