-- ===== src/Dispatch/Single.antt =====
-- Which binding a single key runs (internal/ui/dispatch/dispatcher.go: Resolve).
use mathlib.Core.Path.{subst}
use mathlib.Core.List.{reverse, reverse-reverse}
use jjui.Prelude.{
  String, ◌≡◌, refl, ap, inl, inr, true, false, ◌&&◌, Option, none, some, Memᴰ, List, [], ◌∷◌, ◌++◌,
  arith, Bool-cases, All-reverse, split_reverse, any, All,
}
use jjui.Prelude.Texts.{is_empty}
use jjui.Scopes.{Scope, visible_scopes}
use jjui.Bindings.{Binding}
use jjui.Dispatch.{
  Key, Dispatcher, ResolveResult, enabled, key_matches, scope_bindings, initial_sequence_candidates,
}
use jjui.Dispatch.Keys.{no_result, action_result, find_binding, resolve_single, resolve}

module _ (d : Dispatcher) (key : Key) where
  -- The key is one of the binding's keys and the binding is enabled.
  abbrev pub Fires : Binding → Type 0
  Fires b = (enabled d b ≡ true) × ((k : String) × Memᴰ k b.key × (key_matches k key ≡ true))

  abbrev pub Silent : Binding → Type 0
  Silent b = ¬ Fires b

  any-Fires :
      (ks : List String)
      → any (λ k. key_matches k key) ks ≡ true
      → (k : String) × Memᴰ k ks × (key_matches k key ≡ true)
  any-Fires [] h = cc
  any-Fires (k ∷ ks) h = elim (Bool-cases (key_matches k key)) [
    | inl e ↦ (k, Memᴰ.head refl, e)
    | inr e ↦ let (j, m, f) = any-Fires ks (ground arith) in (j, Memᴰ.tail m, f)
  ]

  fires-any :
      {k : String} (ks : List String)
      → Memᴰ k ks
      → key_matches k key ≡ true
      → any (λ j. key_matches j key) ks ≡ true
  fires-any [] m h = elim m [ ]
  fires-any (j ∷ ks) (Memᴰ.head e) h = ground arith
  fires-any (j ∷ ks) (Memᴰ.tail m) h = ground (arith, fires-any ks m h)

  -- The result of a search for a firing binding through `bs`, from the front.
  data Found (bs : List Binding) : Option Binding → Type 0 where
    missing : All Silent bs → Found bs none
    found :
        (before : List Binding) (b : Binding) (after : List Binding)
        → bs ≡ before ++ b ∷ after
        → All Silent before
        → Fires b
        → Found bs (some b)

  Found-cons :
      {bs : List Binding} {r : Option Binding} (b : Binding)
      → Silent b
      → Found bs r
      → Found (b ∷ bs) r
  Found-cons b n (missing all) = missing (n, all)
  Found-cons b n (found before c after e all f) =
      found (b ∷ before) c after (ap (◌∷◌ b) e) (n, all) f

  silent : (b : Binding) → (enabled d b && any (λ k. key_matches k key) b.key) ≡ false → Silent b
  silent b e f = let hit = fires-any b.key f.1.1 f.1.2 in ground (arith, f.0)

  find_binding-Found : (bs : List Binding) → Found bs (find_binding d key bs)
  unfolding find_binding
  find_binding-Found [] = missing tt
  find_binding-Found (b ∷ bs) =
      elim (Bool-cases (enabled d b && any (λ k. key_matches k key) b.key)) [
        | inl e ↦ rw e (found [] b bs refl tt (ground arith, any-Fires b.key (ground arith)))
        | inr e ↦ rw e (Found-cons b (silent b e) (find_binding-Found bs))
      ]

  -- Which binding wins among the scopes, innermost first: in the first scope with a firing binding,
  -- the one that was added last.
  pub data Winner : List Scope → ResolveResult → Type 0 where
    nobody : Winner [] no_result
    inner :
        {s : Scope} {rest : List Scope} (older : List Binding) (b : Binding) (newer : List Binding)
        → scope_bindings d s.name ≡ older ++ b ∷ newer
        → Fires b
        → All Silent newer
        → Winner (s ∷ rest) (action_result s.name b)
    outer :
        {s : Scope} {rest : List Scope} {r : ResolveResult}
        → All Silent (scope_bindings d s.name)
        → Winner rest r
        → Winner (s ∷ rest) r

  All-Silent-reverse : (bs : List Binding) → All Silent (reverse bs) → All Silent bs
  All-Silent-reverse bs h =
      subst (All Silent) (reverse-reverse bs) (All-reverse Silent (reverse bs) h)

  scope-Winner :
      (s : Scope) (rest : List Scope) (r : Option Binding)
      → Found (reverse (scope_bindings d s.name)) r
      → Winner rest (resolve_single d key rest)
      → Winner
          (s ∷ rest)
          (elim r [ some b ↦ action_result s.name b | none ↦ resolve_single d key rest ])
  scope-Winner s rest none (missing all) w = outer (All-Silent-reverse _ all) w
  scope-Winner s rest (some b) (found before c after e all f) w =
      inner (reverse after) b (reverse before) (split_reverse _ before after b e) f
        (All-reverse Silent before all)

  resolve_single-Winner : (scopes : List Scope) → Winner scopes (resolve_single d key scopes)
  unfolding resolve_single
  resolve_single-Winner [] = nobody
  resolve_single-Winner (s ∷ rest) =
      scope-Winner s rest (find_binding d key (reverse (scope_bindings d s.name)))
        (find_binding-Found _) (resolve_single-Winner rest)

resolve_idle :
    (d : Dispatcher) (key : Key) (scopes : List Scope)
    → is_empty key.text ≡ false
    → d.buffered ≡ []
    → initial_sequence_candidates d key scopes ≡ []
    → resolve d key scopes ≡ (resolve_single d key (visible_scopes scopes), d)
unfolding resolve
resolve_idle d key scopes t idle none_start = ground arith

-- With no sequence in progress and none that the key starts, the key runs the binding that wins
-- among the visible scopes, if any does, and the dispatcher stays as it was.
pub resolve-Winner :
    (d : Dispatcher) (key : Key) (scopes : List Scope)
    → is_empty key.text ≡ false
    → d.buffered ≡ []
    → initial_sequence_candidates d key scopes ≡ []
    → Winner d key (visible_scopes scopes) (resolve d key scopes).0 × ((resolve d key scopes).1 ≡ d)
resolve-Winner d key scopes t idle none_start =
    rw (resolve_idle d key scopes t idle none_start)
      (resolve_single-Winner d key (visible_scopes scopes), refl)
