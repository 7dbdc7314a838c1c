-- ===== src/Revisions/Layers/Editing.antt =====
-- What the scopes of the list of revisions let through to the program (Scopes of
-- internal/ui/revisions/revisions.go, VisibleScopes of internal/ui/common/scope.go), and how the
-- operations come to an end.
use mathlib.Core.Bool.{false≢true}
use mathlib.Core.List.{append_assoc}
use jjui.Prelude.{
  ltb, ℕ, zero, suc, ◌≡◌, refl, sym, ap, ◌∙◌, inl, inr, String, Bool, true, false, not, ◌||◌, List,
  [], ◌∷◌, ◌++◌, if◌then◌else◌, length, Bool-cases, All, All-append,
}
use jjui.Prelude.Texts.{is_empty}
use jjui.Revisions.{clear_checked_revisions}
use jjui.Revisions.Layers.{
  ImmediateModel, RevisionsView, is_editing, in_normal_mode, inner_scopes, own_scope,
  quick_search_scopes, scopes, cancel, close_view, reset_operations, pop_layer, base_operation,
}
use jjui.Scopes.{LeakPolicy, leak_all, leak_none, leak_global, Scope, visible_scopes, visible_after}

-- It does not let the global scopes alone through.
abbrev pub is_plain : Scope → Bool
is_plain s = elim s.leak [ leak_all ↦ true | leak_global ↦ false | leak_none ↦ true ]

abbrev pub AllPlain : List Scope → Type 0
AllPlain = All (λ s. is_plain s ≡ true)

after_closed :
    (l : LeakPolicy) (rest rest' further further' : List Scope)
    → (elim l as (λ x. Bool) [ leak_all ↦ true | leak_global ↦ false | leak_none ↦ true ]) ≡ true
    → further ≡ further'
    → visible_after l rest further ≡ visible_after l rest' further'
unfolding visible_after
after_closed leak_all rest rest' f f' h e = e
after_closed leak_global rest rest' f f' h e = absurd (false≢true h)
after_closed leak_none rest rest' f f' h e = refl

visible_closed :
    (front outer : List Scope) (last : Scope)
    → last.leak ≡ leak_none
    → AllPlain front
    → visible_scopes (front ++ last ∷ outer) ≡ visible_scopes (front ++ last ∷ [])
unfolding visible_scopes visible_after
visible_closed [] outer last e h = rw (visible_scopes, e) refl
visible_closed (s ∷ front) outer last e (p, h) =
    ap (λ xs. s ∷ xs)
      (after_closed s.leak (front ++ last ∷ outer) (front ++ last ∷ [])
        (visible_scopes (front ++ last ∷ outer)) (visible_scopes (front ++ last ∷ [])) p
        (visible_closed front outer last e h))

abbrev own_leak : Bool → LeakPolicy
own_leak editing = if editing then leak_none else leak_all

own_none : (v : RevisionsView) → is_editing v ≡ true → own_leak (is_editing v) ≡ leak_none
own_none v e = rw e refl

own_plain :
    (v : RevisionsView) (name : String) → is_editing v ≡ true → is_plain (own_scope name v) ≡ true
own_plain v name e = rw e refl

search_plain : (v : RevisionsView) → is_editing v ≡ true → AllPlain (quick_search_scopes v)
search_plain v e = elim (Bool-cases (is_empty v.quick_search)) [
  | inl q ↦ rw q tt
  | inr q ↦ rw q (own_plain v "revisions.quick_search" e, tt)
]

-- While an operation of the list or a layer is editing, no scope outside of the list is visible,
-- if no scope of the operation and the layers lets the global ones through.
pub visible_scopes-scopes :
    (v : RevisionsView) (outer : List Scope)
    → is_editing v ≡ true
    → AllPlain (inner_scopes v)
    → visible_scopes (scopes v ++ outer) ≡ visible_scopes (scopes v)
unfolding scopes
visible_scopes-scopes v outer e h =
    let own = own_scope (if in_normal_mode v then "revisions" else "") v in
    let front = inner_scopes v ++ quick_search_scopes v in
    ap visible_scopes (append_assoc front (own ∷ []) outer)
    ∙ visible_closed front outer own (own_none v e) (
        All-append (λ s. is_plain s ≡ true) (inner_scopes v) (quick_search_scopes v) h
          (search_plain v e))

-- Closing as often as there are layers, and once more.
abbrev pub close_times : ℕ → RevisionsView → RevisionsView
close_times zero v = v
close_times (suc n) v = close_times n (close_view v)

-- Closing the view once for each layer and once more comes to the normal mode.
pub close_times-in_normal_mode :
    (v : RevisionsView) (layers : List ImmediateModel)
    → in_normal_mode (close_times (suc (length layers)) (record v { layers = layers })) ≡ true
unfolding close_view reset_operations pop_layer in_normal_mode base_operation
close_times-in_normal_mode v [] = refl
close_times-in_normal_mode v (layer ∷ below) = close_times-in_normal_mode v below

cancel_refused :
    (v : RevisionsView)
    → ltb 0 (length v.list.checked_revisions) || not (in_normal_mode v) ≡ false
    → cancel v ≡ (v, false)
unfolding cancel
cancel_refused v e = rw (cancel, e) refl

-- After a cancellation a second one changes nothing and goes on to the program.
pub cancel_twice : (v : RevisionsView) → cancel (cancel v).0 ≡ ((cancel v).0, false)
unfolding cancel reset_operations in_normal_mode base_operation clear_checked_revisions
cancel_twice v =
    elim (Bool-cases (ltb 0 (length v.list.checked_revisions) || not (in_normal_mode v))) [
      | inl e ↦ rw (cancel, e) refl
      | inr e ↦
          let same = cancel_refused v e in
          ap (λ r. cancel r.0) same ∙ same ∙ sym (ap (λ r. (r.0, false)) same)
    ]
