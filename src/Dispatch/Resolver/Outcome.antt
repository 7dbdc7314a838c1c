-- ===== src/Dispatch/Resolver/Outcome.antt =====
-- What an action resolves to (internal/ui/dispatch/resolver.go).
use mathlib.Core.Path.{subst}
use mathlib.Core.Bool.{false≢true}
use jjui.Prelude.{
  String, ◌≡◌, refl, sym, ap, ◌∙◌, ◌≢◌, ◌⊎◌, inl, inr, Bool, true, false, not, Option, none, some,
  List, [], ◌∷◌, arith, if◌then◌else◌, Bool-cases, Option-cases,
}
use jjui.Prelude.Maps.{lookup}
use jjui.Prelude.Texts.{trim_space, is_empty}
use jjui.Scopes.{Scope, derive_scope}
use jjui.Bindings.{Args}
use jjui.Dispatch.{ResolveResult, Key, action_enabled, built_in_action_enabled}
use jjui.Dispatch.Keys.{resolve}
use jjui.Dispatch.Resolver.{
  ActionConfig, Catalog, Result, Resolver, empty_result, consumed_result, first_intent,
  resolve_by_action, resolve_from_catalog, from_catalog, from_config, resolve_action, key_result,
  resolve_key,
}

module _ {Intent : Type 0} (c : Catalog Intent) (action : String) (args : Args) where
  -- The intent is the catalog's, in the first of the scopes that has the action.
  pub data FirstIntent : List String → Option Intent → Type 0 where
    no_scope : FirstIntent [] none
    here :
        {scope : String} {scopes : List String} {i : Intent}
        → c.resolve_intent scope action args ≡ some i
        → FirstIntent (scope ∷ scopes) (some i)
    further :
        {scope : String} {scopes : List String} {r : Option Intent}
        → c.resolve_intent scope action args ≡ none
        → FirstIntent scopes r
        → FirstIntent (scope ∷ scopes) r

  pub first_intent-FirstIntent :
      (scopes : List String) → FirstIntent scopes (first_intent c scopes action args)
  unfolding first_intent
  first_intent-FirstIntent [] = no_scope
  first_intent-FirstIntent (s ∷ ss) = elim (Option-cases (c.resolve_intent s action args)) [
    | inl e ↦ rw (e, first_intent) (further e (first_intent-FirstIntent ss))
    | inr (i, e) ↦ rw (e, first_intent) (here e)
  ]

-- Whether the action may run, by its override if one is configured.
abbrev pub Allowed : Resolver → String → Bool → Type 0
Allowed r action true = built_in_action_enabled r.dispatcher action ≡ true
Allowed r action false = action_enabled r.dispatcher action ≡ true

-- What `resolveAction` decides, on every branch.
pub data ActionOutcome {Intent : Type 0} (r : Resolver) (c : Catalog Intent) (action : String)
    (args : Args) (skip : Bool) : Result Intent → Type 0 where
  disabled : ¬ Allowed r action skip → ActionOutcome r c action args skip consumed_result
  scripted :
      (a : ActionConfig)
      → Allowed r action skip
      → skip ≡ false
      → lookup action r.configured_actions ≡ some a
      → is_empty (trim_space a.lua) ≡ false
      → ActionOutcome r c action args skip
          (record empty_result { lua_script = trim_space a.lua; consumed = true })
  no_script :
      (a : ActionConfig)
      → Allowed r action skip
      → skip ≡ false
      → lookup action r.configured_actions ≡ some a
      → is_empty (trim_space a.lua) ≡ true
      → ActionOutcome r c action args skip consumed_result
  built_in :
      (i : Intent)
      → Allowed r action skip
      → (skip ≡ true) ⊎ (lookup action r.configured_actions ≡ none)
      → is_empty (trim_space action) ≡ false
      → FirstIntent c action args (c.action_scopes (trim_space action)) (some i)
      → ActionOutcome r c action args skip (record empty_result {
        intent = some i;
        scope = derive_scope c.action_scopes action;
        args = args;
        consumed = true;
      })
  unresolved :
      Allowed r action skip
      → (skip ≡ true) ⊎ (lookup action r.configured_actions ≡ none)
      → resolve_by_action c action args ≡ none
      → ActionOutcome r c action args skip empty_result

module _ {Intent : Type 0} (r : Resolver) (c : Catalog Intent) (action : String) (args : Args)
    (skip : Bool) where
  by_action :
      {i : Intent}
      → resolve_by_action c action args ≡ some i
      → (is_empty (trim_space action) ≡ false)
        × FirstIntent c action args (c.action_scopes (trim_space action)) (some i)
  unfolding resolve_by_action
  by_action h =
      let nonempty : is_empty (trim_space action) ≡ false = ground arith in
      (
        nonempty,
        subst (FirstIntent c action args (c.action_scopes (trim_space action))) (ground arith)
            (first_intent-FirstIntent c action args (c.action_scopes (trim_space action))),
      )

  catalog-ActionOutcome :
      Allowed r action skip
      → (skip ≡ true) ⊎ (lookup action r.configured_actions ≡ none)
      → ActionOutcome r c action args skip (from_catalog c action args)
  unfolding from_catalog resolve_from_catalog
  catalog-ActionOutcome ok free = elim (Option-cases (resolve_by_action c action args)) [
    | inl e ↦ rw (e, from_catalog, resolve_from_catalog) (unresolved ok free e)
    | inr (i, e) ↦
        rw (e, from_catalog, resolve_from_catalog)
          (built_in i ok free (by_action e).0 (by_action e).1)
  ]

  config-ActionOutcome :
      (a : ActionConfig)
      → Allowed r action skip
      → skip ≡ false
      → lookup action r.configured_actions ≡ some a
      → ActionOutcome r c action args skip (from_config a)
  unfolding from_config
  config-ActionOutcome a ok normal e = elim (Bool-cases (is_empty (trim_space a.lua))) [
    | inl blank ↦ rw blank (no_script a ok normal e blank)
    | inr text ↦ rw text (scripted a ok normal e text)
  ]

module _ {Intent : Type 0} (r : Resolver) (c : Catalog Intent) (action : String) (args : Args) where
  normal_action :
      Allowed r action false
      → ActionOutcome r c action args false (resolve_action r c action args false)
  unfolding resolve_action
  normal_action ok = rw ok (elim (Option-cases (lookup action r.configured_actions)) [
    | inl e ↦ rw (e, resolve_action) (catalog-ActionOutcome r c action args false ok (inr e))
    | inr (a, e) ↦ rw (e, resolve_action) (config-ActionOutcome r c action args false a ok refl e)
  ])

  built_in_action :
      Allowed r action true
      → ActionOutcome r c action args true (resolve_action r c action args true)
  unfolding resolve_action
  built_in_action ok = rw ok (catalog-ActionOutcome r c action args true ok (inl refl))

  -- A disabled action is consumed and does nothing. An allowed one runs its configured script, or
  -- does nothing where that is blank; only without a configured action, or where these are passed
  -- over, does it become the intent that the catalog has for it in the first of its scopes.
  pub resolve_action-ActionOutcome :
      (skip : Bool) → ActionOutcome r c action args skip (resolve_action r c action args skip)
  unfolding resolve_action
  resolve_action-ActionOutcome false = elim (Bool-cases (action_enabled r.dispatcher action)) [
    | inl ok ↦ normal_action ok
    | inr no_way ↦ rw no_way (disabled (λ ok. false≢true (sym no_way ∙ ok)))
  ]
  resolve_action-ActionOutcome true =
      elim (Bool-cases (built_in_action_enabled r.dispatcher action)) [
        | inl ok ↦ built_in_action ok
        | inr no_way ↦ rw no_way (disabled (λ ok. false≢true (sym no_way ∙ ok)))
      ]

-- The result carries an intent or a script.
abbrev pub Acts : {Intent : Type 0} → Result Intent → Type 0
Acts res = (res.intent ≢ none) ⊎ (is_empty res.lua_script ≡ false)

-- A result without an intent and without a script does not act.
idle :
    {Intent : Type 0} (res : Result Intent) → res.intent ≡ none → res.lua_script ≡ "" → ¬ Acts res
idle res i s (inl acts) = acts i
idle res i s (inr acts) = false≢true (sym acts ∙ ap is_empty s)

module _ {Intent : Type 0} {r : Resolver} {c : Catalog Intent} {action : String} {args : Args} where
  Acts-Allowed :
      {skip : Bool} {res : Result Intent}
      → ActionOutcome r c action args skip res
      → Acts res
      → Allowed r action skip
  Acts-Allowed (disabled no_way) acts = absurd (idle consumed_result refl refl acts)
  Acts-Allowed (scripted a ok normal e text) acts = ok
  Acts-Allowed (no_script a ok normal e blank) acts = ok
  Acts-Allowed (built_in i ok free n f) acts = ok
  Acts-Allowed (unresolved ok free e) acts = ok

Acts-by_cases :
    {Intent : Type 0} (found : ResolveResult) (ran : Result Intent)
    (pending no_action no_scope consumed : Bool)
    → Acts (
        if pending
        then record empty_result {
          pending = true;
          consumed = true;
          continuations = found.continuations;
        }
        else if not no_action
        then (if no_scope then ran else record ran { scope = found.scope })
        else if consumed
        then consumed_result
        else empty_result)
    → (pending ≡ false) × (no_action ≡ false) × Acts ran
Acts-by_cases found ran true n s k acts = absurd (idle empty_result refl refl acts)
Acts-by_cases found ran false true s true acts = absurd (idle consumed_result refl refl acts)
Acts-by_cases found ran false true s false acts = absurd (idle empty_result refl refl acts)
Acts-by_cases found ran false false true k acts = (refl, refl, acts)
Acts-by_cases found ran false false false k acts = (refl, refl, acts)

key_result-Acts :
    {Intent : Type 0} (found : ResolveResult) (ran : Result Intent)
    → Acts (key_result found ran)
    → (found.pending ≡ false) × (is_empty found.action ≡ false) × Acts ran
unfolding key_result
key_result-Acts found ran acts =
    Acts-by_cases found ran found.pending (is_empty found.action) (is_empty found.scope)
      found.consumed acts

module _ {Intent : Type 0} (r : Resolver) (c : Catalog Intent) (key : Key)
    (scopes : List Scope) where
  abbrev found_action : String
  found_action = (resolve r.dispatcher key scopes).0.action

  -- A key has an intent or a script only where the dispatcher found an action for it that may run.
  pub resolve_key-Allowed :
      Acts (resolve_key r c key scopes).0
      → ((resolve r.dispatcher key scopes).0.pending ≡ false)
        × (is_empty found_action ≡ false)
        × Allowed (resolve_key r c key scopes).1 found_action false
  unfolding resolve_key
  resolve_key-Allowed acts =
      let (found, d) = resolve r.dispatcher key scopes in
      let r' = record r { dispatcher = d } in
      let run = key_result-Acts found (resolve_action r' c found.action found.args false) acts in
      (
        run.0,
        run.1,
        Acts-Allowed (resolve_action-ActionOutcome r' c found.action found.args false) run.2,
      )
