-- ===== src/Dispatch/Tests.antt =====
-- A dispatcher with a key and two sequences (internal/ui/dispatch).
use jjui.Prelude.{String, ◌≡◌, refl, inr, true, false, none, some, List, [], ◌∷◌}
use jjui.Prelude.Maps.{lookup, insert}
use jjui.Prelude.Texts.{trim_space, is_empty}
use jjui.Condition.{matches, parse_condition}
use jjui.Scopes.{Scope, leak_all, visible_scopes}
use jjui.Bindings.{Binding, validate, validate_bindings}
use jjui.Dispatch.{
  Key, Metadata, Dispatcher, new_dispatcher, add_bindings, empty_dispatcher, enabled,
  action_enabled, key_matches, is_prefix, scope_bindings, initial_sequence_candidates,
  eligible_candidates,
}
use jjui.Dispatch.Keys.{
  resolve, resolve_single, resolve_sequence_key, complete_match, filtered_candidates, find_binding,
  after_match,
}
use jjui.Dispatch.Single.{Winner, resolve-Winner}
use jjui.Dispatch.Pending.{
  IsCoherent, SeqsAreLong, SequenceOutcome, resolve_sequence_key-SequenceOutcome,
}
use jjui.Dispatch.Coherent.{Agrees, resolve-Agrees}
use jjui.Dispatch.Registry.{new_dispatcher-IsCoherent}
use jjui.Dispatch.Resolver.{
  ActionConfig, Catalog, Resolver, resolve_action, resolve_key, from_config,
}
use jjui.Dispatch.Resolver.Outcome.{
  ActionOutcome, Allowed, resolve_action-ActionOutcome, resolve_key-Allowed,
}

abbrev key_of : String → Key
key_of s = record { text = s; keystroke = s }

abbrev ui : Scope
ui = record { name = "ui"; leak = leak_all; global = true; hide_from_help = false; handler = 0 }

abbrev on_key : String → List String → List String → Binding
on_key action key seq = record {
  action = action;
  desc = "";
  when = "";
  scope = "ui";
  key = key;
  seq = seq;
  args = [];
}

abbrev bindings : List Binding
bindings =
    on_key "quit" ("q" ∷ []) []
    ∷ on_key "push" [] ("g" ∷ "p" ∷ [])
    ∷ on_key "fetch" [] ("g" ∷ "f" ∷ [])
    ∷ []

abbrev metadata : Metadata
metadata = record { parse_expr = λ _. none; built_in_actions = []; action_when = λ _. "" }

abbrev fresh : Dispatcher
fresh = record {
  bindings = ("ui", bindings) ∷ [];
  conditions = ("", none) ∷ [];
  built_in_actions = [];
  action_overrides = [];
  state = none;
  buffered = [];
  candidates = [];
}

fresh_made : new_dispatcher metadata bindings ≡ some fresh
unfolding new_dispatcher add_bindings empty_dispatcher validate_bindings validate parse_condition
    trim_space insert lookup
fresh_made = refl

resolve-Winner_example :
    Winner fresh (key_of "q") (visible_scopes (ui ∷ [])) (resolve fresh (key_of "q") (ui ∷ [])).0
    × ((resolve fresh (key_of "q") (ui ∷ [])).1 ≡ fresh)
unfolding initial_sequence_candidates visible_scopes scope_bindings lookup enabled matches
    action_enabled key_matches
resolve-Winner_example = resolve-Winner fresh (key_of "q") (ui ∷ []) refl refl refl

-- `g` begins two sequences, and `p` completes one.
abbrev after_g : Dispatcher
after_g = record fresh {
  buffered = key_of "g" ∷ [];
  candidates =
      record { scope = "ui"; binding = on_key "push" [] ("g" ∷ "p" ∷ []) }
      ∷ record { scope = "ui"; binding = on_key "fetch" [] ("g" ∷ "f" ∷ []) }
      ∷ [];
}

g_waits : (resolve fresh (key_of "g") (ui ∷ [])).1 ≡ after_g
unfolding resolve initial_sequence_candidates visible_scopes scope_bindings lookup enabled matches
    action_enabled key_matches
g_waits = refl

p_pushes : (resolve after_g (key_of "p") (ui ∷ [])).0.action ≡ "push"
unfolding resolve resolve_sequence_key filtered_candidates complete_match after_match
    eligible_candidates visible_scopes lookup enabled matches action_enabled key_matches is_prefix
p_pushes = refl

resolve_sequence_key-SequenceOutcome_example :
    SequenceOutcome after_g
      (key_of "p")
      after_g.candidates
      (resolve_sequence_key after_g (key_of "p") after_g.candidates)
resolve_sequence_key-SequenceOutcome_example =
    resolve_sequence_key-SequenceOutcome after_g (key_of "p") after_g.candidates

fresh-IsCoherent : IsCoherent fresh
fresh-IsCoherent = record { awaiting = tt; both_empty = refl }

fresh-SeqsAreLong : SeqsAreLong fresh
fresh-SeqsAreLong = (new_dispatcher-IsCoherent metadata bindings fresh fresh_made).1

resolve-Agrees_example : Agrees (resolve fresh (key_of "g") (ui ∷ []))
resolve-Agrees_example =
    resolve-Agrees fresh (key_of "g") (ui ∷ []) fresh-SeqsAreLong fresh-IsCoherent refl

-- The catalog has an intent, its name, for each action of the scope `ui`.
abbrev catalog : Catalog String
catalog = record {
  action_scopes = λ _. "ui" ∷ [];
  resolve_intent = λ scope action args. some action;
}

abbrev quit_script : ActionConfig
quit_script = record { name = "quit"; lua = "quit()"; when = "" }

abbrev resolver : Resolver
resolver = record { dispatcher = fresh; configured_actions = ("quit", quit_script) ∷ [] }

q_scripts : is_empty (resolve_key resolver catalog (key_of "q") (ui ∷ [])).0.lua_script ≡ false
unfolding resolve_key resolve resolve_single find_binding resolve_action from_config trim_space
    initial_sequence_candidates visible_scopes scope_bindings lookup enabled matches action_enabled
    key_matches
q_scripts = refl

resolve_action-ActionOutcome_example :
    ActionOutcome resolver catalog "push" [] false (resolve_action resolver catalog "push" [] false)
resolve_action-ActionOutcome_example = resolve_action-ActionOutcome resolver catalog "push" [] false

resolve_key-Allowed_example :
    let found = (resolve fresh (key_of "q") (ui ∷ [])).0 in
    (found.pending ≡ false)
    × (is_empty found.action ≡ false)
    × Allowed (resolve_key resolver catalog (key_of "q") (ui ∷ [])).1 found.action false
resolve_key-Allowed_example =
    resolve_key-Allowed resolver catalog (key_of "q") (ui ∷ []) (inr q_scripts)
