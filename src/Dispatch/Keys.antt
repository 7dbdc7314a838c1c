-- ===== src/Dispatch/Keys.antt =====
-- How the dispatcher resolves a key (internal/ui/dispatch/dispatcher.go: Resolve, resolveSequenceKey,
-- pendingContinuations). A result comes with the dispatcher that the call leaves.
use mathlib.Core.List.{reverse}
use jjui.Prelude.{
  ℕ, suc, Bool, true, false, ◌&&◌, Option, none, some, List, [], ◌∷◌, ◌++◌, map, String, str_eq,
  ◌==◌, if◌then◌else◌, length, keep, any, get_elem?,
}
use jjui.Prelude.Texts.{is_empty, join}
use jjui.Scopes.{Scope, visible_scopes}
use jjui.Bindings.{Binding}
use jjui.Dispatch.{
  Key, Continuation, ResolveResult, Candidate, Dispatcher, enabled, key_matches, is_prefix,
  eligible_candidates, reset_sequence, scope_bindings, initial_sequence_candidates,
}

-- An entry of `pendingContinuations`: the continuation so far, and the descriptions to join. The
-- list of entries is `order` and `byKey` in one.
record Entry : Type 0 where
  cont : Continuation
  descs : List String

add_entry : String → Continuation → List Entry → List Entry
add_entry desc c [] = record { cont = c; descs = desc ∷ [] } ∷ []
add_entry desc c (e ∷ es) =
    if str_eq c.key e.cont.key
    then record {
      cont = record (e.cont) { is_leaf = e.cont.is_leaf && c.is_leaf };
      descs = e.descs ++ desc ∷ [];
    }
      ∷ es
    else e ∷ add_entry desc c es

add_candidate : ℕ → Candidate → List Entry → List Entry
unfolding add_entry
add_candidate idx c es = elim (get_elem? c.binding.seq idx) [
  | none ↦ es
  | some next ↦
      add_entry (if is_empty c.binding.desc then c.binding.action else c.binding.desc)
        (record {
          key = next;
          desc = "";
          action = c.binding.action;
          is_leaf = suc idx == length c.binding.seq;
        })
        es
]

entries : ℕ → List Candidate → List Entry → List Entry
unfolding add_candidate
entries idx [] es = es
entries idx (c ∷ cs) es = entries idx cs (add_candidate idx c es)

unfoldable pub pending_continuations : Dispatcher → List Candidate → List Continuation
unfolding entries
pending_continuations d cs =
    map (λ e. record (e.cont) { desc = join ", " e.descs }) (entries (length d.buffered) cs [])

unfoldable pub continuations : Dispatcher → List Scope → List Continuation
continuations d scopes = pending_continuations d (eligible_candidates d scopes)

abbrev pub no_result : ResolveResult
no_result = record {
  action = "";
  scope = "";
  args = [];
  pending = false;
  consumed = false;
  continuations = [];
}

abbrev pub swallowed : ResolveResult
swallowed = record no_result { consumed = true }

abbrev pub pending_result : List Continuation → ResolveResult
pending_result cs = record no_result { pending = true; consumed = true; continuations = cs }

abbrev pub action_result : String → Binding → ResolveResult
action_result scope b = record no_result {
  action = b.action;
  scope = scope;
  args = b.args;
  consumed = true;
}

abbrev pub of_length : ℕ → Candidate → Bool
of_length n c = length c.binding.seq == n

-- The loop over the filtered candidates: the first complete one gives the scope, and the last
-- complete one in that scope gives the action.
unfoldable pub last_in_scope : ℕ → Candidate → List Candidate → Candidate
last_in_scope n match [] = match
last_in_scope n match (c ∷ cs) =
    last_in_scope n (if of_length n c && str_eq c.scope match.scope then c else match) cs

unfoldable pub complete_match : ℕ → List Candidate → Option Candidate
unfolding last_in_scope
complete_match n [] = none
complete_match n (c ∷ cs) =
    let later = complete_match n cs in if of_length n c then some (last_in_scope n c cs) else later

abbrev pub next_buffer : Dispatcher → Key → List Key
next_buffer d key = d.buffered ++ key ∷ []

unfoldable pub filtered_candidates : Dispatcher → Key → List Candidate → List Candidate
filtered_candidates d key cs = keep (λ c. is_prefix c.binding.seq (next_buffer d key)) cs

abbrev pub is_nil {ℓ} : {A : Type ℓ} → List A → Bool
is_nil [] = true
is_nil (x ∷ xs) = false

-- The end of `resolveSequenceKey`, with the buffer and the candidates already those of the key.
unfoldable pub after_match : Dispatcher → Option Candidate → ResolveResult × Dispatcher
after_match d (some c) = (action_result c.scope c.binding, reset_sequence d)
after_match d none = (pending_result (pending_continuations d d.candidates), d)

unfoldable pub resolve_sequence_key : Dispatcher → Key → List Candidate → ResolveResult × Dispatcher
resolve_sequence_key d key cs =
    let filtered = filtered_candidates d key cs in
    let d' = record d { buffered = next_buffer d key; candidates = filtered } in
    if key_matches "esc" key
    then (swallowed, reset_sequence d)
    else if is_nil filtered
    then (swallowed, reset_sequence d)
    else after_match d' (complete_match (length (next_buffer d key)) filtered)

-- The last of the enabled bindings that the key matches, for `slices.Backward`.
unfoldable pub find_binding : Dispatcher → Key → List Binding → Option Binding
find_binding d key [] = none
find_binding d key (b ∷ bs) =
    let next = find_binding d key bs in
    if enabled d b && any (λ k. key_matches k key) b.key then some b else next

unfoldable pub resolve_single : Dispatcher → Key → List Scope → ResolveResult
unfolding find_binding
resolve_single d key [] = no_result
resolve_single d key (s ∷ scopes) =
    let outer = resolve_single d key scopes in
    elim (find_binding d key (reverse (scope_bindings d s.name))) [
      | some b ↦ action_result s.name b
      | none ↦ outer
    ]

unfoldable pub resolve : Dispatcher → Key → List Scope → ResolveResult × Dispatcher
resolve d key scopes =
    let initial = initial_sequence_candidates d key scopes in
    let started = record d { buffered = key ∷ []; candidates = initial } in
    let idle : ResolveResult × Dispatcher =
      if is_nil initial
      then (resolve_single d key (visible_scopes scopes), d)
      else (pending_result (pending_continuations started initial), started) in
    if is_empty key.text
    then (no_result, d)
    else if is_nil d.buffered
    then idle
    else resolve_sequence_key d key (eligible_candidates d scopes)
