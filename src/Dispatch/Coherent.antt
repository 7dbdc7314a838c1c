-- ===== src/Dispatch/Coherent.antt =====
-- The state of the dispatcher over many keys (internal/ui/dispatch/dispatcher.go: Resolve).
use mathlib.Core.Path.{subst}
use jjui.Prelude.{
  ◌≡◌, refl, sym, ap, ◌∙◌, ◌≢◌, inl, inr, true, false, not, List, [], ◌∷◌, ◌++◌, arith, Bool-cases,
  All,
}
use jjui.Prelude.Texts.{is_empty}
use jjui.Scopes.{Scope, visible_scopes}
use jjui.Dispatch.{
  Key, Dispatcher, Candidate, ResolveResult, reset_sequence, scope_bindings,
  initial_sequence_candidates,
}
use jjui.Dispatch.Keys.{
  pending_result, pending_continuations, filtered_candidates, is_nil, resolve_sequence_key,
  resolve_single, resolve, after_match,
}
use jjui.Dispatch.Pending.{
  AwaitsMore, IsCoherent, SeqsAreLong, initial_in-AwaitsMore, SequenceOutcome, cancelled,
  no_continuation, completed, awaited, resolve_sequence_key-SequenceOutcome,
}

-- A result that agrees with the dispatcher that comes with it: it is pending exactly where a
-- sequence is in progress.
abbrev pub Agrees : ResolveResult × Dispatcher → Type 0
Agrees r = IsCoherent r.1 × (r.0.pending ≡ not (is_nil r.1.buffered))

reset-IsCoherent : (d : Dispatcher) → IsCoherent (reset_sequence d)
unfolding reset_sequence
reset-IsCoherent d = record { awaiting = tt; both_empty = refl }

is_nil-append : (ks : List Key) (k : Key) → is_nil (ks ++ k ∷ []) ≡ false
is_nil-append [] k = refl
is_nil-append (j ∷ ks) k = refl

is_nil_of_ne : (cs : List Candidate) → cs ≢ [] → is_nil cs ≡ false
is_nil_of_ne [] h = absurd (h refl)
is_nil_of_ne (c ∷ cs) h = refl

outcome-Agrees :
    (d : Dispatcher) (key : Key) {cs : List Candidate} {r : ResolveResult × Dispatcher}
    → SequenceOutcome d key cs r
    → Agrees r × (r.0.consumed ≡ true)
unfolding reset_sequence
outcome-Agrees d key (cancelled e) = ((record { awaiting = tt; both_empty = refl }, refl), refl)
outcome-Agrees d key (no_continuation other e) =
    ((record { awaiting = tt; both_empty = refl }, refl), refl)
outcome-Agrees d key (completed c other m) =
    ((record { awaiting = tt; both_empty = refl }, refl), refl)
outcome-Agrees d key {cs} (awaited d' other e all ne) =
    let busy = is_nil-append d.buffered key in
    let left = is_nil_of_ne (filtered_candidates d key cs) ne in
    rw e ((record { awaiting = all; both_empty = busy ∙ sym left }, rw busy refl), refl)

not_pending :
    (d : Dispatcher) (key : Key) (scopes : List Scope)
    → (resolve_single d key scopes).pending ≡ false
unfolding resolve_single
not_pending d key [] = refl
not_pending d key (s ∷ scopes) = ground (arith, not_pending d key scopes)

module _ (d : Dispatcher) (key : Key) (scopes : List Scope) where
  initial-Agrees :
      SeqsAreLong d
      → (cs : List Candidate) → initial_sequence_candidates d key scopes ≡ cs
      → cs ≢ []
      → Agrees (
        pending_result
            (pending_continuations (record d { buffered = key ∷ []; candidates = cs }) cs),
        record d { buffered = key ∷ []; candidates = cs },
      )
  unfolding initial_sequence_candidates
  initial-Agrees long cs e ne =
      let all =
        subst (All (AwaitsMore (key ∷ []))) e
          (initial_in-AwaitsMore d key (visible_scopes scopes) long) in
      (record { awaiting = all; both_empty = sym (is_nil_of_ne cs ne) }, refl)

  -- A key keeps the sequence state coherent, and its result says whether a sequence is in progress
  -- afterwards.
  pub resolve-Agrees :
      SeqsAreLong d → IsCoherent d → is_empty key.text ≡ false → Agrees (resolve d key scopes)
  unfolding resolve
  resolve-Agrees long v t = rw t (elim (Bool-cases (is_nil d.buffered)) [
    | inl idle ↦ rw idle (elim (Bool-cases (is_nil (initial_sequence_candidates d key scopes))) [
      | inl none_start ↦
          rw none_start (v, not_pending d key (visible_scopes scopes) ∙ sym (ap not idle))
      | inr start ↦ rw start (initial-Agrees long _ refl (λ e. cc))
    ])
    | inr busy ↦ rw busy (outcome-Agrees d key (resolve_sequence_key-SequenceOutcome d key _)).0
  ])

  resolve_keeps : (resolve d key scopes).1.bindings ≡ d.bindings
  unfolding resolve resolve_sequence_key after_match reset_sequence
  resolve_keeps = ground arith

  resolve-IsCoherent : SeqsAreLong d → IsCoherent d → IsCoherent (resolve d key scopes).1
  unfolding resolve
  resolve-IsCoherent long v = elim (Bool-cases (is_empty key.text)) [
    | inl silent ↦ rw silent v
    | inr text ↦ (resolve-Agrees long v text).0
  ]

  -- While a sequence is in progress every key with a text is consumed.
  pub resolve_busy_consumes :
      is_empty key.text ≡ false
      → is_nil d.buffered ≡ false
      → (resolve d key scopes).0.consumed ≡ true
  unfolding resolve
  resolve_busy_consumes t busy =
      rw (t, busy) (outcome-Agrees d key (resolve_sequence_key-SequenceOutcome d key _)).1

resolve-SeqsAreLong :
    (d : Dispatcher) (key : Key) (scopes : List Scope)
    → SeqsAreLong d
    → SeqsAreLong (resolve d key scopes).1
unfolding scope_bindings
resolve-SeqsAreLong d key scopes long name = rw (resolve_keeps d key scopes) (long name)

-- Keys one after another, each with the scopes of its moment, and the results of the calls.
unfoldable pub resolve_all : Dispatcher → List (Key × List Scope) → List ResolveResult × Dispatcher
resolve_all d [] = ([], d)
resolve_all d ((key, scopes) ∷ keys) =
    let (r, d') = resolve d key scopes in let (rs, last) = resolve_all d' keys in (r ∷ rs, last)

-- From a coherent state in which no sequence has one key only, the sequence state stays coherent
-- over any keys.
pub resolve_all-IsCoherent :
    (d : Dispatcher) (keys : List (Key × List Scope))
    → SeqsAreLong d
    → IsCoherent d
    → IsCoherent (resolve_all d keys).1
unfolding resolve_all
resolve_all-IsCoherent d [] long v = v
resolve_all-IsCoherent d ((key, scopes) ∷ keys) long v =
    resolve_all-IsCoherent (resolve d key scopes).1 keys (resolve-SeqsAreLong d key scopes long)
      (resolve-IsCoherent d key scopes long v)
