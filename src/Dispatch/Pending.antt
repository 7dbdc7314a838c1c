-- ===== src/Dispatch/Pending.antt =====
-- The state of a key sequence (internal/ui/dispatch/dispatcher.go: Resolve, resolveSequenceKey).
use jjui.Prelude.{
  ℕ, ◌≤◌, ◌<◌, String, ◌≡◌, refl, ap, ◌≢◌, inl, inr, true, false, ◌&&◌, Option, none, some, List,
  [], ◌∷◌, arith, Bool-cases, length, All, All-append, All-keep, All-map, All-both,
}
use jjui.Scopes.{Scope}
use jjui.Bindings.{Binding}
use jjui.Dispatch.{
  Key, Dispatcher, Candidate, ResolveResult, enabled, key_matches, is_prefix, reset_sequence,
  scope_bindings, starts_seq, candidates_in, initial_in,
}
use jjui.Dispatch.Keys.{
  swallowed, action_result, pending_result, pending_continuations, next_buffer, filtered_candidates,
  is_nil, resolve_sequence_key, after_match,
}
use jjui.Dispatch.Sequence.{Complete, incomplete, complete_match-Complete}

-- The candidate's sequence begins with the keys `ks`, and has more.
abbrev pub AwaitsMore : List Key → Candidate → Type 0
AwaitsMore ks c = (is_prefix c.binding.seq ks ≡ true) × (length ks < length c.binding.seq)

-- A sequence is in progress exactly where there are candidates, and each of them waits for a key.
pub record IsCoherent (d : Dispatcher) : Type 0 where
  pub awaiting : All (AwaitsMore d.buffered) d.candidates
  pub both_empty : is_nil d.buffered ≡ is_nil d.candidates

-- No sequence consists of one key, as `validate` demands.
abbrev pub HasLongSeq : Binding → Type 0
HasLongSeq b = length b.seq ≢ 1

abbrev pub SeqsAreLong : Dispatcher → Type 0
SeqsAreLong d = (name : String) → All HasLongSeq (scope_bindings d name)

starts-AwaitsMore :
    (key : Key) (name : String) (b : Binding) (seq : List String)
    → b.seq ≡ seq
    → HasLongSeq b
    → starts_seq key seq ≡ true
    → AwaitsMore (key ∷ []) (record { scope = name; binding = b })
unfolding is_prefix
starts-AwaitsMore key name b [] e long h = cc
starts-AwaitsMore key name b (k ∷ []) e long h = absurd (long (ap length e))
starts-AwaitsMore key name b (k ∷ j ∷ seq) e long h = (rw e (ground arith), rw e (omega arith))

candidates_in-AwaitsMore :
    (d : Dispatcher) (key : Key) (name : String) (bs : List Binding)
    → All HasLongSeq bs
    → All (AwaitsMore (key ∷ [])) (candidates_in d key name bs)
unfolding candidates_in
candidates_in-AwaitsMore d key name [] h = tt
candidates_in-AwaitsMore d key name (b ∷ bs) h =
    elim (Bool-cases (enabled d b && starts_seq key b.seq)) [
      | inl e ↦ rw e (
        starts-AwaitsMore key name b b.seq refl h.0 (ground arith),
        candidates_in-AwaitsMore d key name bs h.1,
      )
      | inr e ↦ rw e (candidates_in-AwaitsMore d key name bs h.1)
    ]

pub initial_in-AwaitsMore :
    (d : Dispatcher) (key : Key) (scopes : List Scope)
    → SeqsAreLong d
    → All (AwaitsMore (key ∷ [])) (initial_in d key scopes)
unfolding initial_in
initial_in-AwaitsMore d key [] long = tt
initial_in-AwaitsMore d key (s ∷ scopes) long =
    All-append _ (candidates_in d key s.name (scope_bindings d s.name)) (initial_in d key scopes)
      (candidates_in-AwaitsMore d key s.name (scope_bindings d s.name) (long s.name))
      (initial_in-AwaitsMore d key scopes long)

length-le_of_prefix :
    (full : List String) (ks : List Key) → is_prefix full ks ≡ true → length ks ≤ length full
unfolding is_prefix
length-le_of_prefix full [] h = omega arith
length-le_of_prefix [] (k ∷ ks) h = cc
length-le_of_prefix (f ∷ full) (k ∷ ks) h =
    omega (arith, length-le_of_prefix full ks (ground arith))

-- The candidates that go on, where none is complete.
filtered-AwaitsMore :
    (d : Dispatcher) (key : Key) (cs : List Candidate)
    → All (λ c. length c.binding.seq ≢ length (next_buffer d key)) (filtered_candidates d key cs)
    → All (AwaitsMore (next_buffer d key)) (filtered_candidates d key cs)
unfolding filtered_candidates
filtered-AwaitsMore d key cs h = All-map {Q = AwaitsMore (next_buffer d key)} at_least _ (
    All-both (λ (c : Candidate). is_prefix c.binding.seq (next_buffer d key) ≡ true)
      (λ (c : Candidate). length c.binding.seq ≢ length (next_buffer d key)) _
      (All-keep (λ (c : Candidate). is_prefix c.binding.seq (next_buffer d key)) cs) h)
  where
    at_least :
        (c : Candidate)
        → (is_prefix c.binding.seq (next_buffer d key) ≡ true)
          × (length c.binding.seq ≢ length (next_buffer d key))
        → AwaitsMore (next_buffer d key) c
    at_least c (p, ne) = (p, omega (arith, length-le_of_prefix c.binding.seq (next_buffer d key) p))

-- What a key does while a sequence is in progress, on every branch.
pub data SequenceOutcome (d : Dispatcher) (key : Key) (cs : List Candidate)
    : ResolveResult × Dispatcher → Type 0 where
  cancelled : key_matches "esc" key ≡ true → SequenceOutcome d key cs (swallowed, reset_sequence d)
  no_continuation :
      key_matches "esc" key ≡ false
      → filtered_candidates d key cs ≡ []
      → SequenceOutcome d key cs (swallowed, reset_sequence d)
  completed :
      (c : Candidate)
      → key_matches "esc" key ≡ false
      → Complete (length (next_buffer d key)) (filtered_candidates d key cs) (some c)
      → SequenceOutcome d key cs (action_result c.scope c.binding, reset_sequence d)
  awaited :
      (d' : Dispatcher)
      → key_matches "esc" key ≡ false
      → d' ≡ record d { buffered = next_buffer d key; candidates = filtered_candidates d key cs }
      → All (AwaitsMore (next_buffer d key)) (filtered_candidates d key cs)
      → filtered_candidates d key cs ≢ []
      → SequenceOutcome d key cs (pending_result (pending_continuations d' d'.candidates), d')

All-incomplete :
    {n : ℕ} {cs : List Candidate} → Complete n cs none → All (λ c. length c.binding.seq ≢ n) cs
All-incomplete (incomplete all) = all

after_match-SequenceOutcome :
    (d : Dispatcher) (key : Key) (cs : List Candidate) (r : Option Candidate)
    → key_matches "esc" key ≡ false
    → filtered_candidates d key cs ≢ []
    → Complete (length (next_buffer d key)) (filtered_candidates d key cs) r
    → SequenceOutcome d key cs (
        after_match
          (record d { buffered = next_buffer d key; candidates = filtered_candidates d key cs })
          r)
unfolding after_match reset_sequence
after_match-SequenceOutcome d key cs none other ne m =
    awaited _ other refl (filtered-AwaitsMore d key cs (All-incomplete m)) ne
after_match-SequenceOutcome d key cs (some c) other ne m = completed c other m

-- A key that comes while a sequence is in progress either is escape, or, where it is not, fits no
-- candidate, or completes the sequence of the first complete candidate's scope that was added last, or leaves the
-- candidates that fit, all of them longer; the first three end the sequence.
pub resolve_sequence_key-SequenceOutcome :
    (d : Dispatcher) (key : Key) (cs : List Candidate)
    → SequenceOutcome d key cs (resolve_sequence_key d key cs)
unfolding resolve_sequence_key
resolve_sequence_key-SequenceOutcome d key cs = elim (Bool-cases (key_matches "esc" key)) [
  | inl esc ↦ rw esc (cancelled esc)
  | inr other ↦ rw other (elim (Bool-cases (is_nil (filtered_candidates d key cs))) [
    | inl none_left ↦ rw none_left (no_continuation other (ground arith))
    | inr some_left ↦
        rw some_left
          (after_match-SequenceOutcome d key cs _ other (λ e. cc) (complete_match-Complete _ _))
  ])
]
