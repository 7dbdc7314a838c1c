-- ===== src/Dispatch/Sequence.antt =====
-- What a key does to a key sequence (internal/ui/dispatch/dispatcher.go: resolveSequenceKey).
use mathlib.Core.Path.{subst}
use mathlib.Core.Bool.{false≢true}
use jjui.Prelude.{
  ℕ, String, ◌≡◌, refl, sym, ap, ◌∙◌, ◌≢◌, ◌↔◌, inl, inr, true, ◌&&◌, Option, none, some, List, [],
  ◌∷◌, ◌++◌, arith, str_eq, eq_iff, Bool-cases, length, All,
}
use jjui.Dispatch.{Candidate}
use jjui.Dispatch.Keys.{of_length, last_in_scope, complete_match}

-- A candidate of the scope `name` whose sequence has `n` keys.
abbrev pub IsRival : ℕ → String → Candidate → Type 0
IsRival n name c = (length c.binding.seq ≡ n) × (c.scope ≡ name)

module _ (n : ℕ) where
  -- The last rival of `match` among `match` itself and the candidates behind it.
  pub data LastRival (match : Candidate) (cs : List Candidate) : Candidate → Type 0 where
    itself : All (λ c. ¬ IsRival n match.scope c) cs → LastRival match cs match
    later :
        (before : List Candidate) (m : Candidate) (after : List Candidate)
        → cs ≡ before ++ m ∷ after
        → IsRival n match.scope m
        → All (λ c. ¬ IsRival n match.scope c) after
        → LastRival match cs m

  IsRival-iff :
      (c match : Candidate)
      → ((of_length n c && str_eq c.scope match.scope) ≡ true) ↔ IsRival n match.scope c
  IsRival-iff c match = ground (arith, eq_iff c.scope match.scope)

  LastRival-cons :
      {c match m : Candidate} {cs : List Candidate}
      → ¬ IsRival n match.scope c
      → LastRival match cs m
      → LastRival match (c ∷ cs) m
  LastRival-cons no_rival (itself all) = itself (no_rival, all)
  LastRival-cons {c} no_rival (later before m after e r all) =
      later (c ∷ before) m after (ap (◌∷◌ c) e) r all

  LastRival-replace :
      (c match : Candidate) {m : Candidate} {cs : List Candidate}
      → IsRival n match.scope c
      → LastRival c cs m
      → LastRival match (c ∷ cs) m
  LastRival-replace c match {cs} r (itself all) =
      later [] c cs refl r (subst (λ s. All (λ d. ¬ IsRival n s d) cs) r.1 all)
  LastRival-replace c match r (later before m after e q all) =
      later (c ∷ before) m after (ap (◌∷◌ c) e) (q.0, q.1 ∙ r.1)
        (subst (λ s. All (λ d. ¬ IsRival n s d) after) r.1 all)

  last_in_scope-LastRival :
      (match : Candidate) (cs : List Candidate) → LastRival match cs (last_in_scope n match cs)
  unfolding last_in_scope
  last_in_scope-LastRival match [] = itself tt
  last_in_scope-LastRival match (c ∷ cs) =
      elim (Bool-cases (of_length n c && str_eq c.scope match.scope)) [
        | inl e ↦
            rw e
              (LastRival-replace c match ((IsRival-iff c match).0 e) (last_in_scope-LastRival c cs))
        | inr e ↦ rw e (
            LastRival-cons (λ r. false≢true (sym e ∙ (IsRival-iff c match).1 r))
              (last_in_scope-LastRival match cs))
      ]

  -- The first candidate of `n` keys, with the last rival of it.
  pub data Complete (cs : List Candidate) : Option Candidate → Type 0 where
    incomplete : All (λ c. length c.binding.seq ≢ n) cs → Complete cs none
    complete :
        (before : List Candidate) (first : Candidate) (after : List Candidate) (m : Candidate)
        → cs ≡ before ++ first ∷ after
        → All (λ c. length c.binding.seq ≢ n) before
        → length first.binding.seq ≡ n
        → LastRival first after m
        → Complete cs (some m)

  Complete-cons :
      (c : Candidate) {cs : List Candidate} {r : Option Candidate}
      → length c.binding.seq ≢ n
      → Complete cs r
      → Complete (c ∷ cs) r
  Complete-cons c ne (incomplete all) = incomplete (ne, all)
  Complete-cons c ne (complete before first after m e all l last) =
      complete (c ∷ before) first after m (ap (◌∷◌ c) e) (ne, all) l last

  pub complete_match-Complete : (cs : List Candidate) → Complete cs (complete_match n cs)
  unfolding complete_match
  complete_match-Complete [] = incomplete tt
  complete_match-Complete (c ∷ cs) = elim (Bool-cases (of_length n c)) [
    | inl e ↦ rw e (complete [] c cs _ refl tt (ground arith) (last_in_scope-LastRival c cs))
    | inr e ↦ rw e (Complete-cons c (ground arith) (complete_match-Complete cs))
  ]
