-- ===== src/Operations/Runs.antt =====
-- The life of an operation: the program hands it one event after the other (`Update` of
-- internal/ui/operations). A machine is an implementation with the abstract plan it stands for.
use jjui.Prelude.{◌≡◌, refl, ap, ◌∙◌, Option, none, some, List, [], ◌∷◌}

module _ {S E F : Type 0} where
  -- The events one after the other; the commands go to the program, and a panic ends all.
  unfoldable pub run_events : (E → S → Option (S × F)) → List E → S → Option S
  run_events update [] s = some s
  run_events update (e ∷ es) s = elim (update e s) [
    | none ↦ none
    | some (t, _) ↦ run_events update es t
  ]

-- In a ready state, each event leads to a ready state, which stands for the next plan.
pub record Machine (S E F P : Type 0) : Type 1 where
  pub update : E → S → Option (S × F)
  pub IsReady : S → Type 0
  pub plan_of : S → P
  pub planned : E → P → P
  pub leads :
      (e : E) (s : S)
      → IsReady s
      → (t : S) × (f : F) × (update e s ≡ some (t, f))
        × IsReady t
        × (plan_of t ≡ planned e (plan_of s))

module _ {E P : Type 0} (planned : E → P → P) where
  abbrev pub planned_all : List E → P → P
  planned_all [] p = p
  planned_all (e ∷ es) p = planned_all es (planned e p)

module _ {S E F P : Type 0} (m : Machine S E F P) where
  pub run_events-Refines :
      (es : List E) (s : S)
      → m.IsReady s
      → (t : S) × (run_events m.update es s ≡ some t)
        × m.IsReady t
        × (m.plan_of t ≡ planned_all m.planned es (m.plan_of s))
  unfolding run_events
  run_events-Refines [] s h = (s, refl, h, refl)
  run_events-Refines (e ∷ es) s h =
      let (t, f, at, ready, plan) = m.leads e s h in
      let (u, found, ready', plan') = run_events-Refines es t ready in
      (u, rw (run_events, at) found, ready', plan' ∙ ap (planned_all m.planned es) plan)
