-- ===== src/Operations/SetParents/Parents.antt =====
-- The chosen parents against sets of identifiers
-- (internal/ui/operations/set_parents/set_parents_operation.go).
use Prim.Native.String.{◌++◌ as append}
use jjui.Jj.Commands.Changes.{set_parents, less_parents}
use jjui.Jj.Commands.Reading.{
  operand, option, takes_value, read_lone, lone, valued_by, Reads-last_prefixed, read_args,
  read_args-Reads,
}
use jjui.Jj.Files.{read_file_pattern}
use jjui.Jj.Selections.{Commit, get_change_id, equal}
use jjui.Operations.{
  Effect, nothing, send, close, start_ace_jump, run, refresh_and_select, close_applied, taken,
  SelectedRevision, commit_of, any_is,
}
use jjui.Operations.Absorb.{is_on, toggle_target, keys}
use jjui.Operations.Absorb.Order.{any_is-keys}
use jjui.Operations.Absorb.Sets.{IsKeySet, toggle_target-IsKeySet}
use jjui.Operations.Absorb.Targets.{is_on-toggle_target}
use jjui.Operations.Moving.{is_some}
use jjui.Operations.Runs.{Machine, run_events, planned_all, run_events-Refines}
use jjui.Operations.SetParents.{
  Model, ace_jump, toggle_select, apply, cancel, other_intent, Event, intent, selection_changed,
  other_event, set_selected_revision, toggle_added, toggle_current, is_nil, handle_intent, update,
  new_model,
}
use jjui.Operations.SetParents.Unique.{IsUnique, toggle_added-IsUnique, any_is-toggle_added}
use mathlib.Core.Path.{subst, fun_ext}
use mathlib.Core.Bool.{false≢true}
use jjui.Prelude.{
  sym, eq_refl, String, ◌≡◌, refl, ap, inl, inr, Bool, true, false, not, ◌&&◌, ◌||◌, Option, none,
  some, List, [], ◌∷◌, map, arith, str_eq, if◌then◌else◌, Bool-cases,
}
use jjui.Prelude.Maps.{Map, lookup}

-- The revision and its parents, the one under the cursor, and the sets that the user chose.
pub record Plan : Type 0 where
  pub target : String
  pub parents : List String
  pub current : Option Commit
  pub removes : String → Bool
  pub adds : String → Bool

abbrev pub flipped : String → (String → Bool) → String → Bool
flipped id f asked = if str_eq id asked then not (f id) else f asked

-- A parent is chosen for removal, any other revision but the target itself for addition.
abbrev pub choose : Option Commit → Plan → Plan
choose none p = p
choose (some c) p =
    let id = get_change_id c in
    if str_eq id p.target
    then p
    else if any_is p.parents c.commit_id
    then record p { removes = flipped id p.removes }
    else record p { adds = flipped id p.adds }

abbrev pub planned : Event → Plan → Plan
planned (selection_changed (some s)) p = record p {
  current = if equal p.current (some (commit_of s)) then p.current else some (commit_of s);
}
planned (intent toggle_select) p = choose p.current p
planned _ p = p

abbrev pub plan_of : Model → Plan
plan_of m = record {
  target = get_change_id m.target;
  parents = m.parents;
  current = m.current;
  removes = λ id. is_on id m.to_remove;
  adds = any_is m.to_add;
}

abbrev pub IsReady : Model → Type 0
IsReady m = (is_some m.current ≡ true) × IsKeySet m.to_remove × IsUnique m.to_add

abbrev pub Steps : Option (Model × Effect) → Plan → Type 0
Steps o p = (t : Model) × (eff : Effect) × (o ≡ some (t, eff)) × IsReady t × (plan_of t ≡ p)

Steps-toggle_current :
    (c : Option Commit) (m : Model)
    → m.current ≡ c
    → IsReady m
    → (t : Model) × (toggle_current c m ≡ taken t nothing)
      × IsReady t
      × (plan_of t ≡ choose c (plan_of m))
unfolding toggle_current
Steps-toggle_current none m e h = absurd (ground arith)
Steps-toggle_current (some c) m e h =
    let id = get_change_id c in
    elim (Bool-cases (str_eq id (get_change_id m.target))) [
      | inl f ↦ (m, rw f refl, h, rw f refl)
      | inr f ↦ elim (Bool-cases (any_is m.parents c.commit_id)) [
        | inl g ↦ (
          record m { to_remove = toggle_target id m.to_remove },
          rw (f, g) refl,
          (h.0, toggle_target-IsKeySet id m.to_remove h.1, h.2),
          rw (f, g)
              (ap (λ k. record (plan_of m) { removes = k })
                (fun_ext (λ asked. is_on-toggle_target id asked m.to_remove))),
        )
        | inr g ↦ (
          record m { to_add = toggle_added id m.to_add },
          rw (f, g) refl,
          (h.0, h.1, toggle_added-IsUnique id m.to_add h.2),
          rw (f, g)
              (ap (λ k. record (plan_of m) { adds = k })
                (fun_ext (λ asked. any_is-toggle_added id asked m.to_add h.2))),
        )
      ]
    ]

Steps-selection_changed :
    (s : SelectedRevision) (m : Model)
    → IsReady m
    → Steps
        (update (selection_changed (some s)) m)
        (planned (selection_changed (some s)) (plan_of m))
unfolding update set_selected_revision
Steps-selection_changed s m h = elim (Bool-cases (equal m.current (some (commit_of s)))) [
  | inl e ↦ (m, nothing, rw e refl, h, rw e refl)
  | inr e ↦
      (record m { current = some (commit_of s) }, nothing, rw e refl, (refl, h.1, h.2), rw e refl)
]

-- What `Apply` does with the chosen sets: it closes without a choice, and else jj is to take off the
-- removed parents and to add the others, each once.
pub data Applied (p : Plan) (m : Model) : Type 0 where
  unchanged :
      ((id : String) → (p.adds id || p.removes id) ≡ false)
      → handle_intent apply m ≡ taken m (send close)
      → Applied p m
  changed :
      (args added removed : List String)
      → ¬ ((id : String) → (p.adds id || p.removes id) ≡ false)
      → IsUnique added
      → ((id : String) → any_is added id ≡ p.adds id)
      → ((id : String) → any_is removed id ≡ p.removes id)
      → handle_intent apply m
        ≡ taken m (run args (refresh_and_select p.target ∷ close_applied ∷ []))
      → read_args none args
        ≡ some (
            operand "rebase"
            ∷ option "-s" p.target
            ∷ option "-d" (less_parents (append "parents(" (append p.target ")")) removed)
            ∷ map (option "-d") added)
      → Applied p m

reads-set_parents :
    (target : String) (added removed : List String)
    → read_args none (set_parents target added removed)
      ≡ some (
          operand "rebase"
          ∷ option "-s" target
          ∷ option "-d" (less_parents (append "parents(" (append target ")")) removed)
          ∷ map (option "-d") added)
unfolding set_parents takes_value read_lone read_file_pattern
reads-set_parents target added removed = read_args-Reads (
    lone "rebase" (operand "rebase") refl refl (
      valued_by "-s" target refl (
        valued_by "-d" (less_parents (append "parents(" (append target ")")) removed) refl
          (Reads-last_prefixed "-d" added refl))))

nothing_chosen :
    (added : List String) (removed : Map Bool) (id : String)
    → (is_nil added && is_nil removed) ≡ true
    → (any_is added id || is_on id removed) ≡ false
unfolding any_is is_on lookup
nothing_chosen [] [] id e = refl
nothing_chosen [] (r ∷ removed) id e = ground arith
nothing_chosen (a ∷ added) removed id e = ground arith

some_chosen :
    (added : List String) (removed : Map Bool)
    → IsKeySet removed
    → (is_nil added && is_nil removed) ≡ false
    → ¬ ((id : String) → (any_is added id || is_on id removed) ≡ false)
unfolding any_is is_on lookup
some_chosen [] [] h e off = absurd (false≢true (sym e))
some_chosen [] ((id, on) ∷ removed) h e off = false≢true (ground (arith, off id, eq_refl id, h.0))
some_chosen (id ∷ added) removed h e off = false≢true (ground (arith, off id, eq_refl id))

apply-Applied : (m : Model) → IsReady m → Applied (plan_of m) m
unfolding handle_intent
apply-Applied m h = elim (Bool-cases (is_nil m.to_add && is_nil m.to_remove)) [
  | inl e ↦ unchanged (λ id. nothing_chosen m.to_add m.to_remove id e) (rw e refl)
  | inr e ↦
      changed (set_parents (get_change_id m.target) m.to_add (keys m.to_remove)) m.to_add
        (keys m.to_remove) (some_chosen m.to_add m.to_remove h.1 e) h.2 (λ id. refl)
        (λ id. any_is-keys id m.to_remove h.1) (rw e refl)
        (reads-set_parents (get_change_id m.target) m.to_add (keys m.to_remove))
]

Steps-apply : (m : Model) → IsReady m → Steps (update (intent apply) m) (plan_of m)
unfolding update
Steps-apply m h = elim (apply-Applied m h) [
  | unchanged none_chosen e ↦ (m, send close, rw e refl, h, refl)
  | changed args added removed chosen once adds removes e reads ↦ (
    m,
    run args (refresh_and_select (get_change_id m.target) ∷ close_applied ∷ []),
    rw e refl,
    h,
    refl,
  )
]

pub Steps-update : (e : Event) (m : Model) → IsReady m → Steps (update e m) (planned e (plan_of m))
unfolding update handle_intent
Steps-update (selection_changed none) m h = (m, nothing, refl, h, refl)
Steps-update (selection_changed (some s)) m h = Steps-selection_changed s m h
Steps-update (intent ace_jump) m h = (m, send start_ace_jump, refl, h, refl)
Steps-update (intent toggle_select) m h =
    let (t, e, ready, plan) = Steps-toggle_current m.current m refl h in
    (t, nothing, rw e refl, ready, plan)
Steps-update (intent apply) m h = Steps-apply m h
Steps-update (intent cancel) m h = (m, send close, refl, h, refl)
Steps-update (intent other_intent) m h = (m, nothing, refl, h, refl)
Steps-update other_event m h = (m, nothing, refl, h, refl)

-- The operation as a machine.
abbrev pub machine : Machine Model Event Effect Plan
machine = record {
  update = update;
  IsReady = IsReady;
  plan_of = plan_of;
  planned = planned;
  leads = Steps-update;
}

-- The plan of a new operation: nothing is chosen.
abbrev pub first_plan : List String → Commit → Commit → Plan
first_plan parents to current = record {
  target = get_change_id to;
  parents = parents;
  current = some current;
  removes = λ id. false;
  adds = λ id. false;
}

-- An operation that was opened on a revision comes through any events without a panic. Applied then,
-- it closes where no revision is chosen; and else it runs jj once, which reads the revision, its
-- parents less those that are chosen for removal, and the revisions that are chosen for addition,
-- each once.
pub run_events-Applied_parents :
    (parents : List String) (to current : Commit) (es : List Event)
    → (m : Model) × (run_events update es (new_model parents to (some current)) ≡ some m)
      × Applied (planned_all planned es (first_plan parents to current)) m
unfolding new_model is_on lookup any_is
run_events-Applied_parents parents to current es =
    let (m, at, ready, plan) =
      run_events-Refines machine es (new_model parents to (some current)) (refl, tt, tt) in
    (m, at, subst (λ p. Applied p m) plan (apply-Applied m ready))
