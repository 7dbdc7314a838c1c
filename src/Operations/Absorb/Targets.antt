-- ===== src/Operations/Absorb/Targets.antt =====
-- The absorb operation against sets of identifiers (internal/ui/operations/absorb/absorb.go).
use jjui.Jj.Commands.Changes.{absorb}
use jjui.Jj.Commands.Reading.{operand, option, read_args}
use jjui.Jj.Commands.Requests.{absorbing, read_args-args_of}
use jjui.Jj.Selections.{Commit, get_change_id, equal}
use jjui.Operations.{
  Effect, nothing, send, close, start_ace_jump, run, refresh_and_select, close_applied, taken,
  SelectedRevision, commit_of, any_is,
}
use jjui.Operations.Absorb.{
  Targets, is_on, Operation, ace_jump, toggle_select, select_descendants, cancel, other_intent,
  apply, Event, intent, selection_changed, set_targets, other_event, equal_sets, keys, sort,
  toggle_target, toggle_at, descendants_under, absorb_into, is_nil, handle_intent, set_of,
  set_selected_revision, update, load_default_targets, new_operation,
}
use jjui.Operations.Absorb.Order.{IsSorted, sort-IsSorted, any_is-sort_keys, sort_keys-IsUnique}
use jjui.Operations.SetParents.Unique.{IsUnique}
use mathlib.Core.Bool.{false≢true}
use jjui.Operations.Absorb.Sets.{
  IsKeySet, toggle_target-IsKeySet, set_of-IsKeySet, is_on-insert, is_on-delete, equal_sets_iff,
}
use jjui.Operations.Moving.{text_of, text_of-equal}
use jjui.Operations.Runs.{Machine, run_events, planned_all, run_events-Refines}
use mathlib.Core.Path.{subst, fun_ext}
use jjui.Prelude.{
  sym, eq_refl, String, ◌≡◌, refl, ap, ◌∙◌, inl, inr, Bool, true, false, not, ◌||◌, Option, none,
  some, List, [], ◌∷◌, ◌++◌, map, arith, str_eq, eq_iff, if◌then◌else◌, Bool-cases,
}
use jjui.Prelude.Maps.{lookup, insert}
use jjui.Prelude.Texts.{is_empty}

-- The source and the sets, and what is under the cursor.
pub record Plan : Type 0 where
  pub source : String
  pub default : String → Bool
  pub selected : String
  pub picked : String → Bool

abbrev pub flip_at : Bool → String → (String → Bool) → String → Bool
flip_at skipped id f asked =
    if skipped then f asked else if str_eq id asked then not (f id) else f asked

abbrev pub planned : Event → Plan → Plan
planned (selection_changed (some s)) p = record p { selected = s.change_id }
planned (intent toggle_select) p = record p {
  picked = flip_at (is_empty p.selected || str_eq p.selected p.source) p.selected p.picked;
}
planned (set_targets ids) p = record p { picked = any_is ids }
planned _ p = p

abbrev pub plan_of : Operation → Plan
plan_of o = record {
  source = get_change_id o.source;
  default = λ id. is_on id o.defaults;
  selected = text_of o.current;
  picked = λ id. is_on id o.targets;
}

abbrev pub IsReady : Operation → Type 0
IsReady o = IsKeySet o.defaults × IsKeySet o.targets

abbrev pub Steps : Option (Operation × Effect) → Plan → Type 0
Steps o p = (t : Operation) × (eff : Effect) × (o ≡ some (t, eff)) × IsReady t × (plan_of t ≡ p)

pub is_on-toggle_target :
    (id asked : String) (m : Targets)
    → is_on asked (toggle_target id m)
      ≡ (if str_eq id asked then not (is_on id m) else is_on asked m)
unfolding toggle_target
is_on-toggle_target id asked m = elim (Bool-cases (is_on id m)) [
  | inl e ↦ rw (e, is_on-delete id asked m) (ground arith)
  | inr e ↦ rw (e, is_on-insert id asked m) (ground arith)
]

pub is_on-set_of :
    (ids : List String) (asked : String) (m : Targets)
    → is_on asked (set_of ids m) ≡ (any_is ids asked || is_on asked m)
unfolding set_of any_is
is_on-set_of [] asked m = refl
is_on-set_of (id ∷ ids) asked m =
    rw (is_on-set_of ids asked (insert id true m), is_on-insert id asked m)
      (ground (arith, eq_iff id asked, eq_iff asked id))

Steps-toggle_at :
    (c : Option Commit) (o : Operation)
    → o.current ≡ c
    → IsReady o
    → IsReady (toggle_at c o)
      × (plan_of (toggle_at c o) ≡ planned (intent toggle_select) (plan_of o))
Steps-toggle_at none o e h = (h, rw e refl)
Steps-toggle_at (some c) o e h =
    elim (Bool-cases
      (is_empty (get_change_id c) || str_eq (get_change_id c) (get_change_id o.source))) [
        | inl f ↦ rw f (h, rw (e, f) refl)
        | inr f ↦ rw f (
          (h.0, toggle_target-IsKeySet (get_change_id c) o.targets h.1),
          rw (e, f)
              (ap (λ k. record (plan_of o) { selected = get_change_id c; picked = k })
                (fun_ext (λ id. is_on-toggle_target (get_change_id c) id o.targets))),
        )
      ]

Steps-selection_changed :
    (s : SelectedRevision) (o : Operation)
    → IsReady o
    → Steps (update (selection_changed (some s)) o) (record (plan_of o) { selected = s.change_id })
unfolding update set_selected_revision get_change_id
Steps-selection_changed s o h = elim (Bool-cases (equal o.current (some (commit_of s)))) [
  | inl e ↦ (
    o,
    nothing,
    rw e refl,
    h,
    ap (λ k. record (plan_of o) { selected = k }) (text_of-equal o.current s e),
  )
  | inr e ↦ (record o { current = some (commit_of s) }, nothing, rw e refl, h, refl)
]

absorb_args : List String → Operation → List String
absorb_args into o = absorb (get_change_id o.source) into []

-- What `Apply` does with the picked targets: no targets are named where they are the default ones;
-- where they are not, nothing is absorbed where there are none, and else they are named, each once
-- and in order.
pub data Applied (p : Plan) (o : Operation) : Type 0 where
  as_default :
      (args : List String)
      → ((id : String) → p.picked id ≡ p.default id)
      → handle_intent apply o
        ≡ taken o (run args (refresh_and_select p.source ∷ close_applied ∷ []))
      → read_args none args
        ≡ some (operand "absorb" ∷ option "--from" p.source ∷ option "--color" "never" ∷ [])
      → Applied p o
  without :
      ¬ ((id : String) → p.picked id ≡ p.default id)
      → ((id : String) → p.picked id ≡ false)
      → handle_intent apply o ≡ taken o (send close)
      → Applied p o
  onto :
      (args ids : List String)
      → ¬ ((id : String) → p.picked id ≡ p.default id)
      → ¬ ((id : String) → p.picked id ≡ false)
      → IsSorted ids
      → IsUnique ids
      → ((id : String) → any_is ids id ≡ p.picked id)
      → handle_intent apply o
        ≡ taken o (run args (refresh_and_select p.source ∷ close_applied ∷ []))
      → read_args none args
        ≡ some (
            operand "absorb"
              ∷ option "--from" p.source
              ∷ option "--color" "never"
              ∷ map (option "--into") ids
            ++ [])
      → Applied p o

is_nil-off : (m : Targets) (id : String) → is_nil m ≡ true → is_on id m ≡ false
unfolding is_on lookup
is_nil-off [] id e = refl
is_nil-off (x ∷ m) id e = ground arith

some_on : (m : Targets) → IsKeySet m → is_nil m ≡ false → ¬ ((id : String) → is_on id m ≡ false)
unfolding is_on lookup
some_on [] h e off = false≢true (sym e)
some_on ((id, on) ∷ m) h e off = false≢true (ground (arith, off id, eq_refl id, h.0))

apply-Applied : (o : Operation) → IsReady o → Applied (plan_of o) o
unfolding handle_intent absorb_into absorb_args
apply-Applied o h = elim (Bool-cases (equal_sets o.targets o.defaults)) [
  | inl e ↦
      as_default (absorb_args [] o) ((equal_sets_iff o.targets o.defaults h.1 h.0).0 e) (rw e refl)
        (read_args-args_of (absorbing (get_change_id o.source) [] []) tt)
  | inr e ↦
      let other : ¬ ((id : String) → is_on id o.targets ≡ is_on id o.defaults) =
        λ same. false≢true (sym e ∙ (equal_sets_iff o.targets o.defaults h.1 h.0).1 same) in
      elim (Bool-cases (is_nil o.targets)) [
        | inl f ↦ without other (λ id. is_nil-off o.targets id f) (rw (e, f) refl)
        | inr f ↦
            onto (absorb_args (sort (keys o.targets)) o) (sort (keys o.targets)) other
              (some_on o.targets h.1 f) (sort-IsSorted (keys o.targets))
              (sort_keys-IsUnique o.targets h.1) (λ id. any_is-sort_keys id o.targets h.1)
              (rw (e, f) refl)
              (read_args-args_of (absorbing (get_change_id o.source) (sort (keys o.targets)) []) tt)
      ]
]

Steps-apply : (o : Operation) → IsReady o → Steps (update (intent apply) o) (plan_of o)
unfolding update
Steps-apply o h = elim (apply-Applied o h) [
  | as_default args same e r ↦ (
    o,
    run args (refresh_and_select (get_change_id o.source) ∷ close_applied ∷ []),
    rw e refl,
    h,
    refl,
  )
  | without other off e ↦ (o, send close, rw e refl, h, refl)
  | onto args ids other picked sorted once same e r ↦ (
    o,
    run args (refresh_and_select (get_change_id o.source) ∷ close_applied ∷ []),
    rw e refl,
    h,
    refl,
  )
]

pub Steps-update :
    (e : Event) (o : Operation) → IsReady o → Steps (update e o) (planned e (plan_of o))
unfolding update handle_intent is_on lookup
Steps-update (selection_changed none) o h = (o, nothing, refl, h, refl)
Steps-update (selection_changed (some s)) o h = Steps-selection_changed s o h
Steps-update (set_targets ids) o h = (
  record o { targets = set_of ids [] },
  nothing,
  refl,
  (h.0, set_of-IsKeySet ids [] tt),
  ap (λ k. record (plan_of o) { picked = k })
      (fun_ext (λ id. is_on-set_of ids id [] ∙ ground arith)),
)
Steps-update (intent ace_jump) o h = (o, send start_ace_jump, refl, h, refl)
Steps-update (intent toggle_select) o h =
    let (ready, plan) = Steps-toggle_at o.current o refl h in
    (toggle_at o.current o, nothing, refl, ready, plan)
Steps-update (intent select_descendants) o h = (o, descendants_under o.current o, refl, h, refl)
Steps-update (intent apply) o h = Steps-apply o h
Steps-update (intent cancel) o h = (o, send close, refl, h, refl)
Steps-update (intent other_intent) o h = (o, nothing, refl, h, refl)
Steps-update other_event o h = (o, nothing, refl, h, refl)

-- The operation as a machine.
abbrev pub machine : Machine Operation Event Effect Plan
machine = record {
  update = update;
  IsReady = IsReady;
  plan_of = plan_of;
  planned = planned;
  leads = Steps-update;
}

-- The plan of a new operation, whose default targets are those of the answer of jj.
abbrev pub first_plan : Option String → Commit → Option Commit → Plan
first_plan output source current = record {
  source = get_change_id source;
  default = any_is (load_default_targets output source);
  selected = text_of current;
  picked = any_is (load_default_targets output source);
}

first_plan-of :
    (output : Option String) (source : Commit) (current : Option Commit)
    → plan_of (new_operation output source current) ≡ first_plan output source current
unfolding new_operation is_on lookup
first_plan-of output source current =
    let ids = load_default_targets output source in
    let same : (λ id. is_on id (set_of ids [])) ≡ any_is ids =
      fun_ext (λ id. is_on-set_of ids id [] ∙ ground arith) in
    ap
      (λ k. record {
        source = get_change_id source;
        default = k;
        selected = text_of current;
        picked = k;
      })
      same

-- Whatever the user does, an absorb operation that is applied then takes exactly the targets that the
-- choices come to: the default ones are left to jj, none at all closes the operation, and else jj
-- reads each target once and in order.
pub run_events-Applied :
    (output : Option String) (source : Commit) (current : Option Commit) (es : List Event)
    → (o : Operation) × (run_events update es (new_operation output source current) ≡ some o)
      × Applied (planned_all planned es (first_plan output source current)) o
unfolding new_operation
run_events-Applied output source current es =
    let first = new_operation output source current in
    let ids = load_default_targets output source in
    let (o, at, ready, plan) =
      run_events-Refines machine es first (set_of-IsKeySet ids [] tt, set_of-IsKeySet ids [] tt) in
    (
      o,
      at,
      subst (λ p. Applied p o)
          (plan ∙ ap (planned_all planned es) (first_plan-of output source current))
          (apply-Applied o ready),
    )
