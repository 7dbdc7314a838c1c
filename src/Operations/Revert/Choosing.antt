-- ===== src/Operations/Revert/Choosing.antt =====
-- The revert operation against what it promises
-- (internal/ui/operations/revert/revert_operation.go).
use jjui.Jj.Commands.Reading.{Arg, operand, takes_value, read_args}
use jjui.Jj.Commands.Requests.{
  Request, reverting, reverting_between, args_of, asked, IsWellFlagged, each, read_args-args_of,
}
use jjui.Jj.Selections.{Commit, SelectedRevisions, get_change_id, equal, last}
use jjui.Operations.{
  target_to_flags, ModeTarget, destination, after, before, gap, is_gap, Effect, nothing, run, send,
  close, start_ace_jump, open_target_picker, refresh_and_select, close_applied, SelectedRevision,
  commit_of, named_or_selected, taken,
}
use jjui.Operations.Moving.{
  Move, selects, aims, names, choose, text_of, is_placed, text_of-equal, is_placed-aimed,
  text_of-if, at_place, named,
}
use jjui.Operations.Revert.{
  Operation, ace_jump, open_picker, cancel, other_intent, set_target, apply, Event, target_selected,
  selection_changed, intent, other_event, apply_args, handle_intent, set_selected_revision, update,
  new_operation,
}
use jjui.Operations.Runs.{Machine, run_events, planned_all, run_events-Refines}
use jjui.Prelude.{
  String, ◌≡◌, refl, sym, ap, ◌∙◌, inl, inr, Bool, true, false, Option, none, some, List, [], ◌∷◌,
  ◌++◌, arith, if◌then◌else◌, Bool-cases,
}
use jjui.Prelude.Texts.{trim_space}

abbrev pub planned : Event → Move → Move
planned (target_selected name force) m = choose (names name) m
planned (selection_changed (some s)) m = choose (selects s.change_id) m
planned (intent (set_target t)) m = choose (aims t) m
planned _ m = m

-- The choices that a state stands for.
abbrev pub plan_of : Operation → Move
plan_of r = record {
  revisions = r.revisions;
  mode = r.target;
  selected = text_of r.to;
  anchor = text_of r.insert_start;
  name = r.target_name;
}

abbrev pub IsPlaced : Operation → Type 0
IsPlaced r = is_placed r.target r.insert_start r.to ≡ true

abbrev pub Steps : Option (Operation × Effect) → Move → Type 0
Steps o p = (s : Operation) × (eff : Effect) × (o ≡ some (s, eff)) × IsPlaced s × (plan_of s ≡ p)

-- What jj is asked for by a plan.
abbrev pub source_flag : ModeTarget → String
source_flag gap = "-r"
source_flag _ = "--revisions"

abbrev pub revert_asked : Move → List Arg
revert_asked m =
    operand "revert" ∷ each (source_flag m.mode) m.revisions ++ at_place m.mode (named m) m.anchor

abbrev Asks : Operation → Type 0
Asks r =
    (args : List String) × (apply_args r ≡ some args)
    × (read_args none args ≡ some (revert_asked (plan_of r)))

Asks-from :
    (r : Operation) (q : Request)
    → apply_args r ≡ some (args_of q)
    → IsWellFlagged q
    → asked q ≡ revert_asked (plan_of r)
    → Asks r
Asks-from r q e w a = (args_of q, e, read_args-args_of q w ∙ ap some a)

Asks-at :
    (mode : ModeTarget) (start to : Option Commit) (r : Operation)
    → is_placed mode start to ≡ true
    → Asks (record r { target = mode; insert_start = start; to = to })
unfolding apply_args target_to_flags takes_value
Asks-at mode start none r h = absurd (ground arith)
Asks-at destination start (some c) r h =
    Asks-from (record r { target = destination; insert_start = start; to = some c })
      (reverting r.revisions (named_or_selected r.target_name (some c)) "--revisions" "--onto") refl
      (refl, refl) refl
Asks-at after start (some c) r h =
    Asks-from (record r { target = after; insert_start = start; to = some c })
      (reverting r.revisions (named_or_selected r.target_name (some c)) "--revisions"
        "--insert-after")
      refl (refl, refl) refl
Asks-at before start (some c) r h =
    Asks-from (record r { target = before; insert_start = start; to = some c })
      (reverting r.revisions (named_or_selected r.target_name (some c)) "--revisions"
        "--insert-before")
      refl (refl, refl) refl
Asks-at gap none (some c) r h = absurd (ground arith)
Asks-at gap (some a) (some c) r h =
    Asks-from (record r { target = gap; insert_start = some a; to = some c })
      (reverting_between r.revisions (get_change_id a) (named_or_selected r.target_name (some c)))
      refl tt refl

Steps-apply :
    (force : Bool) (r : Operation)
    → IsPlaced r
    → Steps (update (intent (apply force)) r) (plan_of r)
unfolding update handle_intent
Steps-apply force r h =
    let (args, e, read) = Asks-at r.target r.insert_start r.to r h in
    (r, run args (refresh_and_select (last r.revisions) ∷ close_applied ∷ []), rw e refl, h, refl)

Steps-selection_changed :
    (s : SelectedRevision) (r : Operation)
    → IsPlaced r
    → Steps (update (selection_changed (some s)) r) (choose (selects s.change_id) (plan_of r))
unfolding update set_selected_revision get_change_id
Steps-selection_changed s r h = elim (Bool-cases (equal r.to (some (commit_of s)))) [
  | inl e ↦ (r, nothing, rw e refl, h, rw (sym (text_of-equal r.to s e)) refl)
  | inr e ↦
      let next = set_selected_revision (some (commit_of s)) r in
      (
        next,
        nothing,
        refl,
        rw (set_selected_revision, e) (ground arith),
        rw (set_selected_revision, e) refl,
      )
]

pub Steps-update :
    (e : Event) (r : Operation) → IsPlaced r → Steps (update e r) (planned e (plan_of r))
unfolding update handle_intent
Steps-update (target_selected name force) r h =
    Steps-apply force (record r { target_name = trim_space name }) h
Steps-update (selection_changed none) r h = (r, nothing, refl, h, refl)
Steps-update (selection_changed (some s)) r h = Steps-selection_changed s r h
Steps-update (intent ace_jump) r h = (r, send start_ace_jump, refl, h, refl)
Steps-update (intent open_picker) r h = (r, send open_target_picker, refl, h, refl)
Steps-update (intent cancel) r h = (r, send close, refl, h, refl)
Steps-update (intent other_intent) r h = (r, nothing, refl, h, refl)
Steps-update (intent (set_target t)) r h = (
  record r { target = t; insert_start = if is_gap t then r.to else r.insert_start },
  nothing,
  refl,
  is_placed-aimed t r.target r.insert_start r.to h,
  rw (text_of-if (is_gap t) r.to r.insert_start) refl,
)
Steps-update (intent (apply force)) r h = Steps-apply force r h
Steps-update other_event r h = (r, nothing, refl, h, refl)

-- The operation as a machine.
abbrev pub machine : Machine Operation Event Effect Move
machine = record {
  update = update;
  IsReady = IsPlaced;
  plan_of = plan_of;
  planned = planned;
  leads = Steps-update;
}

-- The plan of a new operation.
abbrev pub first_plan : SelectedRevisions → Commit → ModeTarget → Move
first_plan revisions current target = record {
  revisions = revisions;
  mode = target;
  selected = get_change_id current;
  anchor = "";
  name = "";
}

-- A revert operation that was opened on a revision, with a target other than the gap, comes through
-- any events without a panic. Applied then, it runs jj once, selects the last of the revisions and
-- closes; and jj reads the revisions and the place that the choices of the user come to, where each
-- choice of a revision counts and the gap starts at the revision of the time.
pub run_events-revert_asked :
    (revisions : SelectedRevisions) (current : Commit) (target : ModeTarget) (es : List Event)
    (force : Bool)
    → is_gap target ≡ false
    → (r : Operation) × (args : List String) × (run_events update es
          (new_operation revisions (some current) target)
        ≡ some r)
      × (handle_intent (apply force) r
          ≡ taken r (run args (refresh_and_select (last r.revisions) ∷ close_applied ∷ [])))
      × (read_args none args
          ≡ some (revert_asked (planned_all planned es (first_plan revisions current target))))
unfolding new_operation handle_intent set_selected_revision equal
run_events-revert_asked revisions current target es force e =
    let (r, at, placed, plan) =
      run_events-Refines machine es (new_operation revisions (some current) target)
        (ground arith) in
    let (args, found, read) = Asks-at r.target r.insert_start r.to r placed in
    (r, args, at, rw found refl, read ∙ ap (λ p. some (revert_asked p)) plan)
