-- ===== src/Operations/Rebase/Choosing.antt =====
-- The rebase operation against what it promises (internal/ui/operations/rebase/rebase_operation.go).
use jjui.Jj.Selections.{Commit, SelectedRevisions, get_change_id, equal, last}
use jjui.Operations.{
  target_to_flags, ModeTarget, destination, after, before, gap, is_gap, Effect, nothing, run,
  refresh_and_select, close_applied, commit_of, named_or_selected, taken, send, close,
  start_ace_jump, open_target_picker, SelectedRevision,
}
use jjui.Operations.Moving.{
  Move, selects, aims, names, choose, text_of, is_placed, text_of-equal, is_placed-aimed,
  text_of-if, at_place, named,
}
use jjui.Operations.Runs.{Machine, run_events, planned_all, run_events-Refines}
use jjui.Operations.Rebase.{
  source_to_flags, Source, source_revision, source_branch, source_descendants, Operation, ace_jump,
  open_picker, toggle_skip_emptied, cancel, other_intent, set_source, set_target, apply, Event,
  target_selected, update_highlighted_ids, selection_changed, intent, other_event,
  rebase_source_from_intent, apply_args, handle_intent, refresh_from, refresh_highlighted_ids,
  set_selected_revision, update, new_operation,
}
use jjui.Jj.Commands.Reading.{Arg, operand, switch_if, takes_value, read_args}
use jjui.Jj.Commands.Requests.{
  Request, rebasing, rebasing_between, args_of, asked, IsWellFlagged, each, read_args-args_of,
}
use jjui.Prelude.{
  String, ◌≡◌, refl, sym, ap, ◌∙◌, inl, inr, Bool, true, false, not, Option, none, some, List, [],
  ◌∷◌, ◌++◌, arith, if◌then◌else◌, Bool-cases, Option-cases,
}
use jjui.Prelude.Texts.{trim_space}

-- The plan of a rebase: the place, what moves along, and whether emptied commits are skipped.
pub record Plan : Type 0 where
  pub move : Move
  pub moving : Source
  pub skipping : Bool

abbrev pub planned : Event → Plan → Plan
planned (target_selected name force) p = record p { move = choose (names name) p.move }
planned (selection_changed (some s)) p = record p { move = choose (selects s.change_id) p.move }
planned (intent (set_target t)) p = record p { move = choose (aims t) p.move }
planned (intent (set_source s)) p = record p { moving = rebase_source_from_intent s }
planned (intent toggle_skip_emptied) p = record p { skipping = not p.skipping }
planned _ p = p

-- The plan that a state stands for.
abbrev pub plan_of : Operation → Plan
plan_of r = record {
  move = record {
    revisions = r.revisions;
    mode = r.target;
    selected = text_of r.to;
    anchor = text_of r.insert_start;
    name = r.target_name;
  };
  moving = r.source;
  skipping = r.skip_emptied;
}

abbrev pub IsPlaced : Operation → Type 0
IsPlaced r = is_placed r.target r.insert_start r.to ≡ true

-- A ready state for the plan.
abbrev pub Goes : Plan → Operation → Type 0
Goes p s = IsPlaced s × (plan_of s ≡ p)

abbrev pub Steps : Option (Operation × Effect) → Plan → Type 0
Steps o p = (s : Operation) × (eff : Effect) × (o ≡ some (s, eff)) × IsPlaced s × (plan_of s ≡ p)

Goes-refresh_from :
    (source : Source) (id : String) (r : Operation)
    → IsPlaced r
    → Goes (plan_of r) (refresh_from source id r).0
Goes-refresh_from source_revision id r h = (h, refl)
Goes-refresh_from source_branch id r h = (h, refl)
Goes-refresh_from source_descendants id r h = (h, refl)

abbrev moved_to : String → Plan → Plan
moved_to id p = record p { move = choose (selects id) p.move }

Goes-selected :
    (c : Commit) (r : Operation)
    → IsPlaced r
    → Goes
        (moved_to (get_change_id c) (plan_of r))
        (refresh_highlighted_ids (record r { to = some c })).0
unfolding refresh_highlighted_ids
Goes-selected c r h =
    Goes-refresh_from r.source (get_change_id c) (record r { to = some c }) (ground arith)

apply_args_total :
    (force : Bool) (r : Operation)
    → IsPlaced r
    → (args : List String) × (apply_args force r ≡ some args)
unfolding apply_args
apply_args_total force r h = elim (Option-cases (apply_args force r)) [
  | inl e ↦ absurd (ground arith)
  | inr found ↦ found
]

Steps-apply :
    (force : Bool) (r : Operation)
    → IsPlaced r
    → Steps (update (intent (apply force)) r) (plan_of r)
unfolding update handle_intent
Steps-apply force r h =
    let (args, e) = apply_args_total force r h in
    (r, run args (refresh_and_select (last r.revisions) ∷ close_applied ∷ []), rw e refl, h, refl)

Steps-selection_changed :
    (s : SelectedRevision) (r : Operation)
    → IsPlaced r
    → Steps (update (selection_changed (some s)) r) (moved_to s.change_id (plan_of r))
unfolding update set_selected_revision get_change_id
Steps-selection_changed s r h = elim (Bool-cases (equal r.to (some (commit_of s)))) [
  | inl e ↦ (r, nothing, rw e refl, h, rw (sym (text_of-equal r.to s e)) refl)
  | inr e ↦
      let next = refresh_highlighted_ids (record r { to = some (commit_of s) }) in
      let (placed, plan) = Goes-selected (commit_of s) r h in
      (next.0, next.1, rw e refl, placed, plan)
]

-- Every event leads on, to the state of the plan.
pub Steps-update :
    (e : Event) (r : Operation) → IsPlaced r → Steps (update e r) (planned e (plan_of r))
unfolding update handle_intent
Steps-update (target_selected name force) r h =
    Steps-apply force (record r { target_name = trim_space name }) h
Steps-update (update_highlighted_ids ids) r h =
    (record r { highlighted_ids = ids }, nothing, refl, h, refl)
Steps-update (selection_changed none) r h = (r, nothing, refl, h, refl)
Steps-update (selection_changed (some s)) r h = Steps-selection_changed s r h
Steps-update (intent ace_jump) r h = (r, send start_ace_jump, refl, h, refl)
Steps-update (intent open_picker) r h = (r, send open_target_picker, refl, h, refl)
Steps-update (intent toggle_skip_emptied) r h =
    (record r { skip_emptied = not r.skip_emptied }, nothing, refl, h, refl)
Steps-update (intent cancel) r h = (r, send close, refl, h, refl)
Steps-update (intent other_intent) r h = (r, nothing, refl, h, refl)
Steps-update (intent (set_source s)) r h =
    (record r { source = rebase_source_from_intent s }, nothing, refl, h, refl)
Steps-update (intent (set_target t)) r h = (
  record r { target = t; insert_start = if is_gap t then r.to else r.insert_start },
  nothing,
  refl,
  is_placed-aimed t r.target r.insert_start r.to h,
  rw (text_of-if (is_gap t) r.to r.insert_start) refl,
)
Steps-update (intent (apply force)) r h = Steps-apply force r h
Steps-update other_event r h = (r, nothing, refl, h, refl)

-- The operation as a machine.
abbrev pub machine : Machine Operation Event Effect Plan
machine = record {
  update = update;
  IsReady = IsPlaced;
  plan_of = plan_of;
  planned = planned;
  leads = Steps-update;
}

source_to_flags-IsValued : (s : Source) → takes_value (source_to_flags s) ≡ true
unfolding takes_value source_to_flags
source_to_flags-IsValued source_revision = refl
source_to_flags-IsValued source_branch = refl
source_to_flags-IsValued source_descendants = refl

-- What jj is asked for by a plan.
abbrev pub rebase_asked : Plan → Bool → List Arg
rebase_asked p force =
    operand "rebase" ∷ each (source_to_flags p.moving) p.move.revisions
    ++ (at_place p.move.mode (named p.move) p.move.anchor
        ++ (switch_if force "--ignore-immutable" ++ switch_if p.skipping "--skip-emptied"))

abbrev Asks : Bool → Operation → Type 0
Asks force r =
    (args : List String) × (apply_args force r ≡ some args)
    × (read_args none args ≡ some (rebase_asked (plan_of r) force))

Asks-from :
    (force : Bool) (r : Operation) (q : Request)
    → apply_args force r ≡ some (args_of q)
    → IsWellFlagged q
    → asked q ≡ rebase_asked (plan_of r) force
    → Asks force r
Asks-from force r q e w a = (args_of q, e, read_args-args_of q w ∙ ap some a)

-- The request of a state with the target.
abbrev onto : Bool → Operation → Option Commit → String → Request
onto force r to flag =
    rebasing r.revisions (source_to_flags r.source) (named_or_selected r.target_name to) flag
      r.skip_emptied force

abbrev between : Bool → Operation → Option Commit → String → Request
between force r to anchor =
    rebasing_between r.revisions (source_to_flags r.source) anchor
      (named_or_selected r.target_name to) r.skip_emptied force

Asks-at :
    (mode : ModeTarget) (start to : Option Commit) (force : Bool) (r : Operation)
    → is_placed mode start to ≡ true
    → Asks force (record r { target = mode; insert_start = start; to = to })
unfolding apply_args target_to_flags takes_value
Asks-at mode start none force r h = absurd (ground arith)
Asks-at destination start (some c) force r h =
    Asks-from force (record r { target = destination; insert_start = start; to = some c })
      (onto force r (some c) "--onto") refl (source_to_flags-IsValued r.source, refl) refl
Asks-at after start (some c) force r h =
    Asks-from force (record r { target = after; insert_start = start; to = some c })
      (onto force r (some c) "--insert-after") refl (source_to_flags-IsValued r.source, refl) refl
Asks-at before start (some c) force r h =
    Asks-from force (record r { target = before; insert_start = start; to = some c })
      (onto force r (some c) "--insert-before") refl (source_to_flags-IsValued r.source, refl) refl
Asks-at gap none (some c) force r h = absurd (ground arith)
Asks-at gap (some a) (some c) force r h =
    Asks-from force (record r { target = gap; insert_start = some a; to = some c })
      (between force r (some c) (get_change_id a)) refl (source_to_flags-IsValued r.source) refl

-- The plan of a new operation.
abbrev pub first_plan : SelectedRevisions → Commit → Source → ModeTarget → Plan
first_plan revisions current source target = record {
  move = record {
    revisions = revisions;
    mode = target;
    selected = get_change_id current;
    anchor = "";
    name = "";
  };
  moving = source;
  skipping = false;
}

-- A rebase that was opened on a revision, with a target other than the gap, comes through any events
-- without a panic. Applied then, it runs jj once, selects the last of the revisions and closes; and
-- jj reads the revisions, the place, and the switches that the choices of the user come to, where
-- each choice of a revision counts and the gap starts at the revision of the time.
pub run_events-rebase_asked :
    (revisions : SelectedRevisions) (current : Commit) (source : Source) (target : ModeTarget)
    (es : List Event) (force : Bool)
    → is_gap target ≡ false
    → (r : Operation) × (args : List String) × (run_events update es
          (new_operation revisions (some current) source target)
        ≡ some r)
      × (handle_intent (apply force) r
          ≡ taken r (run args (refresh_and_select (last r.revisions) ∷ close_applied ∷ [])))
      × (read_args none args
          ≡ some (
              rebase_asked
                (planned_all planned es (first_plan revisions current source target))
                force))
unfolding new_operation handle_intent
run_events-rebase_asked revisions current source target es force e =
    let (r, at, placed, plan) =
      run_events-Refines machine es (new_operation revisions (some current) source target)
        (ground arith) in
    let (args, found, read) = Asks-at r.target r.insert_start r.to force r placed in
    (r, args, at, rw found refl, read ∙ ap (λ p. some (rebase_asked p force)) plan)
