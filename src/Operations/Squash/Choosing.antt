-- ===== src/Operations/Squash/Choosing.antt =====
-- The squash operation against what it promises (internal/ui/operations/squash/squash_operation.go).
use jjui.Jj.Commands.Reading.{Arg, operand, option, switch_if, paths}
use jjui.Jj.Commands.Requests.{each}
use jjui.Jj.Files.{FileName}
use jjui.Jj.Selections.{Commit, SelectedRevisions, get_change_id, equal}
use jjui.Operations.{
  Effect, nothing, run, run_interactive, batch, send, close, start_ace_jump, open_target_picker,
  refresh_and_select, close_applied, SelectedRevision, commit_of, taken,
}
use jjui.Operations.Moving.{text_of, is_some, text_of-equal}
use jjui.Operations.Squash.{
  Operation, SquashOption, option_keep_emptied, option_use_destination_message, option_interactive,
  ace_jump, open_picker, cancel, other_intent, toggle_option, apply, Event, target_selected,
  selection_changed, intent, other_event, apply_args, toggled_option, handle_intent,
  set_selected_revision, update,
}
use jjui.Operations.Runs.{Machine}
use jjui.Prelude.{
  String, ◌≡◌, refl, sym, inl, inr, Bool, true, not, ◌||◌, Option, none, some, List, [], ◌∷◌, ◌++◌,
  arith, if◌then◌else◌, Bool-cases,
}
use jjui.Prelude.Texts.{trim_space, is_empty}

-- The choices of the user.
pub record Plan : Type 0 where
  pub revisions : SelectedRevisions
  pub files : List FileName
  pub selected : String
  pub name : String
  pub keeping : Bool
  pub keeping_message : Bool
  pub picking : Bool

abbrev pub planned_option : SquashOption → Plan → Plan
planned_option option_keep_emptied p = record p { keeping = not p.keeping }
planned_option option_use_destination_message p = record p {
  keeping_message = not p.keeping_message;
}
planned_option option_interactive p = record p { picking = not p.picking }

abbrev pub planned : Event → Plan → Plan
planned (target_selected name force) p = record p { name = trim_space name }
planned (selection_changed (some s)) p = record p { selected = s.change_id }
planned (intent (toggle_option o)) p = planned_option o p
planned _ p = p

-- The choices that a state stands for.
abbrev pub plan_of : Operation → Plan
plan_of s = record {
  revisions = s.revisions;
  files = s.files;
  selected = text_of s.current;
  name = s.target_name;
  keeping = s.keep_emptied;
  keeping_message = s.use_destination_message;
  picking = s.interactive;
}

abbrev pub IsReady : Operation → Type 0
IsReady s = is_some s.current ≡ true

abbrev pub Steps : Option (Operation × Effect) → Plan → Type 0
Steps o p = (t : Operation) × (eff : Effect) × (o ≡ some (t, eff)) × IsReady t × (plan_of t ≡ p)

-- What jj is asked for by a plan.
abbrev pub squash_asked : Plan → Bool → List Arg
squash_asked p force =
    operand "squash" ∷ each "--from" p.revisions
    ++ (option "--into" (if not (is_empty (trim_space p.name)) then p.name else p.selected)
          ∷ switch_if p.keeping "--keep-emptied"
        ++ (switch_if p.keeping_message "--use-destination-message"
            ++ (switch_if p.picking "--interactive"
                ++ (switch_if force "--ignore-immutable" ++ paths p.files))))

-- The command of an applied plan.
abbrev pub applied : Plan → List String → Effect
applied p args = batch (send close_applied) (
    if p.picking || not p.keeping_message
    then run_interactive args (refresh_and_select p.selected)
    else run args (refresh_and_select p.selected ∷ []))

apply_at :
    (c : Option Commit) (force : Bool) (s : Operation)
    → is_some c ≡ true
    → handle_intent (apply force) (record s { current = c })
      ≡ taken
          (record s { current = c })
          (applied
            (plan_of (record s { current = c }))
            (apply_args force (record s { current = c })))
unfolding handle_intent
apply_at none force s h = absurd (ground arith)
apply_at (some c) force s h = refl

Steps-apply :
    (force : Bool) (s : Operation) → IsReady s → Steps (update (intent (apply force)) s) (plan_of s)
unfolding update
Steps-apply force s h =
    (s, applied (plan_of s) (apply_args force s), rw (apply_at s.current force s h) refl, h, refl)

Steps-selection_changed :
    (s : SelectedRevision) (r : Operation)
    → IsReady r
    → Steps (update (selection_changed (some s)) r) (record (plan_of r) { selected = s.change_id })
unfolding update set_selected_revision get_change_id
Steps-selection_changed s r h = elim (Bool-cases (equal r.current (some (commit_of s)))) [
  | inl e ↦ (r, nothing, rw e refl, h, rw (sym (text_of-equal r.current s e)) refl)
  | inr e ↦ (record r { current = some (commit_of s) }, nothing, rw e refl, refl, refl)
]

Steps-toggle_option :
    (o : SquashOption) (s : Operation)
    → IsReady s
    → Steps (update (intent (toggle_option o)) s) (planned_option o (plan_of s))
unfolding update handle_intent toggled_option
Steps-toggle_option option_keep_emptied s h =
    (record s { keep_emptied = not s.keep_emptied }, nothing, refl, h, refl)
Steps-toggle_option option_use_destination_message s h =
    (record s { use_destination_message = not s.use_destination_message }, nothing, refl, h, refl)
Steps-toggle_option option_interactive s h =
    (record s { interactive = not s.interactive }, nothing, refl, h, refl)

pub Steps-update :
    (e : Event) (s : Operation) → IsReady s → Steps (update e s) (planned e (plan_of s))
unfolding update handle_intent
Steps-update (target_selected name force) s h =
    Steps-apply force (record s { target_name = trim_space name }) h
Steps-update (selection_changed none) s h = (s, nothing, refl, h, refl)
Steps-update (selection_changed (some r)) s h = Steps-selection_changed r s h
Steps-update (intent ace_jump) s h = (s, send start_ace_jump, refl, h, refl)
Steps-update (intent open_picker) s h = (s, send open_target_picker, refl, h, refl)
Steps-update (intent cancel) s h = (s, send close, refl, h, refl)
Steps-update (intent other_intent) s h = (s, nothing, refl, h, refl)
Steps-update (intent (toggle_option o)) s h = Steps-toggle_option o s h
Steps-update (intent (apply force)) s h = Steps-apply force s h
Steps-update other_event s h = (s, nothing, refl, h, refl)

-- The operation as a machine.
abbrev pub machine : Machine Operation Event Effect Plan
machine = record {
  update = update;
  IsReady = IsReady;
  plan_of = plan_of;
  planned = planned;
  leads = Steps-update;
}
