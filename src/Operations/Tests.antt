-- ===== src/Operations/Tests.antt =====
-- Operations on two revisions, through some events (internal/ui/operations).
use jjui.Jj.Commands.Reading.{Arg, operand, option, read_args}
use jjui.Jj.Selections.{Commit, SelectedRevisions, get_change_id, last, last_id}
use jjui.Operations.{
  destination, after, gap, run, refresh_and_select, close_applied, SelectedRevision, commit_of,
  before_change_id, render_after, taken,
}
use jjui.Operations.Abandon
use jjui.Operations.Abandon.Selecting.{
  run_events-marker_of, marker_of, first_plan as abandon_plan, planned as abandon_planned,
}
use jjui.Operations.Absorb
use jjui.Operations.Absorb.{Targets, equal_sets, all_on, is_on}
use jjui.Operations.Absorb.Targets.{
  Applied, run_events-Applied, first_plan as absorb_plan, planned as absorb_planned,
}
use jjui.Operations.AceJump
use jjui.Operations.AceJump.{AceKey, AceJump, narrow, is_bound, text_length}
use jjui.Operations.AceJump.Visible.{Jumps, row_at, HasIds, HasIds-All, run_events-OnCursor}
use jjui.Operations.NewBetween
use jjui.Operations.Rebase
use jjui.Operations.Rebase.{source_descendants}
use jjui.Operations.Rebase.Choosing.{rebase_asked, first_plan, planned, run_events-rebase_asked}
use jjui.Operations.Rebase.Drawing.{run_events-Draws, render}
use jjui.Operations.Lines.{marks, Shown, draws_at}
use jjui.Operations.Revert
use jjui.Operations.Revert.Choosing.{
  revert_asked, first_plan as revert_plan, planned as revert_planned, run_events-revert_asked,
}
use jjui.Operations.Runs.{run_events, planned_all}
use jjui.Operations.SetParents
use jjui.Operations.SetParents.Parents.{
  Applied as AppliedParents, run_events-Applied_parents, first_plan as parents_plan,
  planned as parents_planned,
}
use jjui.Operations.Squash
use jjui.Operations.Squash.Choosing.{plan_of as squash_plan, planned as squash_planned}
use jjui.Prelude.{
  ℕ, zero, suc, ◌+◌, ◌-◌, ◌*◌, ◌/◌, ◌%◌, ◌≤◌, ◌<◌, min, max, String, ◌≡◌, refl, sym, ap, ◌∙◌, ◌≢◌,
  ◌↔◌, ◌⊎◌, inl, inr, Bool, true, false, not, ◌&&◌, ◌||◌, Option, none, some, Memᴰ, List, [], ◌∷◌,
  ◌++◌, map, arith, str_eq, eq_iff, eq_refl, ltb, leb, ◌==◌, ==_iff, if◌then◌else◌, ltb→lt, lt→ltb,
  leb→le, tests, Bool-cases, Option-cases, length, get_elem?, take, drop, replicate, keep, any, All,
  length-append, length-replicate, All-append, All-keep, All-map, All-both, All-reverse,
  split_reverse, of-mem-keep, mem-keep,
}
use jjui.Prelude.Maps.{lookup}
use jjui.Prelude.Texts.{trim_space, is_empty, is_space, join, join_onto, itoa, split_lines}

abbrev seen : String → SelectedRevision
seen id = record { change_id = id; commit_id = "" }

abbrev commit : String → Commit
commit id = commit_of (seen id)

abbrev two_revisions : SelectedRevisions
two_revisions = record { revisions = commit "qp" ∷ commit "kk" ∷ [] }

-- The gap is asked for at one revision, and the cursor goes on to the next one.
abbrev into_gap : List Rebase.Event
into_gap =
    Rebase.selection_changed (some (seen "mn"))
    ∷ Rebase.intent (Rebase.set_target gap)
    ∷ Rebase.selection_changed (some (seen "rs"))
    ∷ Rebase.intent Rebase.toggle_skip_emptied
    ∷ []

asked_in_gap :
    rebase_asked
      (planned_all planned into_gap
        (first_plan two_revisions (commit "xy") source_descendants destination))
      false
    ≡ operand "rebase"
      ∷ option "--source" "qp"
      ∷ option "--source" "kk"
      ∷ option "--insert-before" "rs"
      ∷ option "--insert-after" "mn"
      ∷ jjui.Jj.Commands.Reading.switch "--skip-emptied"
      ∷ []
unfolding get_change_id jjui.Jj.Selections.get_ids Rebase.source_to_flags
    jjui.Prelude.Texts.trim_space
asked_in_gap = refl

run_events-rebase_asked_example :
    (r : Rebase.Operation) × (args : List String) × (run_events Rebase.update into_gap
        (Rebase.new_operation two_revisions (some (commit "xy")) source_descendants destination)
      ≡ some r)
    × (Rebase.handle_intent (Rebase.apply true) r
        ≡ taken r (run args (refresh_and_select (last r.revisions) ∷ close_applied ∷ [])))
    × (read_args none args
        ≡ some (
            rebase_asked
              (planned_all planned into_gap
                (first_plan two_revisions (commit "xy") source_descendants destination))
              true))
run_events-rebase_asked_example =
    run_events-rebase_asked two_revisions (commit "xy") source_descendants destination into_gap true
      refl

run_events-Draws_example :
    (r : Rebase.Operation) × (run_events Rebase.update into_gap
        (Rebase.new_operation two_revisions (some (commit "xy")) source_descendants destination)
      ≡ some r)
    × Shown (render r (commit "rs") render_after) (
        draws_at render_after r.target r.to
          (commit "rs")
          (marks r.highlighted_ids r.target r.insert_start r.to (commit "rs")))
run_events-Draws_example =
    run_events-Draws two_revisions (commit "xy") source_descendants destination into_gap
      (commit "rs") render_after refl

abbrev by_name : List Revert.Event
by_name = Revert.target_selected " main " false ∷ []

run_events-revert_asked_example :
    (r : Revert.Operation) × (args : List String) × (run_events Revert.update by_name
        (Revert.new_operation two_revisions (some (commit "xy")) after)
      ≡ some r)
    × (Revert.handle_intent (Revert.apply false) r
        ≡ taken r (run args (refresh_and_select (last r.revisions) ∷ close_applied ∷ [])))
    × (read_args none args
        ≡ some (
            revert_asked
              (planned_all revert_planned by_name (revert_plan two_revisions (commit "xy") after))))
run_events-revert_asked_example =
    run_events-revert_asked two_revisions (commit "xy") after by_name false refl

abbrev keeping : List Squash.Event
keeping =
    Squash.intent (Squash.toggle_option Squash.option_use_destination_message)
    ∷ Squash.selection_changed (some (seen "mn"))
    ∷ []

abbrev beside : NewBetween.Operation
beside = NewBetween.new_operation two_revisions (some (commit "xy"))

abbrev picking : List Abandon.Event
picking =
    Abandon.intent Abandon.toggle_select
    ∷ Abandon.selection_changed (some (seen "mn"))
    ∷ Abandon.intent Abandon.select_descendants
    ∷ []

run_events-marker_of_example :
    (s : Abandon.Operation) × (run_events Abandon.update picking
        (Abandon.new_operation two_revisions (some (commit "qp")))
      ≡ some s)
    × (Abandon.render s (commit "mn") before_change_id
        ≡ marker_of (
            (planned_all abandon_planned picking
                (abandon_plan two_revisions (some (commit "qp")))).picked
              (get_change_id (commit "mn"))))
run_events-marker_of_example =
    run_events-marker_of two_revisions (some (commit "qp")) picking (commit "mn")

marker_of_picking :
    marker_of (
      (planned_all abandon_planned picking (abandon_plan two_revisions (some (commit "qp")))).picked
        "mn")
    ≡ "<< abandon descendants of >>"
unfolding get_change_id
marker_of_picking = refl

abbrev swapped : List Absorb.Event
swapped =
    Absorb.selection_changed (some (seen "mn"))
    ∷ Absorb.intent Absorb.toggle_select
    ∷ Absorb.selection_changed (some (seen "ab"))
    ∷ Absorb.intent Absorb.toggle_select
    ∷ []

run_events-Applied_example :
    (o : Absorb.Operation) × (run_events Absorb.update swapped
        (Absorb.new_operation (some "mn\nrs\n") (commit "qp") none)
      ≡ some o)
    × Applied
        (planned_all absorb_planned swapped (absorb_plan (some "mn\nrs\n") (commit "qp") none))
        o
run_events-Applied_example = run_events-Applied (some "mn\nrs\n") (commit "qp") none swapped

abbrev one_way : Targets
one_way = ("mn", true) ∷ ("rs", true) ∷ []

abbrev other_way : Targets
other_way = ("rs", true) ∷ ("mn", true) ∷ []

equal_either_way : equal_sets one_way other_way ≡ true
unfolding equal_sets all_on is_on lookup
equal_either_way = refl

abbrev moving_parents : List SetParents.Event
moving_parents =
    SetParents.intent SetParents.toggle_select
    ∷ SetParents.selection_changed (some (seen "mn"))
    ∷ SetParents.intent SetParents.toggle_select
    ∷ []

run_events-Applied_parents_example :
    (m : SetParents.Model) × (run_events SetParents.update moving_parents (
        SetParents.new_model
          ("c1" ∷ [])
          (commit "qp")
          (some (record (commit "rs") { commit_id = "c1" })))
      ≡ some m)
    × AppliedParents
        (planned_all parents_planned moving_parents
          (parents_plan ("c1" ∷ []) (commit "qp") (record (commit "rs") { commit_id = "c1" })))
        m
run_events-Applied_parents_example =
    run_events-Applied_parents ("c1" ∷ []) (commit "qp") (record (commit "rs") { commit_id = "c1" })
      moving_parents

abbrev two_keys : AceJump
two_keys = record {
  ace =
      record { row_idx = 3; id = "ab"; bind_idx = 0; bind = "a" }
      ∷ record { row_idx = 4; id = "ac"; bind_idx = 0; bind = "a" }
      ∷ [];
  prefix = [];
}

abbrev shown_rows : List (Option Commit)
shown_rows =
    let row = some (record (commit "qp") { commit_id = "c1" }) in row ∷ row ∷ none ∷ row ∷ row ∷ []

abbrev two_events : List AceJump.Event
two_events = AceJump.key "c" ∷ AceJump.intent AceJump.apply ∷ []

shown_rows-HasIds : HasIds shown_rows
shown_rows-HasIds =
    HasIds-All shown_rows ((refl, refl), ((refl, refl), (tt, ((refl, refl), ((refl, refl), tt)))))

run_events-OnCursor_example :
    ((4 < length shown_rows) × Jumps shown_rows 2 4 two_events)
    ⊎ ((length shown_rows ≤ 4)
        × (AceJump.init (AceJump.new_operation (row_at shown_rows) (some 2) (some 4)) ≡ none))
run_events-OnCursor_example =
    run_events-OnCursor shown_rows 2 4 two_events shown_rows-HasIds (omega arith)
