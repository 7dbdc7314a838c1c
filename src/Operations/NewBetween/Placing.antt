-- ===== src/Operations/NewBetween/Placing.antt =====
-- What a new revision between others asks jj for, and how it is drawn
-- (internal/ui/operations/new_between/new_between_operation.go).
use jjui.Jj.Commands.Reading.{operand, read_args}
use jjui.Jj.Commands.Requests.{creating, inserting, each, read_args-args_of}
use jjui.Jj.Selections.{Commit, new_selected_revisions, not_nil, contains, contains_commit}
use jjui.Operations.{
  close, refresh_and_select, nothing, send, run, sequence, taken, before_change_id, is_at,
}
use jjui.Operations.NewBetween.{
  Operation, apply, is_nil, effective_insert_before, is_same_single, new_command, handle_intent,
  render,
}
use jjui.Prelude.{
  String, ◌≡◌, refl, inl, inr, true, false, ◌&&◌, Option, none, some, List, [], ◌∷◌, ◌++◌, arith,
  if◌then◌else◌, Bool-cases,
}

-- What `Apply` does: nothing without a revision on either side, a child where both sides are one and
-- the same revision, and else an insertion between the sides.
pub data Placed (o : Operation) : Type 0 where
  nowhere :
      is_nil o.insert_after.revisions ≡ true
      → is_nil (effective_insert_before o).revisions ≡ true
      → handle_intent apply o ≡ taken o nothing
      → Placed o
  child :
      (args : List String)
      → is_same_single o.insert_after.revisions (effective_insert_before o).revisions ≡ true
      → handle_intent apply o
        ≡ taken o (sequence (send close) (run args (refresh_and_select "@" ∷ [])))
      → read_args none args ≡ some (operand "new" ∷ each "-r" o.insert_after)
      → Placed o
  inserted :
      (args : List String)
      → is_same_single o.insert_after.revisions (effective_insert_before o).revisions ≡ false
      → handle_intent apply o
        ≡ taken o (sequence (send close) (run args (refresh_and_select "@" ∷ [])))
      → read_args none args
        ≡ some (
            operand "new" ∷ each "--insert-after" o.insert_after
            ++ each "--insert-before" (effective_insert_before o))
      → Placed o

is_nil-is_same_single :
    (a b : List Commit) → is_same_single a b ≡ true → (is_nil a && is_nil b) ≡ false
unfolding is_same_single
is_nil-is_same_single [] b e = ground arith
is_nil-is_same_single (c ∷ cs) b e = refl

-- What `Apply` does in every state: the revisions of both sides are read by jj each under its flag,
-- and jj is never asked for a revision both after and before one and the same.
pub apply-Placed : (o : Operation) → Placed o
unfolding handle_intent new_command
apply-Placed o =
    elim (Bool-cases
      (is_nil o.insert_after.revisions && is_nil (effective_insert_before o).revisions)) [
        | inl e ↦ nowhere (ground arith) (ground arith) (rw e refl)
        | inr e ↦
            elim (Bool-cases
              (is_same_single o.insert_after.revisions (effective_insert_before o).revisions)) [
                | inl f ↦
                    child (new_command (effective_insert_before o) o) f (rw e refl)
                      (rw (new_command, f) (read_args-args_of (creating o.insert_after) tt))
                | inr f ↦ inserted (new_command (effective_insert_before o) o) f (rw e refl) (
                    rw (new_command, f)
                      (read_args-args_of (inserting o.insert_after (effective_insert_before o)) tt))
              ]
      ]

contains-selected :
    (current : Option Commit) (c : Commit)
    → contains (new_selected_revisions (current ∷ [])) (some c) ≡ is_at current c
unfolding new_selected_revisions not_nil contains contains_commit
contains-selected none c = refl
contains-selected (some d) c = ground arith

-- The drawing shows what `Apply` would do: `<< before this >>` and `<< after this >>` are exactly at
-- the revisions that jj would be given, the latter where both are.
pub render-Placed :
    (o : Operation) (c : Commit)
    → render o c before_change_id ≡ (
        if contains o.insert_after (some c)
        then "<< after this >>"
        else if contains (effective_insert_before o) (some c)
        then "<< before this >>"
        else "")
unfolding render effective_insert_before
render-Placed o c = elim (Bool-cases (is_nil o.insert_before.revisions)) [
  | inl e ↦ rw (e, contains-selected o.current c) refl
  | inr e ↦ rw e refl
]
