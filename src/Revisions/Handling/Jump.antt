-- ===== src/Revisions/Handling/Jump.antt =====
-- When a jump starts without a panic (StartAceJump of internal/ui/revisions/revisions.go).
use jjui.Jj.Selections.{Commit}
use jjui.Operations.AceJump.{
  Operation as JumpOperation, text_length, new_ace_jump, add_rows, find_ace_keys, init,
  new_operation,
}
use jjui.Operations.AceJump.Visible.{HasBoth, HasIds-All, Adds-rows, with_keys, init-new_operation}
use jjui.Prelude.{
  ℕ, suc, ◌+◌, ◌-◌, ◌≡◌, refl, ap, inl, inr, Bool, true, false, not, ◌&&◌, ◌||◌, Option, none, some,
  List, [], ◌∷◌, arith, ltb, any, All, length, get_elem?, Bool-cases,
}
use jjui.Revisions.{some_all}
use jjui.Revisions.Intents.{Intent, start_ace_jump, row_number, started_jump}
use jjui.Revisions.Layers.{RevisionsView}
use jjui.Revisions.Moves.{Window}

abbrev pub lacks_id : Commit → Bool
lacks_id c = not (ltb 0 (text_length c.commit_id) && ltb 0 (text_length c.change_id))

-- The rows from `lo` to `hi` are rows of the list, and each row has its identifiers.
abbrev pub is_window : (lo hi : Option ℕ) → List Commit → Bool
is_window none hi rows = true
is_window (some lo) none rows = true
is_window (some lo) (some hi) rows = ltb hi lo || ltb hi (length rows) && not (any lacks_id rows)

-- Only a jump reads rows of the window.
abbrev pub can_jump : Intent → RevisionsView → Bool
can_jump (start_ace_jump w) v =
    is_window (row_number w.first_row_index) (row_number w.last_row_index) v.list.rows
can_jump i v = true

length-some_all : (cs : List Commit) → length (some_all cs) ≡ length cs
length-some_all [] = refl
length-some_all (c ∷ cs) = ap suc (length-some_all cs)

All-HasBoth : (cs : List Commit) → any lacks_id cs ≡ false → All HasBoth (some_all cs)
All-HasBoth [] h = tt
All-HasBoth (c ∷ cs) h =
    ((ground (arith, h), ground (arith, h)), All-HasBoth cs (ground (arith, h)))

abbrev Starts : Option JumpOperation → Type 0
Starts r = (o : JumpOperation) × (r ≡ some o)

Starts-init :
    (rows : List Commit) (lo hi : Option ℕ)
    → is_window lo hi rows ≡ true
    → Starts (init (new_operation (λ i. get_elem? (some_all rows) i) lo hi))
unfolding init find_ace_keys new_operation add_rows new_ace_jump
Starts-init rows none hi h = (_, refl)
Starts-init rows (some lo) none h = (_, refl)
Starts-init rows (some lo) (some hi) h =
    let items : ℕ → Option (Option Commit) = λ i. get_elem? (some_all rows) i in
    elim (Bool-cases (ltb hi lo)) [
      | inl e ↦
          let none_read : hi + 1 - lo ≡ 0 = ground (arith, e) in
          (
            with_keys items lo hi new_ace_jump,
            init-new_operation items lo hi new_ace_jump (rw (add_rows, none_read) refl),
          )
      | inr e ↦
          let (j, at, ready) =
            Adds-rows lo hi (hi + 1 - lo) lo (some_all rows) new_ace_jump
              (HasIds-All (some_all rows) (All-HasBoth rows (ground (arith, h, e)))) (omega arith)
              (ground (arith, e)) (ground (arith, h, e, length-some_all rows)) (tt, tt) in
          (with_keys items lo hi j, init-new_operation items lo hi j at)
    ]

pub started_jump-Starts :
    (w : Window) (v : RevisionsView)
    → can_jump (start_ace_jump w) v ≡ true
    → (o : JumpOperation) × (started_jump w v.list ≡ some o)
unfolding started_jump
started_jump-Starts w v h =
    Starts-init v.list.rows (row_number w.first_row_index) (row_number w.last_row_index) h
