-- ===== src/Operations/Moving.antt =====
-- What the operations that move revisions promise: the choices of the user, without the pointers of
-- internal/ui/operations/rebase, revert and duplicate. Whatever was under the cursor last is the
-- target, and the gap starts at what was under the cursor when it was asked for.
use jjui.Jj.Selections.{SelectedRevisions, Commit, get_change_id, equal, equal_commits}
use jjui.Jj.Commands.Reading.{Arg, option}
use jjui.Operations.{
  destination, after, before, gap, ModeTarget, destination, after, before, gap, is_gap,
  SelectedRevision, commit_of,
}
use jjui.Prelude.{
  List, [], ◌∷◌, String, ◌≡◌, refl, Bool, true, false, not, ◌&&◌, ◌||◌, Option, none, some, List,
  [], ◌∷◌, arith, eq_iff, if◌then◌else◌,
}
use jjui.Prelude.Texts.{trim_space, is_empty}

pub record Move : Type 0 where
  pub revisions : SelectedRevisions
  pub mode : ModeTarget
  pub selected : String
  pub anchor : String
  pub name : String

pub data Choice : Type 0 where
  selects : String → Choice
  aims : ModeTarget → Choice
  names : String → Choice

abbrev pub choose : Choice → Move → Move
choose (selects id) m = record m { selected = id }
choose (aims t) m = record m { mode = t; anchor = if is_gap t then m.selected else m.anchor }
choose (names name) m = record m { name = trim_space name }

abbrev pub choose_all : List Choice → Move → Move
choose_all [] m = m
choose_all (c ∷ cs) m = choose_all cs (choose c m)

abbrev pub text_of : Option Commit → String
text_of none = ""
text_of (some c) = get_change_id c

abbrev pub is_some : Option Commit → Bool
is_some none = false
is_some (some c) = true

-- A target is known, and in the gap also where it starts.
abbrev pub is_placed : ModeTarget → (insert_start to : Option Commit) → Bool
is_placed mode start to = is_some to && (not (is_gap mode) || is_some start)

-- The place as jj takes it.
abbrev pub named : Move → String
named m = if not (is_empty (trim_space m.name)) then m.name else m.selected

-- The options that place revisions.
abbrev pub at_place : ModeTarget → (at anchor : String) → List Arg
at_place destination at anchor = option "--onto" at ∷ []
at_place after at anchor = option "--insert-after" at ∷ []
at_place before at anchor = option "--insert-before" at ∷ []
at_place gap at anchor = option "--insert-before" at ∷ option "--insert-after" anchor ∷ []

-- An equal commit under the cursor has the same identifier, whether or not the state takes it over.
pub text_of-equal :
    (to : Option Commit) (s : SelectedRevision)
    → equal to (some (commit_of s)) ≡ true
    → text_of to ≡ s.change_id
unfolding equal equal_commits get_change_id
text_of-equal none s e = ground arith
text_of-equal (some c) s e = ground (arith, eq_iff (get_change_id c) s.change_id)

pub is_some-equal :
    (to : Option Commit) (s : SelectedRevision)
    → equal to (some (commit_of s)) ≡ true
    → is_some to ≡ true
unfolding equal
is_some-equal none s e = ground arith
is_some-equal (some c) s e = refl

-- The gap starts at the target of the time.
pub is_placed-aimed :
    (mode old : ModeTarget) (start to : Option Commit)
    → is_placed old start to ≡ true
    → is_placed mode (if is_gap mode then to else start) to ≡ true
is_placed-aimed destination old start to h = ground arith
is_placed-aimed after old start to h = ground arith
is_placed-aimed before old start to h = ground arith
is_placed-aimed gap old start to h = ground arith

pub text_of-if :
    (b : Bool) (to start : Option Commit)
    → text_of (if b then to else start) ≡ (if b then text_of to else text_of start)
text_of-if true to start = refl
text_of-if false to start = refl
