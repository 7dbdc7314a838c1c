-- ===== src/Operations.antt =====
-- The operations on revisions (internal/ui/operations): what their handlers share. A handler returns
-- its state, the command that it hands to the program and whether it took the intent; `none` is the
-- panic of a nil pointer.
mod Tests
pub mod Runs
pub mod Moving
pub mod Lines
pub mod Rebase
pub mod Revert
pub mod Duplicate
pub mod Squash
pub mod NewBetween
pub mod Abandon
pub mod Absorb
pub mod SetParents
pub mod AceJump
use jjui.Jj.Selections.{Commit, get_change_id}
use mathlib.Core.Path.{subst, fun_ext}
use mathlib.Core.List.{reverse}
use mathlib.Core.Bool.{false≢true}
use jjui.Prelude.{
  ℕ, zero, suc, ◌+◌, ◌-◌, ◌*◌, ◌/◌, ◌%◌, ◌≤◌, ◌<◌, min, max, String, ◌≡◌, refl, sym, ap, ◌∙◌, ◌≢◌,
  ◌↔◌, ◌⊎◌, inl, inr, Bool, true, false, not, ◌&&◌, ◌||◌, Option, none, some, Memᴰ, List, [], ◌∷◌,
  ◌++◌, map, arith, str_eq, eq_iff, eq_refl, ltb, leb, ◌==◌, ==_iff, if◌then◌else◌, ltb→lt, lt→ltb,
  leb→le, tests, Bool-cases, Option-cases, length, get_elem?, take, drop, replicate, keep, any, All,
  length-append, length-replicate, All-append, All-keep, All-map, All-both, All-reverse,
  split_reverse, of-mem-keep, mem-keep,
}
use jjui.Prelude.Int.{
  ℤ, pos, negsuc, pos_part, neg_part, sub_ℕ, ◌+ℤ◌, ◌-ℤ◌, ◌≤ℤ◌, ◌<ℤ◌, ltb_ℤ, leb_ℤ, min_ℤ, max_ℤ,
  half_ℤ, +ℤ_parts, -ℤ_parts, eq_of_parts, min_ℤ_le, le-max_ℤ, int_laws,
}
use jjui.Prelude.Maps.{Map, lookup, insert, delete, lookup-insert, lookup-delete}
use jjui.Prelude.Texts.{trim_space, is_empty, is_space, join, join_onto, itoa}

-- The place that `--onto`, `--insert-after` and `--insert-before` name, and the gap between two.
pub data ModeTarget : Type 0 where
  destination after before gap : ModeTarget

abbrev pub is_gap : ModeTarget → Bool
is_gap gap = true
is_gap _ = false

-- The flag under which jj takes the target; the gap has none, and the map gives an empty text.
unfoldable pub target_to_flags : ModeTarget → String
target_to_flags after = "--insert-after"
target_to_flags before = "--insert-before"
target_to_flags destination = "--onto"
target_to_flags gap = ""

-- The messages to the program.
pub data Message : Type 0 where
  close close_applied refresh start_ace_jump open_target_picker : Message
  refresh_and_select : String → Message

-- The commands: a message, a run of jj with the messages that follow it, a query of jj, and two
-- commands at the same time or one after the other.
pub data Effect : Type 0 where
  nothing : Effect
  send : Message → Effect
  run : List String → List Message → Effect
  run_interactive : List String → Message → Effect
  look_up : List String → Effect
  batch sequence : Effect → Effect → Effect

abbrev pub Handled : Type 0 → Type 0
Handled S = Option (S × Effect × Bool)

module _ {S : Type 0} where
  abbrev pub taken : S → Effect → Handled S
  taken s e = some (s, e, true)

  abbrev pub refused : S → Handled S
  refused s = some (s, nothing, false)

  -- `cmd, _ := r.HandleIntent(msg)`.
  abbrev pub forget : Handled S → Option (S × Effect)
  forget h = elim h [ none ↦ none | some (s, e, _) ↦ some (s, e) ]

-- The identifier of a pointer that may be nil; reading it from nil panics.
abbrev pub id_of : Option Commit → Option String
id_of none = none
id_of (some c) = some (get_change_id c)

pub record SelectedRevision : Type 0 where
  pub change_id : String
  pub commit_id : String

-- The commit that a changed selection stands for.
abbrev pub commit_of : SelectedRevision → Commit
commit_of s = record {
  change_id = s.change_id;
  is_working_copy = false;
  hidden = false;
  has_bookmarks = false;
  has_local_bookmarks = false;
  has_workspace = false;
  root = false;
  is_empty_commit = false;
  commit_id = s.commit_id;
}

-- The name that was picked, unless it is blank, or else the commit under the cursor.
abbrev pub named_or_selected : String → Option Commit → String
named_or_selected name to =
    if not (is_empty (trim_space name))
    then name
    else elim to [ none ↦ "" | some c ↦ get_change_id c ]

pub data RenderPosition : Type 0 where
  render_nil render_after render_before : RenderPosition
  before_change_id before_commit_id over_description : RenderPosition

-- Where the line about the target stands.
abbrev pub is_expected : ModeTarget → RenderPosition → Bool
is_expected destination render_before = true
is_expected after render_before = true
is_expected before render_after = true
is_expected gap render_after = true
is_expected _ _ = false

-- The texts that a drawing joins, without their styles; `none` is a panic.
abbrev pub Drawn : Type 0
Drawn = Option (List String)

abbrev pub is_at : Option Commit → Commit → Bool
is_at none c = false
is_at (some t) c = str_eq (get_change_id t) (get_change_id c)

abbrev pub word_of : ModeTarget → String
word_of destination = "onto"
word_of after = "after"
word_of before = "before"
word_of gap = "insert"

unfoldable pub any_is : List String → String → Bool
any_is ids id = any (str_eq id) ids
