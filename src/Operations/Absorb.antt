-- ===== src/Operations/Absorb.antt =====
-- The absorb operation (internal/ui/operations/absorb/absorb.go). Its sets are maps from identifiers
-- to `true`; the answers of jj are events and an argument of the constructor.
pub mod Sets
pub mod Order
pub mod Targets
use Prim.Native.Char.{code}
use Prim.Native.String.{◌++◌ as append}
use jjui.Jj.Commands.Changes.{absorb}
use jjui.Jj.Commands.Queries.{get_ids_from_revset}
use jjui.Jj.Selections.{Commit, get_change_id, equal}
use jjui.Operations.{
  close, close_applied, start_ace_jump, refresh_and_select, Effect, nothing, send, run, look_up,
  Handled, taken, refused, forget, SelectedRevision, commit_of, RenderPosition,
}
use jjui.Operations.Lines.{is_marker}
use mathlib.Core.Path.{subst, fun_ext}
use mathlib.Core.List.{reverse}
use mathlib.Core.Bool.{false≢true}
use jjui.Prelude.{
  ℕ, zero, suc, ◌+◌, ◌-◌, ◌*◌, ◌/◌, ◌%◌, ◌≤◌, ◌<◌, min, max, String, ◌≡◌, refl, sym, ap, ◌∙◌, ◌≢◌,
  ◌↔◌, ◌⊎◌, inl, inr, Bool, true, false, not, ◌&&◌, ◌||◌, Option, none, some, Memᴰ, List, [], ◌∷◌,
  ◌++◌, map, arith, str_eq, eq_iff, eq_refl, ltb, leb, ◌==◌, ==_iff, if◌then◌else◌, ltb→lt, lt→ltb,
  leb→le, tests, Bool-cases, Option-cases, length, get_elem?, take, drop, replicate, keep, any, All,
  length-append, length-replicate, All-append, All-keep, All-map, All-both, All-reverse,
  split_reverse, of-mem-keep, mem-keep,
}
use jjui.Prelude.Int.{
  ℤ, pos, negsuc, pos_part, neg_part, sub_ℕ, ◌+ℤ◌, ◌-ℤ◌, ◌≤ℤ◌, ◌<ℤ◌, ltb_ℤ, leb_ℤ, min_ℤ, max_ℤ,
  half_ℤ, +ℤ_parts, -ℤ_parts, eq_of_parts, min_ℤ_le, le-max_ℤ, int_laws,
}
use jjui.Prelude.Maps.{Map, lookup, insert, delete, lookup-insert, lookup-delete}
use jjui.Prelude.Texts.{trim_space, is_empty, is_space, join, join_onto, itoa, split_lines}

abbrev pub Targets : Type 0
Targets = Map Bool

-- `o.targets[id]`, with `false` for a missing key.
unfoldable pub is_on : String → Targets → Bool
is_on id targets = elim (lookup id targets) [ none ↦ false | some on ↦ on ]

pub record Operation : Type 0 where
  pub source : Commit
  pub current : Option Commit
  pub defaults : Targets
  pub targets : Targets

pub data Intent : Type 0 where
  ace_jump toggle_select select_descendants apply cancel other_intent : Intent

pub data Event : Type 0 where
  intent : Intent → Event
  -- `none` is a selected item that is no revision.
  selection_changed : Option SelectedRevision → Event
  set_targets : List String → Event
  other_event : Event

-- The loop of `equalSets`.
unfoldable pub all_on : Targets → Targets → Bool
all_on [] b = true
all_on ((id, on) ∷ a) b = let rest = all_on a b in if not (is_on id b) then false else rest

unfoldable pub equal_sets : Targets → Targets → Bool
equal_sets a b = if not (length a == length b) then false else all_on a b

abbrev pub keys : Targets → List String
keys m = map (λ entry. entry.0) m

-- The order of Go's texts.
unfoldable pub text_leb : String → String → Bool
text_leb String.[] t = true
text_leb (String.◌∷◌ c s) String.[] = false
text_leb (String.◌∷◌ c s) (String.◌∷◌ d t) =
    let rest = text_leb s t in
    if ltb (code c) (code d) then true else if code c == code d then rest else false

unfoldable pub put : String → List String → List String
put s [] = s ∷ []
put s (t ∷ ts) = let rest = put s ts in if text_leb s t then s ∷ t ∷ ts else t ∷ rest

-- `slices.Sort`.
unfoldable pub sort : List String → List String
sort [] = []
sort (s ∷ ss) = put s (sort ss)

unfoldable pub toggle_target : String → Targets → Targets
toggle_target id targets = if is_on id targets then delete id targets else insert id true targets

abbrev pub toggle_at : Option Commit → Operation → Operation
toggle_at none o = o
toggle_at (some c) o =
    let id = get_change_id c in
    if is_empty id || str_eq id (get_change_id o.source)
    then o
    else record o { targets = toggle_target id o.targets }

unfoldable pub select_descendants_of : String → Operation → Effect
select_descendants_of id o =
    let source = get_change_id o.source in
    if is_empty id || is_empty source
    then nothing
    else look_up (
        get_ids_from_revset
          (append "mutable() & (" (append id (append ":: & ::" (append source ")")))))

abbrev pub descendants_under : Option Commit → Operation → Effect
descendants_under none o = nothing
descendants_under (some c) o = select_descendants_of (get_change_id c) o

unfoldable pub absorb_into : List String → Operation → Handled Operation
absorb_into into o = taken o (
    run (absorb (get_change_id o.source) into [])
      (refresh_and_select (get_change_id o.source) ∷ close_applied ∷ []))

abbrev pub is_nil : Targets → Bool
is_nil [] = true
is_nil (e ∷ m) = false

unfoldable pub handle_intent : Intent → Operation → Handled Operation
handle_intent ace_jump o = taken o (send start_ace_jump)
handle_intent toggle_select o = taken (toggle_at o.current o) nothing
handle_intent select_descendants o = taken o (descendants_under o.current o)
handle_intent apply o =
    if not (equal_sets o.targets o.defaults)
    then (if is_nil o.targets then taken o (send close) else absorb_into (sort (keys o.targets)) o)
    else absorb_into [] o
handle_intent cancel o = taken o (send close)
handle_intent other_intent o = refused o

unfoldable pub set_of : List String → Targets → Targets
set_of [] m = m
set_of (id ∷ ids) m = set_of ids (insert id true m)

unfoldable pub set_selected_revision : Option Commit → Operation → Operation
set_selected_revision commit o = if equal o.current commit then o else record o { current = commit }

unfoldable pub update : Event → Operation → Option (Operation × Effect)
update (intent i) o = forget (handle_intent i o)
update (selection_changed none) o = some (o, nothing)
update (selection_changed (some selected)) o =
    some (set_selected_revision (some (commit_of selected)) o, nothing)
update (set_targets ids) o = some (record o { targets = set_of ids [] }, nothing)
update other_event o = some (o, nothing)

-- The marker before the identifier of a revision.
unfoldable pub render : Operation → Commit → RenderPosition → String
render o commit at =
    let id = get_change_id commit in
    if not (is_marker at)
    then ""
    else if str_eq id (get_change_id o.source)
    then "<< absorb >>"
    else if is_on id o.targets
    then "<< into >>"
    else ""

-- The loop over the lines of the answer.
unfoldable pub target_ids : String → List String → List String
target_ids source [] = []
target_ids source (line ∷ lines) =
    let id = trim_space line in
    let rest = target_ids source lines in
    if is_empty id || str_eq id source then rest else id ∷ rest

unfoldable pub target_ids_from_output : String → String → List String
target_ids_from_output output source =
    let trimmed = trim_space output in
    if is_empty trimmed then [] else target_ids source (split_lines trimmed)

-- `none` is a query that failed.
unfoldable pub load_default_targets : Option String → Commit → List String
load_default_targets none source = []
load_default_targets (some output) source = target_ids_from_output output (get_change_id source)

unfoldable pub new_operation : Option String → Commit → Option Commit → Operation
new_operation output source current =
    let ids = load_default_targets output source in
    record { source = source; current = current; defaults = set_of ids []; targets = set_of ids [] }
