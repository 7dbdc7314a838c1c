-- ===== src/Operations/AceJump.antt =====
-- The jump by typing an identifier (internal/ui/operations/ace_jump/ace_jump.go and operation.go). An
-- identifier is a text of ASCII, as jj writes them, and a key is the text that it types. The rows
-- are read by a function from their numbers, with `none` for the panic of reading past the last one,
-- and a row may be without a commit; the jump itself is the argument of
-- `setCursor`, which the state keeps.
pub mod Narrowing
pub mod Visible
use Prim.Native.Char.{Char, code}
use jjui.Jj.Selections.{Commit, is_root}
use jjui.Operations.{close, Effect, nothing, send}
use jjui.Prelude.{
  ℕ, zero, suc, ◌+◌, ◌-◌, String, Bool, true, false, ◌&&◌, ◌||◌, Option, none, some, List, [], ◌∷◌,
  ◌++◌, ltb, leb, ◌==◌, if◌then◌else◌,
}

pub record AceKey : Type 0 where
  pub row_idx : ℕ
  pub id : String
  pub bind_idx : ℕ
  pub bind : Char

pub record AceJump : Type 0 where
  pub ace : List AceKey
  pub prefix : List Char

unfoldable pub new_ace_jump : AceJump
new_ace_jump = record { ace = []; prefix = [] }

-- `id[idx]`; reading past the end panics.
unfoldable pub char_at : String → ℕ → Option Char
char_at String.[] n = none
char_at (String.◌∷◌ c s) zero = some c
char_at (String.◌∷◌ c s) (suc n) = char_at s n

-- The binding has both cases of the character, and is kept as the character.
abbrev pub ace_binding_at : String → ℕ → Option Char
ace_binding_at id idx = char_at id idx

unfoldable pub append_key : ℕ → String → ℕ → AceJump → Option AceJump
append_key row_idx id bind_idx j = elim (ace_binding_at id bind_idx) [
  | none ↦ none
  | some c ↦ some (record j {
    ace = j.ace ++ record { row_idx = row_idx; id = id; bind_idx = bind_idx; bind = c } ∷ [];
  })
]

abbrev pub first_of : List AceKey → Option AceKey
first_of [] = none
first_of (a ∷ aces) = some a

unfoldable pub first : Option AceJump → Option AceKey
first none = none
first (some j) = first_of j.ace

-- Upper case as lower case.
abbrev pub fold_case : ℕ → ℕ
fold_case n = if leb 65 n && leb n 90 then n + 32 else n

abbrev pub same_letter : Char → Char → Bool
same_letter c d = fold_case (code c) == fold_case (code d)

-- `key.Matches` with a binding of the two cases.
unfoldable pub matches_key : String → Char → Bool
matches_key String.[] c = false
matches_key (String.◌∷◌ d String.[]) c = same_letter d c
matches_key (String.◌∷◌ d (String.◌∷◌ e s)) c = false

abbrev pub text_length : String → ℕ
text_length String.[] = zero
text_length (String.◌∷◌ c s) = suc (text_length s)

-- The index moves on, but not past the end.
unfoldable pub advance : AceKey → AceKey
advance a =
    if ltb (a.bind_idx + 1) (text_length a.id) then record a { bind_idx = a.bind_idx + 1 } else a

abbrev pub is_bound : String → AceKey → Bool
is_bound k a = matches_key k a.bind

-- The keys that match, moved on; and all keys, since a key that is moved on is shared.
unfoldable pub narrowed : String → List AceKey → List AceKey
narrowed k [] = []
narrowed k (a ∷ aces) =
    let rest = narrowed k aces in if is_bound k a then advance a ∷ rest else rest

unfoldable pub all_moved : String → List AceKey → List AceKey
all_moved k [] = []
all_moved k (a ∷ aces) = (if is_bound k a then advance a else a) ∷ all_moved k aces

-- The character of the first key that matches.
unfoldable pub typed : String → List AceKey → List Char
typed k [] = []
typed k (a ∷ aces) =
    let rest = typed k aces in
    if is_bound k a then elim (char_at a.id a.bind_idx) [ none ↦ [] | some c ↦ c ∷ [] ] else rest

unfoldable pub bind_keys : List AceKey → Option (List AceKey)
bind_keys [] = some []
bind_keys (a ∷ aces) =
    let rest = bind_keys aces in
    elim (ace_binding_at a.id a.bind_idx) [
      | none ↦ none
      | some c ↦ elim rest [ none ↦ none | some bound ↦ some (record a { bind = c } ∷ bound) ]
    ]

abbrev pub rebound : Option (List AceKey) → AceJump → Option (AceJump × Option AceKey)
rebound none j = none
rebound (some aces) j = some (record j { ace = aces }, none)

abbrev pub narrow_to : List AceKey → AceJump → AceJump → Option (AceJump × Option AceKey)
narrow_to [] moved j = some (j, none)
narrow_to (a ∷ []) moved j = some (moved, some a)
narrow_to (a ∷ b ∷ aces) moved j = rebound (bind_keys (a ∷ b ∷ aces)) moved

-- The single match, or none.
unfoldable pub narrow : String → AceJump → Option (AceJump × Option AceKey)
narrow k j =
    narrow_to (narrowed k j.ace)
      (record { ace = all_moved k j.ace; prefix = j.prefix ++ typed k j.ace }) j

pub record Operation : Type 0 where
  pub cursor : Option ℕ
  pub ace_jump : Option AceJump
  pub get_item_fn : ℕ → Option (Option Commit)
  -- `none` is -1.
  pub first_row : Option ℕ
  pub last_row : Option ℕ

pub data Intent : Type 0 where
  cancel apply other_intent : Intent

abbrev pub add_change_id : ℕ → Commit → AceJump → Option AceJump
add_change_id i c j = if c.hidden || is_root c then some j else append_key i c.change_id 0 j

abbrev pub and_change_id : ℕ → Commit → Option AceJump → Option AceJump
and_change_id i c none = none
and_change_id i c (some j) = add_change_id i c j

abbrev pub add_row : ℕ → Option Commit → AceJump → Option AceJump
add_row i none j = some j
add_row i (some c) j = and_change_id i c (append_key i c.commit_id 0 j)

abbrev pub add_read : ℕ → Option (Option Commit) → AceJump → Option AceJump
add_read i none j = none
add_read i (some row) j = add_row i row j

-- The loop over the rows, from a row on and for a number of rows; `none` is a panic.
unfoldable pub add_rows : (ℕ → Option (Option Commit)) → ℕ → ℕ → AceJump → Option AceJump
add_rows items zero i j = some j
add_rows items (suc n) i j = elim (add_read i (items i) j) [
  | none ↦ none
  | some next ↦ add_rows items n (i + 1) next
]

-- Nothing before the list is drawn; the outer option is a panic.
unfoldable pub find_ace_keys : Operation → Option (Option AceJump)
find_ace_keys o = elim o.first_row [
  | none ↦ some none
  | some start ↦ elim o.last_row [
    | none ↦ some none
    | some end ↦ elim (add_rows o.get_item_fn (end + 1 - start) start new_ace_jump) [
      | none ↦ none
      | some j ↦ some (some j)
    ]
  ]
]

unfoldable pub init : Operation → Option Operation
init o = elim (find_ace_keys o) [ none ↦ none | some found ↦ some (record o { ace_jump = found }) ]

abbrev pub jump_to : ℕ → Operation → Operation × Effect
jump_to row o = (record o { cursor = some row; ace_jump = none }, send close)

abbrev pub after_narrow : Option (AceJump × Option AceKey) → Operation → Option (Operation × Effect)
after_narrow none o = none
after_narrow (some (j, none)) o = some (record o { ace_jump = some j }, nothing)
after_narrow (some (j, some found)) o = some (jump_to found.row_idx o)

unfoldable pub handle_key : String → Operation → Option (Operation × Effect)
handle_key k o = elim o.ace_jump [ none ↦ some (o, nothing) | some j ↦ after_narrow (narrow k j) o ]

abbrev pub jump_first : Option AceKey → Operation → Operation × Effect
jump_first none o = (o, nothing)
jump_first (some a) o = jump_to a.row_idx o

-- With whether the intent is taken.
unfoldable pub handle_intent : Intent → Operation → (Operation × Effect) × Bool
handle_intent cancel o = ((record o { ace_jump = none }, send close), true)
handle_intent apply o = (jump_first (first o.ace_jump) o, true)
handle_intent other_intent o = ((o, nothing), false)

pub data Event : Type 0 where
  key : String → Event
  intent : Intent → Event
  other_event : Event

unfoldable pub update : Event → Operation → Option (Operation × Effect)
update (key k) o = handle_key k o
update (intent i) o = some (handle_intent i o).0
update other_event o = some (o, nothing)

unfoldable pub new_operation :
    (ℕ → Option (Option Commit)) → (first_row last_row : Option ℕ) → Operation
new_operation items first_row last_row = record {
  cursor = none;
  ace_jump = some new_ace_jump;
  get_item_fn = items;
  first_row = first_row;
  last_row = last_row;
}
