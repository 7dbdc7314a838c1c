-- ===== src/Operations/AceJump/Visible.antt =====
-- Where a jump leads (internal/ui/operations/ace_jump/operation.go).
use jjui.Jj.Selections.{Commit, is_root}
use jjui.Operations.{Effect, nothing, send, close}
use jjui.Operations.AceJump.{
  AceKey, AceJump, Operation, cancel, apply, other_intent, Event, key, intent, other_event,
  new_ace_jump, char_at, text_length, append_key, first, first_of, is_bound, narrow, add_change_id,
  add_row, add_read, add_rows, find_ace_keys, init, jump_to, jump_first, after_narrow, handle_key,
  handle_intent, update, new_operation,
}
use jjui.Operations.AceJump.Narrowing.{
  IsInside, row_of, rows_of, Narrowed, unmatched, single, several, narrow-Narrowed,
}
use jjui.Operations.Runs.{Machine, run_events, run_events-Refines}
use mathlib.Core.Path.{subst}
use mathlib.Core.Option.{none-ne-some, some-injective}
use jjui.Prelude.{
  ◌<◌, ◌⊎◌, length, get_elem?, found_at, ℕ, zero, suc, ◌+◌, ◌-◌, ◌≤◌, String, ◌≡◌, refl, sym, inl,
  inr, true, ◌||◌, Option, none, some, List, [], ◌∷◌, ◌++◌, arith, ltb, Bool-cases, Option-cases,
  keep, All, All-append,
}

-- The rows that the list shows.
abbrev pub InView : (lo hi : ℕ) → ℕ × String → Type 0
InView lo hi row = (lo ≤ row.0) × (row.0 ≤ hi)

abbrev pub OnJump : (lo hi : ℕ) → Option AceJump → Type 0
OnJump lo hi none = Unit
OnJump lo hi (some j) = All IsInside j.ace × All (λ a. InView lo hi (row_of a)) j.ace

abbrev pub OnCursor : (lo hi : ℕ) → Option ℕ → Type 0
OnCursor lo hi none = Unit
OnCursor lo hi (some row) = (lo ≤ row) × (row ≤ hi)

abbrev pub IsReady : (lo hi : ℕ) → Operation → Type 0
IsReady lo hi o = OnJump lo hi o.ace_jump × OnCursor lo hi o.cursor

abbrev Steps : (lo hi : ℕ) → Option (Operation × Effect) → Type 0
Steps lo hi r = (t : Operation) × (eff : Effect) × (r ≡ some (t, eff)) × IsReady lo hi t

All-keep_of :
    (P : AceKey → Type 0) (k : String) (aces : List AceKey)
    → All P aces
    → All P (keep (is_bound k) aces)
All-keep_of P k [] h = h
All-keep_of P k (a ∷ aces) h = elim (Bool-cases (is_bound k a)) [
  | inl e ↦ rw e (h.0, All-keep_of P k aces h.1)
  | inr e ↦ rw e (All-keep_of P k aces h.1)
]

to_rows :
    (lo hi : ℕ) (aces : List AceKey)
    → All (λ a. InView lo hi (row_of a)) aces
    → All (InView lo hi) (rows_of aces)
to_rows lo hi [] h = h
to_rows lo hi (a ∷ aces) h = (h.0, to_rows lo hi aces h.1)

of_rows :
    (lo hi : ℕ) (aces : List AceKey)
    → All (InView lo hi) (rows_of aces)
    → All (λ a. InView lo hi (row_of a)) aces
of_rows lo hi [] h = h
of_rows lo hi (a ∷ aces) h = (h.0, of_rows lo hi aces h.1)

Steps-after_narrow :
    (lo hi : ℕ) (kept : List AceKey) (j : AceJump) (r : Option (AceJump × Option AceKey))
    (o : Operation)
    → Narrowed kept j r
    → OnJump lo hi (some j)
    → All (λ a. InView lo hi (row_of a)) kept
    → OnCursor lo hi o.cursor
    → Steps lo hi (after_narrow r o)
Steps-after_narrow lo hi kept j r o (unmatched e f) h v c =
    (record o { ace_jump = some j }, nothing, rw f refl, (h, c))
Steps-after_narrow lo hi kept j r o (single a found next e g f) h v c = (
  (jump_to found.row_idx o).0,
  send close,
  rw f refl,
  (tt, subst (InView lo hi) (sym g) (subst (All (λ a. InView lo hi (row_of a))) e v).0),
)
Steps-after_narrow lo hi kept j r o (several next two rows inside waits f) h v c = (
  record o { ace_jump = some next },
  nothing,
  rw f refl,
  (
    (inside, of_rows lo hi next.ace (subst (All (InView lo hi)) (sym rows) (to_rows lo hi kept v))),
    c,
  ),
)

Steps-key :
    (lo hi : ℕ) (k : String) (at : Option AceJump) (o : Operation)
    → OnJump lo hi at
    → OnCursor lo hi o.cursor
    → Steps lo hi (handle_key k (record o { ace_jump = at }))
unfolding handle_key
Steps-key lo hi k none o h c = (record o { ace_jump = none }, nothing, refl, (h, c))
Steps-key lo hi k (some j) o h c =
    Steps-after_narrow lo hi (keep (is_bound k) j.ace) j (narrow k j)
      (record o { ace_jump = some j }) (narrow-Narrowed k j h.0) h
      (All-keep_of (λ a. InView lo hi (row_of a)) k j.ace h.1) c

IsReady-jump_first :
    (lo hi : ℕ) (aces : List AceKey) (o : Operation)
    → All (λ a. InView lo hi (row_of a)) aces
    → IsReady lo hi o
    → IsReady lo hi (jump_first (first_of aces) o).0
IsReady-jump_first lo hi [] o v h = h
IsReady-jump_first lo hi (a ∷ aces) o v h = (tt, v.0)

IsReady-first :
    (lo hi : ℕ) (at : Option AceJump) (o : Operation)
    → OnJump lo hi at
    → IsReady lo hi o
    → IsReady lo hi (jump_first (first at) o).0
unfolding first
IsReady-first lo hi none o a h = h
IsReady-first lo hi (some j) o a h = IsReady-jump_first lo hi j.ace o a.1 h

pub Steps-update :
    (lo hi : ℕ) (e : Event) (o : Operation) → IsReady lo hi o → Steps lo hi (update e o)
unfolding update handle_intent
Steps-update lo hi (key k) o h = Steps-key lo hi k o.ace_jump o h.0 h.1
Steps-update lo hi (intent cancel) o h = (record o { ace_jump = none }, send close, refl, (tt, h.1))
Steps-update lo hi (intent apply) o h =
    let next = jump_first (first o.ace_jump) o in
    (next.0, next.1, refl, IsReady-first lo hi o.ace_jump o h.0 h)
Steps-update lo hi (intent other_intent) o h = (o, nothing, refl, h)
Steps-update lo hi other_event o h = (o, nothing, refl, h)

-- The operation as a machine, with nothing to plan.
abbrev machine : (lo hi : ℕ) → Machine Operation Event Effect (Unit {0})
machine lo hi = record {
  update = update;
  IsReady = IsReady lo hi;
  plan_of = λ o. tt;
  planned = λ e p. p;
  leads = λ e o h. let (t, eff, at, ready) = Steps-update lo hi e o h in (t, eff, at, ready, refl);
}

-- The rows as the list reads them.
abbrev pub row_at : List (Option Commit) → ℕ → Option (Option Commit)
row_at rows i = get_elem? rows i

-- The commits of the rows have both identifiers.
abbrev pub HasIds : List (Option Commit) → Type 0
HasIds rows =
    (i : ℕ) (c : Commit)
    → row_at rows i ≡ some (some c)
    → (ltb 0 (text_length c.commit_id) ≡ true) × (ltb 0 (text_length c.change_id) ≡ true)

abbrev pub HasBoth : Option Commit → Type 0
HasBoth none = Unit
HasBoth (some c) =
    (ltb 0 (text_length c.commit_id) ≡ true) × (ltb 0 (text_length c.change_id) ≡ true)

pub HasIds-All : (rows : List (Option Commit)) → All HasBoth rows → HasIds rows
HasIds-All [] h i c e = absurd (none-ne-some (some c) e)
HasIds-All (row ∷ rows) h zero c e = subst HasBoth (some-injective row (some c) e) h.0
HasIds-All (row ∷ rows) h (suc i) c e = HasIds-All rows h.1 i c e

abbrev Adds : (lo hi : ℕ) → Option AceJump → Type 0
Adds lo hi r = (j : AceJump) × (r ≡ some j) × OnJump lo hi (some j)

Adds-append_key :
    (lo hi i : ℕ) (id : String) (j : AceJump)
    → (lo ≤ i) × (i ≤ hi)
    → ltb 0 (text_length id) ≡ true
    → OnJump lo hi (some j)
    → Adds lo hi (append_key i id 0 j)
unfolding append_key char_at
Adds-append_key lo hi i String.[] j v e h = absurd (ground arith)
Adds-append_key lo hi i (String.◌∷◌ c s) j v e h = (
  record j {
    ace = j.ace ++ record { row_idx = i; id = String.◌∷◌ c s; bind_idx = 0; bind = c } ∷ [];
  },
  refl,
  (
    All-append IsInside j.ace
        (record { row_idx = i; id = String.◌∷◌ c s; bind_idx = 0; bind = c } ∷ []) h.0 (e, tt),
    All-append (λ a. InView lo hi (row_of a)) j.ace
        (record { row_idx = i; id = String.◌∷◌ c s; bind_idx = 0; bind = c } ∷ []) h.1 (v, tt),
  ),
)

Adds-change_id :
    (lo hi i : ℕ) (c : Commit) (j : AceJump)
    → (lo ≤ i) × (i ≤ hi)
    → ltb 0 (text_length c.change_id) ≡ true
    → OnJump lo hi (some j)
    → Adds lo hi (add_change_id i c j)
Adds-change_id lo hi i c j v e h = elim (Bool-cases (c.hidden || is_root c)) [
  | inl f ↦ (j, rw f refl, h)
  | inr f ↦ rw f (Adds-append_key lo hi i c.change_id j v e h)
]

Adds-row :
    (lo hi i : ℕ) (rows : List (Option Commit)) (row : Option Commit) (j : AceJump)
    → row_at rows i ≡ some row
    → HasIds rows
    → (lo ≤ i) × (i ≤ hi)
    → OnJump lo hi (some j)
    → Adds lo hi (add_row i row j)
Adds-row lo hi i rows none j at ids v h = (j, refl, h)
Adds-row lo hi i rows (some c) j at ids v h =
    let (next, e, ready) = Adds-append_key lo hi i c.commit_id j v (ids i c at).0 h in
    rw e (Adds-change_id lo hi i c next v (ids i c at).1 ready)

pub Adds-rows :
    (lo hi n i : ℕ) (rows : List (Option Commit)) (j : AceJump)
    → HasIds rows
    → lo ≤ i
    → i + n ≤ hi + 1
    → i + n ≤ length rows
    → OnJump lo hi (some j)
    → Adds lo hi (add_rows (row_at rows) n i j)
unfolding add_rows
Adds-rows lo hi zero i rows j ids e f g h = (j, refl, h)
Adds-rows lo hi (suc n) i rows j ids e f g h =
    let (row, at) = found_at rows i (ground (arith, g)) in
    let (next, added, ready) = Adds-row lo hi i rows row j at ids (e, omega arith) h in
    rw (add_rows, at, added)
      (Adds-rows lo hi n (i + 1) rows next ids (omega arith) (omega arith) (omega arith) ready)

read_inside :
    (k i : ℕ) (rows : List (Option Commit)) (j next : AceJump)
    → add_read k (row_at rows i) j ≡ some next
    → i < length rows
read_inside k i [] j next e = absurd (none-ne-some next e)
read_inside k zero (row ∷ rows) j next e = omega arith
read_inside k (suc i) (row ∷ rows) j next e = omega (arith, read_inside k i rows j next e)

-- The loop comes to a row that is not there.
past-add_rows :
    (hi n i : ℕ) (rows : List (Option Commit)) (j : AceJump)
    → i + n ≡ hi + 1
    → i ≤ hi
    → length rows ≤ hi
    → add_rows (row_at rows) n i j ≡ none
unfolding add_rows
past-add_rows hi zero i rows j e f g = absurd (omega arith)
past-add_rows hi (suc n) i rows j e f g = elim (Option-cases (add_read i (row_at rows i) j)) [
  | inl none_added ↦ rw (add_rows, none_added) refl
  | inr (next, added) ↦
      let inside : i < length rows = read_inside i i rows j next added in
      rw (add_rows, added) (past-add_rows hi n (i + 1) rows next (omega arith) (omega arith) g)
]

abbrev pub with_keys : (ℕ → Option (Option Commit)) → (lo hi : ℕ) → AceJump → Operation
with_keys items lo hi j = record {
  cursor = none;
  ace_jump = some j;
  get_item_fn = items;
  first_row = some lo;
  last_row = some hi;
}

pub init-new_operation :
    (items : ℕ → Option (Option Commit)) (lo hi : ℕ) (j : AceJump)
    → add_rows items (hi + 1 - lo) lo new_ace_jump ≡ some j
    → init (new_operation items (some lo) (some hi)) ≡ some (with_keys items lo hi j)
unfolding init find_ace_keys new_operation
init-new_operation items lo hi j e = rw (init, find_ace_keys, new_operation, e) refl

init-past :
    (items : ℕ → Option (Option Commit)) (lo hi : ℕ)
    → add_rows items (hi + 1 - lo) lo new_ace_jump ≡ none
    → init (new_operation items (some lo) (some hi)) ≡ none
unfolding init find_ace_keys new_operation
init-past items lo hi e = rw (init, find_ace_keys, new_operation, e) refl

OnJump-new_ace_jump : (lo hi : ℕ) → OnJump lo hi (some new_ace_jump)
unfolding new_ace_jump
OnJump-new_ace_jump lo hi = (tt, tt)

-- The run of a jump that starts: without a panic, to a row of the window.
abbrev pub Jumps : List (Option Commit) → (lo hi : ℕ) → List Event → Type 0
Jumps rows lo hi es =
    (o : Operation) × (t : Operation) × (init (new_operation (row_at rows) (some lo) (some hi))
      ≡ some o)
    × (run_events update es o ≡ some t)
    × OnCursor lo hi t.cursor

-- Where each commit of the rows has both identifiers and the window from `lo` to `hi` is not empty:
-- with a window inside the rows, the operation starts and comes through any keys and intents without
-- a panic, and the cursor only ever jumps to a row of the window; with a window that reaches past the
-- last row, the start panics.
pub run_events-OnCursor :
    (rows : List (Option Commit)) (lo hi : ℕ) (es : List Event)
    → HasIds rows
    → lo ≤ hi
    → ((hi < length rows) × Jumps rows lo hi es)
      ⊎ ((length rows ≤ hi) × (init (new_operation (row_at rows) (some lo) (some hi)) ≡ none))
run_events-OnCursor rows lo hi es ids e = elim (Bool-cases (ltb hi (length rows))) [
  | inl f ↦
      let (j, at, ready) =
        Adds-rows lo hi (hi + 1 - lo) lo rows new_ace_jump ids (omega arith) (omega arith)
          (ground (arith, f, e)) (OnJump-new_ace_jump lo hi) in
      let o = with_keys (row_at rows) lo hi j in
      let (t, ran, ready', same) = run_events-Refines (machine lo hi) es o (ready, tt) in
      inl (ground (arith, f), (o, t, init-new_operation (row_at rows) lo hi j at, ran, ready'.1))
  | inr f ↦
      let past : length rows ≤ hi = ground (arith, f) in
      inr (
        past,
        init-past (row_at rows) lo hi
            (past-add_rows hi (hi + 1 - lo) lo rows new_ace_jump (omega arith) e past),
      )
]
