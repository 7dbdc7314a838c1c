-- ===== src/Operations/Lines.antt =====
-- Where the operations that move revisions draw (`Render` of internal/ui/operations/rebase, revert
-- and duplicate): a marker before each identifier, and a line at the target.
use jjui.Jj.Selections.{Commit, get_change_id}
use jjui.Operations.{
  is_gap, any_is, ModeTarget, RenderPosition, before_change_id, is_expected, Drawn, is_at,
}
use jjui.Prelude.Texts.{is_empty}
use jjui.Prelude.{
  any, inl, inr, arith, Bool-cases, String, ◌≡◌, refl, ◌≢◌, Bool, true, false, not, ◌&&◌, ◌||◌,
  Option, none, some, List, [], ◌∷◌, if◌then◌else◌,
}

abbrev pub is_marker : RenderPosition → Bool
is_marker before_change_id = true
is_marker _ = false

-- A style renders an empty text as an empty text.
abbrev pub marker_only : Option String → Drawn
marker_only none = none
marker_only (some marker) = some (if is_empty marker then [] else marker ∷ [])

-- The two early returns before the line.
abbrev pub on_line : Bool → Bool → Drawn → Drawn
on_line expected selected line =
    if not expected then some [] else if not selected then some [] else line

-- Whether a revision is marked: it is one of the highlighted, or one of the two sides of a gap.
abbrev pub marks : List String → ModeTarget → (start to : Option Commit) → Commit → Bool
marks ids target start to c =
    any_is ids (get_change_id c) || is_gap target && (is_at start c || is_at to c)

-- The places of a row where an operation draws: before the identifier of a revision that is marked,
-- and on the line of the target.
abbrev pub draws_at : RenderPosition → ModeTarget → Option Commit → Commit → (marked : Bool) → Bool
draws_at at target to commit marked =
    if is_marker at then marked else is_expected target at && is_at to commit

abbrev pub has_text : List String → Bool
has_text parts = any (λ part. not (is_empty part)) parts

-- Without a panic, and with some text where it says so, and else with none.
abbrev pub Shown : Drawn → Bool → Type 0
Shown d b = (parts : List String) × (d ≡ some parts) × (has_text parts ≡ b)

Shown-on_line : (b c : Bool) (line : Drawn) → Shown line true → Shown (on_line b c line) (b && c)
Shown-on_line false c line h = ([], refl, refl)
Shown-on_line true false line h = ([], refl, refl)
Shown-on_line true true line h = h

Shown-marker_only :
    (m : Option String) (marked : Bool)
    → m ≢ none
    → ((marker : String) → m ≡ some marker → not (is_empty marker) ≡ marked)
    → Shown (marker_only m) marked
Shown-marker_only none marked n t = absurd (n refl)
Shown-marker_only (some marker) marked n t = elim (Bool-cases (is_empty marker)) [
  | inl e ↦ ([], rw e refl, ground (arith, e, t marker refl))
  | inr e ↦ (marker ∷ [], rw e refl, ground (arith, e, t marker refl))
]

pub Shown-drawing :
    (at_marker b c marked : Bool) (m : Option String) (line : Drawn)
    → m ≢ none
    → ((marker : String) → m ≡ some marker → not (is_empty marker) ≡ marked)
    → Shown line true
    → Shown
        (if at_marker then marker_only m else on_line b c line)
        (if at_marker then marked else b && c)
Shown-drawing true b c marked m line n t h = Shown-marker_only m marked n t
Shown-drawing false b c marked m line n t h = Shown-on_line b c line h

pub Shown-of :
    (line : Drawn)
    → line ≢ none
    → ((parts : List String) → line ≡ some parts → has_text parts ≡ true)
    → Shown line true
Shown-of none n t = absurd (n refl)
Shown-of (some parts) n t = (parts, refl, t parts refl)
