-- ===== src/Parser/Flags.antt =====
-- The flags of the lines of a row (internal/parser/row.go: AddLine).
use jjui.Jj.Selections.{Commit}
use jjui.Parser.{
  GraphRowLine, RowLineFlags, Row, chop, contains_rune, last_line, flags_after, add_after, add_line,
  add_lines,
}
use jjui.Prelude.{
  ℕ, ◌≡◌, refl, ap, ◌∙◌, inl, inr, Bool, true, false, some, List, [], ◌∷◌, ◌++◌, Bool-cases,
  Option-cases,
}

abbrev flags_of : Bool → Bool → Bool → RowLineFlags
flags_of revision highlightable elided = record {
  revision = revision;
  highlightable = highlightable;
  elided = elided;
}

-- Lines after the first: they are highlightable up to the first that is elided.
pub data Follow : (highlight : Bool) → List GraphRowLine → Type 0 where
  end : (highlight : Bool) → Follow highlight []
  plain_line :
      {lines : List GraphRowLine} (highlight : Bool) (l : GraphRowLine)
      → contains_rune b'~' l ≡ false
      → l.flags ≡ flags_of false highlight false
      → Follow highlight lines
      → Follow highlight (l ∷ lines)
  elided_line :
      {lines : List GraphRowLine} (highlight : Bool) (l : GraphRowLine)
      → contains_rune b'~' l ≡ true
      → l.flags ≡ flags_of false false true
      → Follow false lines
      → Follow highlight (l ∷ lines)

-- The lines of a row: the first is the revision's.
pub data Flagged : List GraphRowLine → Type 0 where
  unfilled : Flagged []
  filled :
      (l : GraphRowLine) (lines : List GraphRowLine)
      → l.flags ≡ flags_of true true false
      → Follow true lines
      → Flagged (l ∷ lines)

-- A line whose flags follow those of the line before.
abbrev flagged_by : RowLineFlags → GraphRowLine → GraphRowLine
flagged_by before l = record l { flags = flags_after before l }

contains_rune-flagged :
    (r : ℕ) (flags : RowLineFlags) (l : GraphRowLine)
    → contains_rune r (record l { flags = flags }) ≡ contains_rune r l
unfolding contains_rune
contains_rune-flagged r flags l = refl

Follow-one :
    (highlight : Bool) (before : RowLineFlags) (l : GraphRowLine)
    → before.highlightable ≡ highlight
    → Follow highlight (flagged_by before l ∷ [])
unfolding flags_after
Follow-one highlight before l e = elim (Bool-cases (contains_rune b'~' l)) [
  | inl f ↦
      elided_line highlight (flagged_by before l)
        (contains_rune-flagged b'~' (flags_after before l) l ∙ f) (rw f refl) (end false)
  | inr f ↦
      plain_line highlight (flagged_by before l)
        (contains_rune-flagged b'~' (flags_after before l) l ∙ f)
        (rw f (ap (λ b. flags_of false b false) e)) (end highlight)
]

abbrev last_of : GraphRowLine → List GraphRowLine → GraphRowLine
last_of first [] = first
last_of first (l ∷ lines) = last_of l lines

last_line-last_of :
    (first : GraphRowLine) (lines : List GraphRowLine)
    → last_line (first ∷ lines) ≡ some (last_of first lines)
last_line-last_of first [] = refl
last_line-last_of first (l ∷ lines) = last_line-last_of l lines

Follow-append :
    (first : GraphRowLine) {lines : List GraphRowLine} (highlight : Bool) (x : GraphRowLine)
    → first.flags.highlightable ≡ highlight
    → Follow highlight lines
    → Follow highlight (lines ++ flagged_by (last_of first lines).flags x ∷ [])
Follow-append first highlight x e (end h) = Follow-one h first.flags x e
Follow-append first highlight x e (plain_line h l f g rest) =
    plain_line h l f g (Follow-append l h x (ap (λ b. b.highlightable) g) rest)
Follow-append first highlight x e (elided_line h l f g rest) =
    elided_line h l f g (Follow-append l false x (ap (λ b. b.highlightable) g) rest)

add_after-Flagged :
    (commit : Commit) (line : GraphRowLine) (row : Row) (lines : List GraphRowLine)
    → row.lines ≡ lines
    → Flagged lines
    → Flagged (add_after (last_line lines) commit line row).lines
unfolding add_after
add_after-Flagged commit line row lines e unfilled =
    rw e (filled (record line { flags = flags_of true true false }) [] refl (end true))
add_after-Flagged commit line row lines e (filled l rest f follow) = rw (last_line-last_of l rest) (
    rw (add_after, e)
      (filled l (rest ++ flagged_by (last_of l rest).flags line ∷ []) f
        (Follow-append l true line (ap (λ b. b.highlightable) f) follow)))

add_line-Flagged :
    (row : Row) (line : GraphRowLine) → Flagged row.lines → Flagged (add_line row line).lines
unfolding add_line
add_line-Flagged row line h = elim (Option-cases row.commit) [
  | inl e ↦ rw e h
  | inr (commit, e) ↦ rw e (
      add_after-Flagged commit (chop row.indent line) (record row { commit = some commit })
        row.lines refl h)
]

-- From a row without lines or with well-flagged ones, whatever lines are added: the first line
-- alone is the revision's, a later line is elided exactly where its gutter has a tilde, and the
-- lines are highlightable exactly up to the first elided one.
pub add_lines-Flagged :
    (row : Row) (lines : List GraphRowLine)
    → Flagged row.lines
    → Flagged (add_lines row lines).lines
unfolding add_lines
add_lines-Flagged row [] h = h
add_lines-Flagged row (l ∷ lines) h =
    add_lines-Flagged (add_line row l) lines (add_line-Flagged row l h)
