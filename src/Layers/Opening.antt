-- ===== src/Layers/Opening.antt =====
-- What is visible after opening and closing (internal/ui/layers.go).
use mathlib.Core.Option
use jjui.Prelude.{
  ℕ, suc, ◌≡◌, refl, sym, ap, ◌∙◌, ◌⊎◌, inl, inr, Bool, true, false, not, Option, none, some, List,
  [], ◌∷◌, ◌++◌, arith, if◌then◌else◌, Bool-cases, Option-cases, get_elem?, keep,
}
use jjui.Layers.Steps.{last?-drop_last}
use jjui.Layers.{
  View, Layer, Root, Views, last?, drop_last, dialog, top_layer, last_index, screen_index, screen,
  find_layer, is_oplog, primary, close_dialog, same_screen_kind, open_screen, open_dialog,
}

-- The topmost layer that passes a test.
abbrev pub topmost : (Layer → Bool) → List Layer → Option Layer
topmost p [] = none
topmost p (l ∷ ls) = elim (topmost p ls) [ some t ↦ some t | none ↦ if p l then some l else none ]

-- The layer at an index that a search gave.
abbrev at_index : List Layer → Option ℕ → Option Layer
at_index ls none = none
at_index ls (some i) = get_elem? ls i

abbrev Agree : (Layer → Bool) → List Layer → Type 0
Agree p ls =
    ((last_index p ls ≡ none) × (topmost p ls ≡ none))
    ⊎ ((i : ℕ) × (t : Layer) × (last_index p ls ≡ some i)
        × (topmost p ls ≡ some t)
        × (get_elem? ls i ≡ some t))

last_index-Agree : (p : Layer → Bool) (ls : List Layer) → Agree p ls
unfolding last_index
last_index-Agree p [] = inl (refl, refl)
last_index-Agree p (l ∷ ls) = elim (last_index-Agree p ls) [
  | inr (i, t, a, b, g) ↦ inr (suc i, t, ground arith, ground arith, g)
  | inl (a, b) ↦ elim (Bool-cases (p l)) [
    | inl e ↦ inr (0, l, ground arith, ground arith, refl)
    | inr e ↦ inl (ground arith, ground arith)
  ]
]

topmost-append :
    (p : Layer → Bool) (ls : List Layer) (l : Layer)
    → topmost p (ls ++ l ∷ []) ≡ (if p l then some l else topmost p ls)
topmost-append p [] l = ground arith
topmost-append p (x ∷ ls) l = ground (arith, topmost-append p ls l)

-- The visible screen is the model of the topmost layer that is a screen.
screen-topmost :
    (m : Root) → screen m ≡ Option.map (λ l. l.model) (topmost (λ l. l.screen) m.layers)
unfolding screen screen_index
screen-topmost m = elim (last_index-Agree (λ l. l.screen) m.layers) [
  | inl (a, b) ↦ ground arith
  | inr (i, t, a, b, g) ↦ ground arith
]

-- The oplog, where one is open, is the topmost layer that shows it; else the revisions view.
primary-topmost :
    (m : Root)
    → primary m ≡ (elim (topmost (λ l. is_oplog l.model.kind) m.layers) [
      | none ↦ m.revisions
      | some l ↦ l.model
    ])
unfolding primary find_layer
primary-topmost m = elim (last_index-Agree (λ l. is_oplog l.model.kind) m.layers) [
  | inl (a, b) ↦ ground arith
  | inr (i, t, a, b, g) ↦ ground arith
]

last?-append : (ls : List Layer) (l : Layer) → last? (ls ++ l ∷ []) ≡ some l
last?-append [] l = refl
last?-append (x ∷ []) l = refl
last?-append (x ∷ y ∷ ls) l = last?-append (y ∷ ls) l

drop_last-append : (ls : List Layer) (l : Layer) → drop_last (ls ++ l ∷ []) ≡ ls
drop_last-append [] l = refl
drop_last-append (x ∷ []) l = refl
drop_last-append (x ∷ y ∷ ls) l = ap (◌∷◌ x) (drop_last-append (y ∷ ls) l)

-- A screen that is opened is the visible one, and receives the keys: no dialog is above it. The
-- other screens and the dialogs keep their order below it.
pub screen-open_screen :
    (m : Root) (v : View)
    → (screen (open_screen m v) ≡ some v)
      × (dialog (open_screen m v) ≡ none)
      × (drop_last (open_screen m v).layers
          ≡ keep (λ l. not (same_screen_kind l.model.kind v.kind)) m.layers)
unfolding open_screen dialog top_layer
screen-open_screen m v =
    let kept = keep (λ (l : Layer). not (same_screen_kind l.model.kind v.kind)) m.layers in
    let l : Layer = record { model = v; screen = true } in
    let shown = topmost-append (λ (x : Layer). x.screen) kept l in
    (
      screen-topmost (open_screen m v) ∙ ap (Option.map (λ (x : Layer). x.model)) shown,
      ground (arith, last?-append kept l),
      drop_last-append kept l,
    )

dialog-append :
    (m : Root) (l : Layer)
    → l.screen ≡ false
    → dialog (record m { layers = m.layers ++ l ∷ [] }) ≡ some l.model
unfolding dialog top_layer
dialog-append m l e = ground (arith, last?-append m.layers l)

close_dialog-append :
    (m : Root) (l : Layer)
    → l.screen ≡ false
    → (close_dialog (record m { layers = m.layers ++ l ∷ [] })).layers ≡ m.layers
unfolding close_dialog
close_dialog-append m l e = rw (dialog-append m l e, close_dialog) (drop_last-append m.layers l)

-- Closing the dialog on top leaves the topmost screen.
topmost-close_dialog :
    (m : Root) → topmost (λ l. l.screen) (close_dialog m).layers ≡ topmost (λ l. l.screen) m.layers
unfolding close_dialog dialog top_layer
topmost-close_dialog m = elim (Option-cases (last? m.layers)) [
  | inl e ↦ ground arith
  | inr (top, e) ↦ ground (
    arith,
    ap (topmost (λ (l : Layer). l.screen)) (last?-drop_last m.layers top e),
    topmost-append (λ (l : Layer). l.screen) (drop_last m.layers) top,
  )
]

module _ {Cmd : Type 0} (views : Views Cmd) where
  -- A dialog that is opened is the one on top; the screen below stays visible, and closing the
  -- dialog leaves the layers as they were without the dialog that it replaced.
  pub dialog-open_dialog :
      (m : Root) (v : View)
      → let m' = (open_dialog views m v).0 in
        (dialog m' ≡ some v)
        × (screen m' ≡ screen m)
        × ((close_dialog m').layers ≡ (close_dialog m).layers)
  unfolding open_dialog
  dialog-open_dialog m v =
      let l : Layer = record { model = v; screen = false } in
      let ls : List Layer = (close_dialog m).layers in
      (
        dialog-append (close_dialog m) l refl,
        screen-topmost _
            ∙ ap (Option.map (λ (x : Layer). x.model))
                (topmost-append (λ (x : Layer). x.screen) ls l ∙ topmost-close_dialog m)
            ∙ sym (screen-topmost m),
        close_dialog-append (close_dialog m) l refl,
      )
