-- ===== src/Layers/Steps.antt =====
-- The layers over any opening and closing (internal/ui/layers.go).
use mathlib.Core.Path.{subst}
use jjui.Prelude.{
  ◌≡◌, sym, ap, ◌∙◌, inl, inr, true, false, not, ◌&&◌, Option, none, some, List, [], ◌∷◌, ◌++◌,
  arith, Bool-cases, Option-cases, All, All-append,
}
use jjui.Layers.{
  View, Layer, Root, CloseViewMsg, Views, last?, drop_last, top_layer, close_dialog,
  same_screen_kind, open_screen, is_annotation, replace_last, open_dialog, close_layer,
  close_asking, close_top_layer,
}
use jjui.Layers.Invariant.{
  is_screen_kind, screens_of, WellLayered, IsMarked, screens_of-append, open_screen-WellLayered,
  drop_last-WellLayered, close_dialog-WellLayered, add_dialog-WellLayered,
}

pub last?-drop_last :
    (ls : List Layer) (top : Layer) → last? ls ≡ some top → ls ≡ drop_last ls ++ top ∷ []
last?-drop_last [] top e = cc
last?-drop_last (l ∷ []) top e = ground arith
last?-drop_last (l ∷ l' ∷ ls) top e = ap (◌∷◌ l) (last?-drop_last (l' ∷ ls) top e)

All-of_append :
    (P : Layer → Type 0) (ls : List Layer) (l : Layer) → All P (ls ++ l ∷ []) → All P ls × P l
All-of_append P [] l h = (tt, h.0)
All-of_append P (x ∷ ls) l h = let (rest, last) = All-of_append P ls l h.1 in ((h.0, rest), last)

replace_last-WellLayered :
    (m : Root) (top : Layer) (v : View)
    → last? m.layers ≡ some top
    → v.kind ≡ top.model.kind
    → WellLayered m
    → WellLayered (record m { layers = replace_last (record top { model = v }) m.layers })
replace_last-WellLayered m top v e k w =
    let split = last?-drop_last m.layers top e in
    let marks =
      All-of_append IsMarked (drop_last m.layers) top (subst (All IsMarked) split w.marked) in
    record {
      marked =
          All-append IsMarked (drop_last m.layers) (record top { model = v } ∷ []) marks.0
            (marks.1 ∙ ap is_screen_kind (sym k), tt);
      single = λ j. ground (
        arith,
        screens_of-append j (drop_last m.layers) (record top { model = v }),
        screens_of-append j (drop_last m.layers) top,
        ap (screens_of j) split,
        ap (λ a. same_screen_kind a j) k,
        w.single j,
      );
    }

module _ {Cmd : Type 0} (views : Views Cmd) where
  close_layer-WellLayered :
      (m : Root) (top : Layer) (msg : CloseViewMsg)
      → WellLayered m
      → WellLayered (close_layer views m top msg).0
  unfolding close_layer
  close_layer-WellLayered m top msg w = drop_last-WellLayered m w

  close_asking-WellLayered :
      (m : Root) (top : Layer) (msg : CloseViewMsg)
      → last? m.layers ≡ some top
      → WellLayered m
      → WellLayered (close_asking views m top msg).0
  unfolding close_asking
  close_asking-WellLayered m top msg e w =
      let (v, cmd, can_close) = views.request_close top.model in
      let asked = replace_last-WellLayered m top v e (views.request_close-kind top.model) w in
      elim (Bool-cases (is_annotation top.model.kind && not msg.applied)) [
        | inl ask ↦ rw ask (elim (Bool-cases can_close) [
          | inl can ↦ rw can (close_layer-WellLayered _ _ msg asked)
          | inr cannot ↦ rw cannot asked
        ])
        | inr plain ↦ rw plain (close_layer-WellLayered m top msg w)
      ]

  close_top_layer-WellLayered :
      (m : Root) (msg : CloseViewMsg) (r : Root × Option Cmd)
      → close_top_layer views m msg ≡ some r
      → WellLayered m
      → WellLayered r.0
  unfolding close_top_layer top_layer
  close_top_layer-WellLayered m msg r e w = elim (Option-cases (last? m.layers)) [
    | inl empty ↦ absurd (none_open empty)
    | inr (top, open_top) ↦
        subst (λ q. WellLayered q.0) (closes top open_top)
          (close_asking-WellLayered m top msg open_top w)
  ]
    where
      none_open : last? m.layers ≡ none → ⊥
      none_open empty = ground arith

      closes : (top : Layer) → last? m.layers ≡ some top → close_asking views m top msg ≡ r
      closes top open_top = ground arith

  pub open_dialog-WellLayered :
      (m : Root) (v : View)
      → is_screen_kind v.kind ≡ false
      → WellLayered m
      → WellLayered (open_dialog views m v).0
  unfolding open_dialog
  open_dialog-WellLayered m v s w =
      add_dialog-WellLayered (close_dialog m) v s (close_dialog-WellLayered m w)

-- What can happen to the layers: a screen or a dialog is opened, a dialog or the top layer closed.
pub data Step {Cmd : Type 0} (views : Views Cmd) : Root → Root → Type 0 where
  opens_screen :
      (m : Root) (v : View) → is_screen_kind v.kind ≡ true → Step views m (open_screen m v)
  opens_dialog :
      (m : Root) (v : View) → is_screen_kind v.kind ≡ false → Step views m (open_dialog views m v).0
  closes_dialog : (m : Root) → Step views m (close_dialog m)
  closes_top :
      (m : Root) (msg : CloseViewMsg) (r : Root × Option Cmd)
      → close_top_layer views m msg ≡ some r
      → Step views m r.0

pub data Reach {Cmd : Type 0} (views : Views Cmd) (start : Root) : Root → Type 0 where
  here : Reach views start start
  after : {m n : Root} → Reach views start m → Step views m n → Reach views start n

Step-WellLayered :
    {Cmd : Type 0} {views : Views Cmd} {m n : Root} → Step views m n → WellLayered m → WellLayered n
Step-WellLayered (opens_screen m v s) w = open_screen-WellLayered m v s w
Step-WellLayered {views} (opens_dialog m v s) w = open_dialog-WellLayered views m v s w
Step-WellLayered (closes_dialog m) w = close_dialog-WellLayered m w
Step-WellLayered {views} (closes_top m msg r e) w = close_top_layer-WellLayered views m msg r e w

-- However layers are opened and closed from a state with none, the screens are marked as such and
-- at most one of each kind is open.
pub Reach-WellLayered :
    {Cmd : Type 0} {views : Views Cmd} {start m : Root}
    → start.layers ≡ []
    → Reach views start m
    → WellLayered m
Reach-WellLayered e here = record {
  marked = subst (All IsMarked) (sym e) tt;
  single = λ k. ground (arith, ap (screens_of k) e);
}
Reach-WellLayered e (after r s) = Step-WellLayered s (Reach-WellLayered e r)
