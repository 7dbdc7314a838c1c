-- ===== src/Layers/Invariant.antt =====
-- At most one screen of each kind is open (internal/ui/layers.go).
use mathlib.Core.Path.{subst}
use jjui.Prelude.{
  ℕ, ◌+◌, ◌≤◌, ◌≡◌, refl, sym, inl, inr, Bool, true, false, not, List, [], ◌∷◌, ◌++◌, arith,
  if◌then◌else◌, Bool-cases, Option-cases, keep, All, All-append,
}
use jjui.Layers.{
  Kind, oplog, diff, annotation, View, Layer, Root, drop_last, dialog, close_dialog,
  same_screen_kind, open_screen,
}

abbrev pub is_screen_kind : Kind → Bool
is_screen_kind k = same_screen_kind k k

-- How many layers show a screen of the kind `k`.
abbrev pub screens_of : Kind → List Layer → ℕ
screens_of k [] = 0
screens_of k (l ∷ ls) = (if same_screen_kind l.model.kind k then 1 else 0) + screens_of k ls

-- The layers that are screens are marked as such, and no two of them are of one kind.
pub record WellLayered (m : Root) : Type 0 where
  pub marked : All (λ (l : Layer). l.screen ≡ is_screen_kind l.model.kind) m.layers
  pub single : (k : Kind) → screens_of k m.layers ≤ 1

pub screens_of-append :
    (k : Kind) (ls : List Layer) (l : Layer)
    → screens_of k (ls ++ l ∷ []) ≡ screens_of k ls + screens_of k (l ∷ [])
screens_of-append k [] l = omega arith
screens_of-append k (x ∷ ls) l = omega (arith, screens_of-append k ls l)

same_kind : (a b : Kind) → same_screen_kind a b ≡ true → a ≡ b
same_kind oplog oplog e = refl
same_kind diff diff e = refl
same_kind annotation annotation e = refl
same_kind _ _ e = cc

other_kind :
    (a v k : Kind)
    → same_screen_kind a v ≡ false
    → same_screen_kind v k ≡ true
    → same_screen_kind a k ≡ false
other_kind a v k e h = subst (λ c. same_screen_kind a c ≡ false) (same_kind v k h) e

screens_of-keep :
    (k v : Kind) (ls : List Layer)
    → screens_of k (keep (λ l. not (same_screen_kind l.model.kind v)) ls)
      ≤ (if same_screen_kind v k then 0 else screens_of k ls)
screens_of-keep k v [] = ground arith
screens_of-keep k v (l ∷ ls) = elim (Bool-cases (same_screen_kind l.model.kind v)) [
  | inl e ↦ rw e (ground (arith, screens_of-keep k v ls))
  | inr e ↦
      let apart = other_kind l.model.kind v k e in
      rw e (ground (arith, screens_of-keep k v ls, apart))
]

screens_of-drop_last : (k : Kind) (ls : List Layer) → screens_of k (drop_last ls) ≤ screens_of k ls
screens_of-drop_last k [] = omega arith
screens_of-drop_last k (l ∷ []) = omega arith
screens_of-drop_last k (l ∷ l' ∷ ls) = omega (arith, screens_of-drop_last k (l' ∷ ls))

All-drop_last : (P : Layer → Type 0) (ls : List Layer) → All P ls → All P (drop_last ls)
All-drop_last P [] h = tt
All-drop_last P (l ∷ []) h = tt
All-drop_last P (l ∷ l' ∷ ls) h = (h.0, All-drop_last P (l' ∷ ls) h.1)

All-kept : (P : Layer → Type 0) (p : Layer → Bool) (ls : List Layer) → All P ls → All P (keep p ls)
All-kept P p [] h = tt
All-kept P p (l ∷ ls) h = elim (Bool-cases (p l)) [
  | inl e ↦ rw e (h.0, All-kept P p ls h.1)
  | inr e ↦ rw e (All-kept P p ls h.1)
]

abbrev pub IsMarked : Layer → Type 0
IsMarked l = l.screen ≡ is_screen_kind l.model.kind

pub open_screen-WellLayered :
    (m : Root) (v : View)
    → is_screen_kind v.kind ≡ true
    → WellLayered m
    → WellLayered (open_screen m v)
unfolding open_screen
open_screen-WellLayered m v s w =
    let kept = keep (λ (l : Layer). not (same_screen_kind l.model.kind v.kind)) m.layers in
    record {
      marked =
          All-append IsMarked kept (record { model = v; screen = true } ∷ [])
            (All-kept IsMarked _ m.layers w.marked) (sym s, tt);
      single = λ k. ground (
        arith,
        screens_of-append k kept (record { model = v; screen = true }),
        screens_of-keep k v.kind m.layers,
        w.single k,
      );
    }

pub drop_last-WellLayered :
    (m : Root) → WellLayered m → WellLayered (record m { layers = drop_last m.layers })
drop_last-WellLayered m w = record {
  marked = All-drop_last IsMarked m.layers w.marked;
  single = λ k. omega (arith, screens_of-drop_last k m.layers, w.single k);
}

pub close_dialog-WellLayered : (m : Root) → WellLayered m → WellLayered (close_dialog m)
unfolding close_dialog
close_dialog-WellLayered m w = elim (Option-cases (dialog m)) [
  | inl e ↦ rw (e, close_dialog) w
  | inr (v, e) ↦ rw (e, close_dialog) (drop_last-WellLayered m w)
]

not_same : (a k : Kind) → is_screen_kind a ≡ false → same_screen_kind a k ≡ false
not_same a k e = ground arith

pub add_dialog-WellLayered :
    (m : Root) (v : View)
    → is_screen_kind v.kind ≡ false
    → WellLayered m
    → WellLayered (record m { layers = m.layers ++ record { model = v; screen = false } ∷ [] })
add_dialog-WellLayered m v s w = record {
  marked =
      All-append IsMarked m.layers (record { model = v; screen = false } ∷ []) w.marked (sym s, tt);
  single = λ k. ground (
    arith,
    screens_of-append k m.layers (record { model = v; screen = false }),
    not_same v.kind k s,
    w.single k,
  );
}
