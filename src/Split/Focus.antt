-- ===== src/Split/Focus.antt =====
-- The focus and the visible content of the pane (internal/ui/split/container.go).
use jjui.Split.{
  Content, SplitContainer, changed, active_content, on_content, on_active, is_none, set_focused,
  on_show, on_hide, told, report_primary, set_content_focused, hide_active, show_active,
}
use mathlib.Core.Path.{subst}
use mathlib.Core.Bool.{false≢true}
use jjui.Prelude.{
  String, ◌≡◌, refl, ◌∙◌, inl, inr, Bool, true, false, not, ◌&&◌, ◌||◌, Option, none, some, arith,
  str_eq, eq_iff, Bool-cases,
}
use jjui.Prelude.Texts.{is_empty}

-- What a registered content is marked with: it is shown where it is active, and has the focus where
-- the pane has it, too.
abbrev pub Marked : (is_active focused : Bool) → Option Content → Type 0
Marked is_active focused none = Unit
Marked is_active focused (some c) = (c.shown ≡ is_active) × (c.focused ≡ (is_active && focused))

abbrev pub Reported : Bool → Option Bool → Type 0
Reported focused none = Unit
Reported focused (some b) = b ≡ not focused

-- The active content is registered, or there is none; a pane without content has no focus; and the
-- marks and the primary view agree with the container.
pub record IsInSync (sc : SplitContainer) : Type 0 where
  pub unnamed : is_none (sc.contents "") ≡ true
  pub registered :
      (is_empty sc.active_content_id || not (is_none (sc.contents sc.active_content_id))) ≡ true
  pub focus : (sc.content_focused && is_empty sc.active_content_id) ≡ false
  pub marks :
      (id : String) → Marked (str_eq sc.active_content_id id) sc.content_focused (sc.contents id)
  pub primary : Reported sc.content_focused sc.primary_focused

-- A content that is neither shown nor has the focus.
abbrev pub Off : Option Content → Type 0
Off none = Unit
Off (some c) = (c.shown ≡ false) × (c.focused ≡ false)

Marked-refocus :
    (is_active before after : Bool) (o : Option Content)
    → Marked is_active before o
    → Marked is_active after (changed is_active (set_focused after) o)
Marked-refocus true before after none h = tt
Marked-refocus false before after none h = tt
Marked-refocus true before after (some c) h = (h.0, refl)
Marked-refocus false before after (some c) h = (h.0, h.1)

pub Off-hidden :
    (is_active focused : Bool) (o : Option Content)
    → Marked is_active focused o
    → Off (changed is_active on_hide (changed is_active (set_focused false) o))
Off-hidden true focused none h = tt
Off-hidden false focused none h = tt
Off-hidden true focused (some c) h = (refl, refl)
Off-hidden false focused (some c) h = h

Marked-shown :
    (is_active : Bool) (o : Option Content)
    → Off o
    → Marked is_active false (changed is_active on_show (changed is_active (set_focused false) o))
Marked-shown true none h = tt
Marked-shown false none h = tt
Marked-shown true (some c) h = (refl, refl)
Marked-shown false (some c) h = h

pub is_none-changed :
    (b : Bool) (change : Content → Content) (o : Option Content)
    → is_none (changed b change o) ≡ is_none o
is_none-changed true change none = refl
is_none-changed false change none = refl
is_none-changed true change (some c) = refl
is_none-changed false change (some c) = refl

pub is_none-twice :
    (b : Bool) (f g : Content → Content) (o : Option Content)
    → is_none (changed b f (changed b g o)) ≡ is_none o
is_none-twice b f g o = is_none-changed b f (changed b g o) ∙ is_none-changed b g o

pub Reported-told : (focused : Bool) (o : Option Bool) → Reported focused (told (not focused) o)
Reported-told focused none = tt
Reported-told focused (some b) = refl

pub set_content_focused-IsInSync :
    (focused : Bool) (sc : SplitContainer) → IsInSync sc → IsInSync (set_content_focused focused sc)
unfolding set_content_focused active_content on_active on_content report_primary
set_content_focused-IsInSync focused sc h = elim (Bool-cases (is_empty sc.active_content_id)) [
  | inl e ↦ rw e (elim (Bool-cases focused) [
    | inl f ↦ rw f h
    | inr f ↦
        let unfocused : sc.content_focused ≡ false = ground (arith, h.focus, e) in
        rw f (record {
          unnamed = h.unnamed;
          registered = h.registered;
          focus = refl;
          marks = λ id.
              subst (λ b. Marked (str_eq sc.active_content_id id) b (sc.contents id)) unfocused
                (h.marks id);
          primary = Reported-told false sc.primary_focused;
        })
  ])
  | inr e ↦ rw e (elim (Bool-cases (focused && is_none (sc.contents sc.active_content_id))) [
    | inl f ↦ rw f h
    | inr f ↦ rw f (record {
      unnamed =
          is_none-changed (str_eq sc.active_content_id "") (set_focused focused) (sc.contents "")
          ∙ h.unnamed;
      registered = ground (
        arith,
        h.registered,
        is_none-changed (str_eq sc.active_content_id sc.active_content_id) (set_focused focused)
            (sc.contents sc.active_content_id),
      );
      focus = ground (arith, e);
      marks = λ id.
          Marked-refocus (str_eq sc.active_content_id id) sc.content_focused focused
            (sc.contents id) (h.marks id);
      primary = Reported-told focused sc.primary_focused;
    })
  ])
]

Off-nothing : (o : Option Content) → is_none o ≡ true → Off o
Off-nothing none e = tt
Off-nothing (some c) e = absurd (false≢true e)

Marked-nothing : (o : Option Content) → is_none o ≡ true → Marked true false o
Marked-nothing none e = tt
Marked-nothing (some c) e = absurd (false≢true e)

Off-Marked : (focused : Bool) (o : Option Content) → Marked false focused o → Off o
Off-Marked focused none h = tt
Off-Marked focused (some c) h = h

Marked-Off : (o : Option Content) → Off o → Marked false false o
Marked-Off none h = tt
Marked-Off (some c) h = h

-- A content that no identifier makes active has no marks.
Off-unnamed :
    (id : String) (focused : Bool) (contents : String → Option Content)
    → is_none (contents "") ≡ true
    → Marked (str_eq "" id) focused (contents id)
    → Off (contents id)
Off-unnamed id focused contents u h = elim (Bool-cases (str_eq "" id)) [
  | inl e ↦ subst (λ i. Off (contents i)) ((eq_iff "" id).0 e) (Off-nothing (contents "") u)
  | inr e ↦ Off-Marked focused (contents id) (subst (λ b. Marked b focused (contents id)) e h)
]

pub Marked-unnamed :
    (id : String) (contents : String → Option Content)
    → is_none (contents "") ≡ true
    → Off (contents id)
    → Marked (str_eq "" id) false (contents id)
Marked-unnamed id contents u h = elim (Bool-cases (str_eq "" id)) [
  | inl e ↦ rw e (
      subst (λ i. Marked true false (contents i)) ((eq_iff "" id).0 e)
        (Marked-nothing (contents "") u))
  | inr e ↦ rw e (Marked-Off (contents id) h)
]

pub Off-hide_active :
    (sc : SplitContainer) → IsInSync sc → (id : String) → Off ((hide_active sc).contents id)
unfolding hide_active on_active on_content
Off-hide_active sc h id = elim (Bool-cases (is_empty sc.active_content_id)) [
  | inl e ↦
      rw (e, e)
        (Off-unnamed id sc.content_focused sc.contents h.unnamed (
          subst (λ a. Marked (str_eq a id) sc.content_focused (sc.contents id))
            ((eq_iff sc.active_content_id "").0 e) (h.marks id)))
  | inr e ↦
      rw (e, e)
        (Off-hidden (str_eq sc.active_content_id id) sc.content_focused (sc.contents id)
          (h.marks id))
]

pub is_none-hide_active :
    (sc : SplitContainer) (id : String)
    → is_none ((hide_active sc).contents id) ≡ is_none (sc.contents id)
unfolding hide_active on_active on_content
is_none-hide_active sc id = elim (Bool-cases (is_empty sc.active_content_id)) [
  | inl e ↦ rw (e, e) refl
  | inr e ↦
      rw (e, e)
        (is_none-twice (str_eq sc.active_content_id id) on_hide (set_focused false)
          (sc.contents id))
]

pub show_active-IsInSync :
    (sc : SplitContainer)
    → is_none (sc.contents "") ≡ true
    → is_empty sc.active_content_id ≡ false
    → is_none (sc.contents sc.active_content_id) ≡ false
    → ((id : String) → Off (sc.contents id))
    → IsInSync (show_active sc)
unfolding show_active set_content_focused active_content on_active on_content report_primary
show_active-IsInSync sc u e r off =
    rw (e, e)
      (record {
        unnamed =
            is_none-twice (str_eq sc.active_content_id "") on_show (set_focused false)
              (sc.contents "")
            ∙ u;
        registered = ground (
          arith,
          r,
          is_none-twice (str_eq sc.active_content_id sc.active_content_id) on_show
              (set_focused false) (sc.contents sc.active_content_id),
        );
        focus = refl;
        marks = λ id. Marked-shown (str_eq sc.active_content_id id) (sc.contents id) (off id);
        primary = Reported-told false sc.primary_focused;
      })
