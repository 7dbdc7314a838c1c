-- ===== src/Split/Steps.antt =====
-- What each call keeps of the pane (internal/ui/split/container.go).
use jjui.Split.{
  Content, SplitContainer, active_content, on_content, on_active, is_none, set_focused, on_hide,
  set_content_focused, register_content, show_registered, show_content, hide_active, show_active,
  close, toggle_content, focus_split_content, focus_primary, toggle_focus, report_primary,
}
use jjui.Split.Focus.{
  Off, Marked, Off-hidden, IsInSync, Marked-unnamed, Off-hide_active, is_none-hide_active,
  is_none-twice, Reported-told, set_content_focused-IsInSync, show_active-IsInSync,
}
use mathlib.Core.Path.{subst}
use mathlib.Core.Bool.{false≢true}
use jjui.Prelude.{
  String, ◌≡◌, refl, sym, ◌∙◌, ◌⊎◌, inl, inr, true, false, not, ◌||◌, some, arith, str_eq, eq_iff,
  Bool-cases,
}
use jjui.Prelude.Texts.{is_empty}

is_empty-registered :
    (id : String) (sc : SplitContainer)
    → IsInSync sc
    → is_none (sc.contents id) ≡ false
    → is_empty id ≡ false
is_empty-registered id sc h r = elim (Bool-cases (is_empty id)) [
  | inl e ↦ absurd (
      false≢true
        (sym r ∙ subst (λ i. is_none (sc.contents i) ≡ true) (sym ((eq_iff id "").0 e)) h.unnamed))
  | inr e ↦ e
]

show_registered-IsInSync :
    (id : String) (sc : SplitContainer)
    → IsInSync sc
    → is_none (sc.contents id) ≡ false
    → IsInSync (show_registered id sc)
unfolding show_registered
show_registered-IsInSync id sc h r =
    show_active-IsInSync (record (hide_active sc) { active_content_id = id })
      (is_none-hide_active sc "" ∙ h.unnamed) (is_empty-registered id sc h r)
      (is_none-hide_active sc id ∙ r) (Off-hide_active sc h)

show_content-IsInSync :
    (id : String) (sc : SplitContainer) → IsInSync sc → IsInSync (show_content id sc).0
unfolding show_content
show_content-IsInSync id sc h = elim (Bool-cases (str_eq sc.active_content_id id)) [
  | inl e ↦ rw e h
  | inr e ↦ rw e (elim (Bool-cases (is_none (sc.contents id))) [
    | inl f ↦ rw f h
    | inr f ↦ rw f (show_registered-IsInSync id sc h f)
  ])
]

closed-IsInSync :
    (sc : SplitContainer)
    → IsInSync sc
    → is_empty sc.active_content_id ≡ false
    → IsInSync
        (record (on_active on_hide (set_content_focused false sc)) { active_content_id = "" })
unfolding on_active on_content set_content_focused report_primary
closed-IsInSync sc h e =
    rw (e, e)
      (record {
        unnamed =
            is_none-twice (str_eq sc.active_content_id "") on_hide (set_focused false)
              (sc.contents "")
            ∙ h.unnamed;
        registered = refl;
        focus = refl;
        marks = λ id.
            Marked-unnamed id
              (on_content sc.active_content_id on_hide
                (on_content sc.active_content_id (set_focused false) sc.contents))
              (is_none-twice (str_eq sc.active_content_id "") on_hide (set_focused false)
                  (sc.contents "")
                ∙ h.unnamed)
              (Off-hidden (str_eq sc.active_content_id id) sc.content_focused (sc.contents id)
                (h.marks id));
        primary = Reported-told false sc.primary_focused;
      })

close-IsInSync : (sc : SplitContainer) → IsInSync sc → IsInSync (close sc).0
unfolding close active_content
close-IsInSync sc h = elim (Bool-cases (is_empty sc.active_content_id)) [
  | inl e ↦ rw e h
  | inr e ↦ rw e (elim (Bool-cases (is_none (sc.contents sc.active_content_id))) [
    | inl f ↦ rw f h
    | inr f ↦ rw f (closed-IsInSync sc h e)
  ])
]

-- The calls; a content is registered once, with a name, before it is shown.
pub data Call (sc : SplitContainer) : SplitContainer → Type 0 where
  registers :
      (id : String) (content : Content)
      → is_empty id ≡ false
      → str_eq id sc.active_content_id ≡ false
      → Off (some content)
      → Call sc (register_content id content sc)
  shows : (id : String) → Call sc (show_content id sc).0
  toggles : (id : String) → Call sc (toggle_content id sc).0
  closes : Call sc (close sc).0
  focuses : Call sc (focus_split_content sc)
  focuses_primary : Call sc (focus_primary sc)
  toggles_focus : Call sc (toggle_focus sc)

Marked-Off_at :
    (sc : SplitContainer) (id : String) (content : Content)
    → str_eq id sc.active_content_id ≡ false
    → Off (some content)
    → Marked (str_eq sc.active_content_id id) sc.content_focused (some content)
Marked-Off_at sc id content f o =
    let other : str_eq sc.active_content_id id ≡ false =
      ground (arith, f, eq_iff id sc.active_content_id, eq_iff sc.active_content_id id) in
    rw other o

register_content-IsInSync :
    (sc : SplitContainer) (id : String) (content : Content)
    → IsInSync sc
    → is_empty id ≡ false
    → str_eq id sc.active_content_id ≡ false
    → Off (some content)
    → IsInSync (register_content id content sc)
unfolding register_content
register_content-IsInSync sc id content h e f o = record {
  unnamed = rw e h.unnamed;
  registered = rw f h.registered;
  focus = h.focus;
  marks = λ asked. elim (Bool-cases (str_eq id asked)) [
    | inl g ↦ rw g (
        subst (λ i. Marked (str_eq sc.active_content_id i) sc.content_focused (some content))
          ((eq_iff id asked).0 g) (Marked-Off_at sc id content f o))
    | inr g ↦ rw g (h.marks asked)
  ];
  primary = h.primary;
}

pub Call-IsInSync : (a : SplitContainer) {b : SplitContainer} → Call a b → IsInSync a → IsInSync b
unfolding toggle_content focus_split_content focus_primary toggle_focus
Call-IsInSync sc (registers id content e f o) h = register_content-IsInSync sc id content h e f o
Call-IsInSync sc (shows id) h = show_content-IsInSync id sc h
Call-IsInSync sc (toggles id) h = elim (Bool-cases (str_eq sc.active_content_id id)) [
  | inl e ↦ rw e (close-IsInSync sc h)
  | inr e ↦ rw e (show_content-IsInSync id sc h)
]
Call-IsInSync sc closes h = close-IsInSync sc h
Call-IsInSync sc focuses h = set_content_focused-IsInSync true sc h
Call-IsInSync sc focuses_primary h = set_content_focused-IsInSync false sc h
Call-IsInSync sc toggles_focus h = set_content_focused-IsInSync (not sc.content_focused) sc h

show_registered-focus :
    (id : String) (sc : SplitContainer)
    → is_empty id ≡ false
    → ((show_registered id sc).active_content_id ≡ id)
      × ((show_registered id sc).content_focused ≡ false)
unfolding show_registered show_active set_content_focused on_active report_primary
show_registered-focus id sc e = rw (e, e) (refl, refl)

-- A content is newly shown exactly where it is registered and not yet active; then it is the active
-- one and the focus is on the primary view, and else nothing changes.
pub show_content_outcome :
    (id : String) (sc : SplitContainer)
    → IsInSync sc
    → (((show_content id sc).1 ≡ true)
        × (is_none (sc.contents id) ≡ false)
        × (((show_content id sc).0.active_content_id ≡ id)
            × ((show_content id sc).0.content_focused ≡ false)))
      ⊎ (((show_content id sc) ≡ (sc, false))
          × ((is_none (sc.contents id) || str_eq sc.active_content_id id) ≡ true))
unfolding show_content
show_content_outcome id sc h = elim (Bool-cases (str_eq sc.active_content_id id)) [
  | inl e ↦ rw e (inr (refl, ground arith))
  | inr e ↦ rw e (elim (Bool-cases (is_none (sc.contents id))) [
    | inl f ↦ rw f (inr (refl, refl))
    | inr f ↦ rw f (inl (refl, refl, show_registered-focus id sc (is_empty-registered id sc h f)))
  ])
]
