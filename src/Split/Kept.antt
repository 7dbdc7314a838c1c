-- ===== src/Split/Kept.antt =====
-- What the program's own calls keep of the pane: the focus is on the pane only where it shows the
-- list of bookmarks (internal/ui/split/container.go, as internal/ui/split.go calls it).
use jjui.Split.{
  Content, SplitContainer, active_content, on_content, on_active, is_none, set_focused, on_show,
  on_hide, set_content_focused, show_registered, show_content, show_active, hide_active, close,
  report_primary, focus_split_content, focus_primary, toggle_focus,
}
use jjui.Split.Focus.{IsInSync, is_none-changed, is_none-hide_active}
use jjui.Split.Steps.{
  shows, closes, focuses, focuses_primary, toggles_focus, Call-IsInSync, show_content_outcome,
}
use mathlib.Core.Path.{subst}
use jjui.Split.Handling.{bookmark_content_id}
use jjui.Prelude.{
  String, ◌≡◌, refl, sym, true, arith, ◌∙◌, inl, inr, Bool, false, not, ◌&&◌, str_eq, Bool-cases,
}
use jjui.Prelude.Texts.{is_empty}

-- The pane is in sync, the list of bookmarks is registered, and no other content has the focus.
pub record IsKept (sc : SplitContainer) : Type 0 where
  pub in_sync : IsInSync sc
  pub has_bookmarks : is_none (sc.contents bookmark_content_id) ≡ false
  pub on_bookmarks :
      (sc.content_focused && not (str_eq sc.active_content_id bookmark_content_id)) ≡ false

is_none-on_active :
    (change : Content → Content) (sc : SplitContainer) (id : String)
    → is_none ((on_active change sc).contents id) ≡ is_none (sc.contents id)
unfolding on_active on_content
is_none-on_active change sc id = elim (Bool-cases (is_empty sc.active_content_id)) [
  | inl e ↦ rw e refl
  | inr e ↦ rw e (is_none-changed (str_eq sc.active_content_id id) change (sc.contents id))
]

is_none-focused :
    (focused : Bool) (sc : SplitContainer) (id : String)
    → is_none ((set_content_focused focused sc).contents id) ≡ is_none (sc.contents id)
unfolding set_content_focused report_primary
is_none-focused focused sc id = elim (Bool-cases (focused && is_none (active_content sc))) [
  | inl e ↦ rw e refl
  | inr e ↦
      rw e (is_none-on_active (set_focused focused) (record sc { content_focused = focused }) id)
]

is_none-show_content :
    (shown : String) (sc : SplitContainer) (id : String)
    → is_none ((show_content shown sc).0.contents id) ≡ is_none (sc.contents id)
unfolding show_content show_registered show_active
is_none-show_content shown sc id = elim (Bool-cases (str_eq sc.active_content_id shown)) [
  | inl e ↦ rw e refl
  | inr e ↦ rw e (elim (Bool-cases (is_none (sc.contents shown))) [
    | inl f ↦ rw f refl
    | inr f ↦
        let moved : SplitContainer = record (hide_active sc) { active_content_id = shown } in
        rw f (
          is_none-on_active on_show (set_content_focused false moved) id
          ∙ is_none-focused false moved id
          ∙ is_none-hide_active sc id)
  ])
]

is_none-close :
    (sc : SplitContainer) (id : String)
    → is_none ((close sc).0.contents id) ≡ is_none (sc.contents id)
unfolding close
is_none-close sc id = elim (Bool-cases (is_none (active_content sc))) [
  | inl e ↦ rw e refl
  | inr e ↦
      rw e
        (is_none-on_active on_hide (set_content_focused false sc) id ∙ is_none-focused false sc id)
]

active-on_active :
    (change : Content → Content) (sc : SplitContainer)
    → ((on_active change sc).active_content_id ≡ sc.active_content_id)
      × ((on_active change sc).content_focused ≡ sc.content_focused)
unfolding on_active
active-on_active change sc = elim (Bool-cases (is_empty sc.active_content_id)) [
  | inl e ↦ rw e (refl, refl)
  | inr e ↦ rw e (refl, refl)
]

active-focused :
    (focused : Bool) (sc : SplitContainer)
    → (set_content_focused focused sc).active_content_id ≡ sc.active_content_id
unfolding set_content_focused report_primary
active-focused focused sc = elim (Bool-cases (focused && is_none (active_content sc))) [
  | inl e ↦ rw e refl
  | inr e ↦
      rw e (active-on_active (set_focused focused) (record sc { content_focused = focused })).0
]

unfocused : (sc : SplitContainer) → (set_content_focused false sc).content_focused ≡ false
unfolding set_content_focused report_primary
unfocused sc = (active-on_active (set_focused false) (record sc { content_focused = false })).1

close-nothing : (sc : SplitContainer) → is_none (active_content sc) ≡ true → (close sc).0 ≡ sc
unfolding close
close-nothing sc e = rw e refl

close-unfocused :
    (sc : SplitContainer)
    → is_none (active_content sc) ≡ false
    → (close sc).0.content_focused ≡ false
unfolding close
close-unfocused sc e =
    rw e ((active-on_active on_hide (set_content_focused false sc)).1 ∙ unfocused sc)

-- A call after which the focus is not on the pane.
unfocused-IsKept :
    (a b : SplitContainer)
    → IsKept a
    → IsInSync b
    → is_none (b.contents bookmark_content_id) ≡ is_none (a.contents bookmark_content_id)
    → b.content_focused ≡ false
    → IsKept b
unfocused-IsKept a b h s n f = record {
  in_sync = s;
  has_bookmarks = n ∙ h.has_bookmarks;
  on_bookmarks = rw f refl;
}

pub focus_primary-IsKept : (sc : SplitContainer) → IsKept sc → IsKept (focus_primary sc)
unfolding focus_primary
focus_primary-IsKept sc h =
    unfocused-IsKept sc (set_content_focused false sc) h
      (Call-IsInSync sc focuses_primary h.in_sync) (is_none-focused false sc bookmark_content_id)
      (unfocused sc)

pub show_content-IsKept :
    (id : String) (sc : SplitContainer) → IsKept sc → IsKept (show_content id sc).0
show_content-IsKept id sc h = elim (show_content_outcome id sc h.in_sync) [
  | inl o ↦
      unfocused-IsKept sc (show_content id sc).0 h (Call-IsInSync sc (shows id) h.in_sync)
        (is_none-show_content id sc bookmark_content_id) o.2.1
  | inr o ↦ subst (λ r. IsKept r.0) (sym o.0) h
]

pub close-IsKept : (sc : SplitContainer) → IsKept sc → IsKept (close sc).0
close-IsKept sc h = elim (Bool-cases (is_none (active_content sc))) [
  | inl e ↦ subst IsKept (sym (close-nothing sc e)) h
  | inr e ↦
      unfocused-IsKept sc (close sc).0 h (Call-IsInSync sc closes h.in_sync)
        (is_none-close sc bookmark_content_id) (close-unfocused sc e)
]

-- Where the list of bookmarks is shown, the focus may go to the pane.
pub set_content_focused-IsKept :
    (focused : Bool) (sc : SplitContainer)
    → IsKept sc
    → str_eq sc.active_content_id bookmark_content_id ≡ true
    → IsInSync (set_content_focused focused sc)
    → IsKept (set_content_focused focused sc)
set_content_focused-IsKept focused sc h e s = record {
  in_sync = s;
  has_bookmarks = is_none-focused focused sc bookmark_content_id ∙ h.has_bookmarks;
  on_bookmarks = rw (active-focused focused sc, e) (ground arith);
}

pub focus_split_content-IsKept :
    (sc : SplitContainer)
    → IsKept sc
    → str_eq sc.active_content_id bookmark_content_id ≡ true
    → IsKept (focus_split_content sc)
unfolding focus_split_content
focus_split_content-IsKept sc h e =
    set_content_focused-IsKept true sc h e (Call-IsInSync sc focuses h.in_sync)

pub toggle_focus-IsKept :
    (sc : SplitContainer)
    → IsKept sc
    → str_eq sc.active_content_id bookmark_content_id ≡ true
    → IsKept (toggle_focus sc)
unfolding toggle_focus
toggle_focus-IsKept sc h e =
    set_content_focused-IsKept (not sc.content_focused) sc h e
      (Call-IsInSync sc toggles_focus h.in_sync)

-- Once the list of bookmarks is shown, it is the active content.
pub show_bookmarks-active :
    (sc : SplitContainer)
    → IsKept sc
    → str_eq (show_content bookmark_content_id sc).0.active_content_id bookmark_content_id ≡ true
show_bookmarks-active sc h = elim (show_content_outcome bookmark_content_id sc h.in_sync) [
  | inl o ↦ rw o.2.0 refl
  | inr o ↦ rw o.0 (ground (arith, o.1, h.has_bookmarks))
]
