-- ===== src/Split/Well.antt =====
-- The pieces of the pane's handlers keep it well (internal/ui/split/container.go).
use jjui.Split.{SplitContainer, is_none, active_content, show_content, close}
use jjui.Split.Kept.{IsKept, show_content-IsKept, close-IsKept}
use jjui.Split.Share.{Numbers, SplitState, IsBounded}
use jjui.Split.Bounds.{drag_to-IsBounded}
use jjui.Split.Areas.{SplitRenderer, drag_separator}
use jjui.Split.Pane.{
  PaneViews, SplitPane, on_container, on_share, show_pane, toggle_pane, update_content,
  update_shown,
}
use mathlib.Core.Path.{subst}
use jjui.Prelude.{
  Bool, true, false, if◌then◌else◌, String, ◌≡◌, refl, sym, inl, inr, str_eq, Bool-cases,
  Option-cases,
}
use jjui.Prelude.Int.{ℤ}

-- The focus is in order, and the share is between its bounds.
pub record IsWell {Share Own : Type 0} (numbers : Numbers Share) (p : SplitPane Share Own)
    : Type 0 where
  pub container : IsKept p.container
  pub share : IsBounded numbers p.share

pub if-both :
    {A : Type 0} (P : A → Type 0) (b : Bool) (x y : A) → P x → P y → P (if b then x else y)
if-both P true x y h k = h
if-both P false x y h k = k

module _ {Share Own Input Cmd : Type 0} (numbers : Numbers Share)
    (views : PaneViews Own Input Cmd) where
  pub on_container-IsWell :
      (change : SplitContainer → SplitContainer)
      → ((sc : SplitContainer) → IsKept sc → IsKept (change sc))
      → (p : SplitPane Share Own) → IsWell numbers p
      → IsWell numbers (on_container change p)
  on_container-IsWell change keeps p h = record {
    container = keeps p.container h.container;
    share = h.share;
  }

  pub on_share-IsWell :
      (change : SplitState Share → SplitState Share)
      → ((s : SplitState Share) → IsBounded numbers s → IsBounded numbers (change s))
      → (p : SplitPane Share Own) → IsWell numbers p
      → IsWell numbers (on_share change p)
  on_share-IsWell change keeps p h = record {
    container = h.container;
    share = keeps p.share h.share;
  }

  -- Showing a content changes the container as `show_content` does, and not the share.
  pub show_pane-changes :
      (id : String) (p : SplitPane Share Own)
      → ((show_pane numbers views id p).0.container ≡ (show_content id p.container).0)
        × ((show_pane numbers views id p).0.share ≡ p.share)
  unfolding show_pane show_content
  show_pane-changes id p = elim (Bool-cases (str_eq p.container.active_content_id id)) [
    | inl e ↦ rw e (refl, refl)
    | inr e ↦ rw e (elim (Bool-cases (is_none (p.container.contents id))) [
      | inl f ↦ rw f (refl, refl)
      | inr f ↦ rw f (refl, refl)
    ])
  ]

  pub show_pane-IsWell :
      (id : String) (p : SplitPane Share Own)
      → IsWell numbers p
      → IsWell numbers (show_pane numbers views id p).0
  show_pane-IsWell id p h = record {
    container =
        subst IsKept (sym (show_pane-changes id p).0)
          (show_content-IsKept id p.container h.container);
    share = subst (IsBounded numbers) (sym (show_pane-changes id p).1) h.share;
  }

  pub toggle_pane-IsWell :
      (id : String) (p : SplitPane Share Own)
      → IsWell numbers p
      → IsWell numbers (toggle_pane numbers views id p).0
  unfolding toggle_pane
  toggle_pane-IsWell id p h = elim (Bool-cases (str_eq p.container.active_content_id id)) [
    | inl e ↦ rw e (on_container-IsWell (λ sc. (close sc).0) close-IsKept p h)
    | inr e ↦ rw e (show_pane-IsWell id p h)
  ]

  -- What the contents do to themselves changes neither the container nor the share.
  pub own-IsWell :
      (own : Own) (p : SplitPane Share Own)
      → IsWell numbers p
      → IsWell numbers (record p { own = own })
  own-IsWell own p h = record { container = h.container; share = h.share }

  pub update_content-IsWell :
      (id : String) (input : Input) (p : SplitPane Share Own)
      → IsWell numbers p
      → IsWell numbers (update_content numbers views id input p).0
  unfolding update_content
  update_content-IsWell id input p h = elim (Bool-cases (is_none (p.container.contents id))) [
    | inl e ↦ rw e h
    | inr e ↦ rw e (own-IsWell (views.update id input p.own).0 p h)
  ]

  pub update_shown-IsWell :
      (input : Input) (p : SplitPane Share Own)
      → IsWell numbers p
      → IsWell numbers (update_shown numbers views input p).0
  unfolding update_shown
  update_shown-IsWell input p h = elim (Bool-cases (is_none (active_content p.container))) [
    | inl e ↦ rw e h
    | inr e ↦ rw e (own-IsWell (views.update p.container.active_content_id input p.own).0 p h)
  ]

  pub drag_separator-IsBounded :
      (x y : ℤ) (renderer : SplitRenderer) (s : SplitState Share)
      → IsBounded numbers s
      → IsBounded numbers (drag_separator numbers x y renderer s).0
  unfolding drag_separator
  drag_separator-IsBounded x y renderer s h = elim (Option-cases renderer.last_box) [
    | inl e ↦ rw e h
    | inr (box, e) ↦ rw e (drag_to-IsBounded numbers box renderer.vertical x y s h)
  ]
