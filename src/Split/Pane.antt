-- ===== src/Split/Pane.antt =====
-- The pane with its renderer, its share and what its contents do (internal/ui/split/container.go).
-- `Own` is what the contents keep besides their marks, as far as being shown, messages and intents
-- change it: what they do to it when they are hidden or lose the focus is left out.
use jjui.Layout.{Box}
use jjui.Scopes.{Scope}
use jjui.Split.{SplitContainer, active_content, is_none, show_content, close}
use jjui.Split.Share.{Numbers, SplitState}
use jjui.Split.Areas.{SplitRenderer, Areas, alone, render_areas, drag_separator}
use jjui.Prelude.{ℕ, Bool, true, false, List, [], ◌∷◌, ◌++◌, String, str_eq, if◌then◌else◌, ◌==◌}
use jjui.Prelude.Int.{ℤ}

-- What the contents do; an intent goes to a handler, as in `Scopes`.
pub record PaneViews (Own Input Cmd : Type 0) : Type 0 where
  pub scopes : String → Own → List Scope
  pub handle_intent : ℕ → Input → Own → Own × Cmd × Bool
  pub update : String → Input → Own → Own × Cmd
  pub on_show : String → Own → Own × Cmd

pub record SplitPane (Share Own : Type 0) : Type 0 where
  pub container : SplitContainer
  pub share : SplitState Share
  pub renderer : SplitRenderer
  pub dragging : Bool
  pub own : Own

abbrev pub on_container :
    {Share Own : Type 0}
    → (SplitContainer → SplitContainer)
    → SplitPane Share Own
    → SplitPane Share Own
on_container change p = record p { container = change p.container }

abbrev pub on_share :
    {Share Own : Type 0}
    → (SplitState Share → SplitState Share)
    → SplitPane Share Own
    → SplitPane Share Own
on_share change p = record p { share = change p.share }

module _ {Share Own Input Cmd : Type 0} (numbers : Numbers Share)
    (views : PaneViews Own Input Cmd) where
  -- `ShowContent`, with the command of a content that is newly shown.
  unfoldable pub show_pane : String → SplitPane Share Own → SplitPane Share Own × List Cmd × Bool
  show_pane id p =
      let (sc, shown) = show_content id p.container in
      let (own, cmd) = views.on_show id p.own in
      if shown then (record p { container = sc; own = own }, cmd ∷ [], true) else (p, [], false)

  -- `ToggleContent`.
  unfoldable pub toggle_pane : String → SplitPane Share Own → SplitPane Share Own × List Cmd × Bool
  unfolding show_pane
  toggle_pane id p =
      if str_eq p.container.active_content_id id
      then (on_container (λ sc. (close sc).0) p, [], (close p.container).1)
      else show_pane id p

  -- `UpdateContent`.
  unfoldable pub update_content :
      String → Input → SplitPane Share Own → SplitPane Share Own × List Cmd × Bool
  update_content id input p =
      let (own, cmd) = views.update id input p.own in
      if is_none (p.container.contents id)
      then (p, [], false)
      else (record p { own = own }, cmd ∷ [], true)

  -- `Update`.
  unfoldable pub update_shown : Input → SplitPane Share Own → SplitPane Share Own × List Cmd
  update_shown input p =
      let (own, cmd) = views.update p.container.active_content_id input p.own in
      if is_none (active_content p.container) then (p, []) else (record p { own = own }, cmd ∷ [])

  -- `Scopes`.
  unfoldable pub pane_scopes : List Scope → SplitPane Share Own → List Scope
  pane_scopes primary p =
      let of_content = views.scopes p.container.active_content_id p.own in
      if is_none (active_content p.container)
      then primary
      else if p.container.content_focused
      then of_content
      else primary ++ of_content

  -- `StartDrag`, of a message from the renderer with the given number.
  unfoldable pub start_drag : ℕ → ℤ → ℤ → SplitPane Share Own → SplitPane Share Own
  start_drag sender x y p =
      if sender == p.renderer.reference
      then record p { dragging = true; share = (drag_separator numbers x y p.renderer p.share).0 }
      else p

  -- `DragTo`.
  unfoldable pub drag_pane : ℤ → ℤ → SplitPane Share Own → SplitPane Share Own × Bool
  drag_pane x y p =
      if p.dragging
      then (on_share (λ s. (drag_separator numbers x y p.renderer s).0) p, true)
      else (p, false)

  unfoldable pub end_drag : SplitPane Share Own → SplitPane Share Own
  end_drag p = record p { dragging = false }

  -- `Render`.
  unfoldable pub render_pane : Box → SplitPane Share Own → SplitPane Share Own × Areas
  render_pane box p =
      let (renderer, areas) = render_areas numbers p.share.at_bottom box p.share p.renderer in
      if is_none (active_content p.container)
      then (p, alone box)
      else (record p { renderer = renderer }, areas)
