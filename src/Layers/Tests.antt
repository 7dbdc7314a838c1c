-- ===== src/Layers/Tests.antt =====
-- A diff over the oplog, and a dialog over both (internal/ui/layers.go).
use jjui.Prelude.{ℕ, ◌≡◌, refl, true, not, none, some, [], ◌∷◌, keep}
use jjui.Layers.{
  Kind, oplog, diff, dialog_of, revisions_view, View, Root, Views, drop_last, dialog, screen,
  close_dialog, same_screen_kind, open_screen, open_dialog,
}
use jjui.Layers.Invariant.{WellLayered}
use jjui.Layers.Steps.{opens_screen, opens_dialog, here, after, Reach-WellLayered}
use jjui.Layers.Opening.{screen-open_screen, dialog-open_dialog}

abbrev view_of : Kind → ℕ → View
view_of k n = record { kind = k; id = n }

abbrev start : Root
start = record { layers = []; revisions = view_of revisions_view 0 }

-- A view that gives its identity for a command and always closes.
abbrev plain : Views ℕ
plain = record {
  init = λ v. v.id;
  update = λ v msg. v.id;
  request_close = λ v. (v, v.id, true);
  request_close-kind = λ v. refl;
}

abbrev reviewing : Root
reviewing = open_screen (open_screen start (view_of oplog 1)) (view_of diff 2)

back_to_oplog :
    (open_screen reviewing (view_of oplog 3)).layers
    ≡ record { model = view_of diff 2; screen = true }
      ∷ record { model = view_of oplog 3; screen = true }
      ∷ []
unfolding open_screen
back_to_oplog = refl

abbrev menu : View
menu = view_of (dialog_of "git") 4

Reach-WellLayered_example : WellLayered (open_dialog plain reviewing menu).0
Reach-WellLayered_example = Reach-WellLayered {views = plain} refl (
    after
      (after (after here (opens_screen start (view_of oplog 1) refl))
        (opens_screen (open_screen start (view_of oplog 1)) (view_of diff 2) refl))
      (opens_dialog reviewing menu refl))

screen-open_screen_example :
    (screen (open_screen reviewing (view_of oplog 3)) ≡ some (view_of oplog 3))
    × (dialog (open_screen reviewing (view_of oplog 3)) ≡ none)
    × (drop_last (open_screen reviewing (view_of oplog 3)).layers
        ≡ keep (λ l. not (same_screen_kind l.model.kind oplog)) reviewing.layers)
screen-open_screen_example = screen-open_screen reviewing (view_of oplog 3)

dialog-open_dialog_example :
    let m' = (open_dialog plain reviewing menu).0 in
    (dialog m' ≡ some menu)
    × (screen m' ≡ screen reviewing)
    × ((close_dialog m').layers ≡ (close_dialog reviewing).layers)
dialog-open_dialog_example = dialog-open_dialog plain reviewing menu
