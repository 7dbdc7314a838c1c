-- ===== src/Bindings/Tests.antt =====
-- Two bindings, one with a key and one with a sequence (internal/ui/bindings/binding.go).
use jjui.Prelude.{◌⊎◌, String, ◌≡◌, Option, none, [], ◌∷◌, All}
use jjui.Condition.{Expr}
use jjui.Bindings.{Binding, validate_bindings}
use jjui.Bindings.Validation.{IsUsable, IsRefused, validate_bindings-outcome}

abbrev quit : Binding
quit = record {
  action = "ui.quit";
  desc = "quit";
  when = "";
  scope = "ui";
  key = "q" ∷ [];
  seq = [];
  args = [];
}

abbrev short : Binding
short = record {
  action = "ui.git";
  desc = "";
  when = "";
  scope = "ui";
  key = [];
  seq = "g" ∷ [];
  args = [];
}

abbrev reads_nothing : String → Option Expr
reads_nothing source = none

validate_bindings-outcome_example :
    ((validate_bindings reads_nothing (quit ∷ short ∷ []) ≡ none)
      × All (IsUsable reads_nothing) (quit ∷ short ∷ []))
    ⊎ IsRefused reads_nothing (quit ∷ short ∷ [])
validate_bindings-outcome_example = validate_bindings-outcome reads_nothing (quit ∷ short ∷ [])
