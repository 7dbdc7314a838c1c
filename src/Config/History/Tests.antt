-- ===== src/Config/History/Tests.antt =====
-- A history of three lines, one of them twice.
use jjui.Config.History.{new_history, entries, load, load_once, dedup, append, flush, member}
use jjui.Config.History.Unique.{IsDistinct, append_all, entries_unique}
use jjui.Prelude.{String, ◌≡◌, refl, true, false, ◌||◌, Option, none, some, List, [], ◌∷◌}
use jjui.Prelude.Texts.{trim_space}

abbrev saved : Option String
saved = some "log\nnew\nlog"

abbrev typed_lines : List String
typed_lines = "new" ∷ "edit" ∷ []

entries_unique_example :
    IsDistinct (entries none (append_all typed_lines (entries saved (new_history true)).1)).0
    × ((y : String)
        → member y (entries none (append_all typed_lines (entries saved (new_history true)).1)).0
          ≡ (member y (load saved) || member y typed_lines))
entries_unique_example = entries_unique saved none typed_lines

entries_of_saved :
    (entries none (append_all typed_lines (entries saved (new_history true)).1)).0
    ≡ "log" ∷ "new" ∷ "edit" ∷ []
unfolding entries append_all new_history load_once load dedup append
entries_of_saved = refl

-- Appended before the first load, a line of the file is there twice.
appended_too_early :
    (entries saved (append "new" (new_history true))).0 ≡ "log" ∷ "new" ∷ "new" ∷ []
unfolding entries new_history load_once load dedup append
appended_too_early = refl

flushed : flush (append "  " (append "log" (new_history false))) ≡ some "log\n"
unfolding flush new_history append trim_space
flushed = refl
