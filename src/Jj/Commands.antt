-- ===== src/Jj/Commands.antt =====
-- The arguments of the jj commands (internal/jj/commands.go): each builder of that file is a function
-- of the same name. A selection of revisions, paths and flags become a list of texts.
pub mod Changes
pub mod Queries
pub mod Reading
pub mod Requests
pub mod Looking
use jjui.Prelude.{String, Bool, List, [], ◌∷◌, if◌then◌else◌}
use jjui.Jj.Files.{FileName, escaped}

-- `append(args, flag)` under a test.
abbrev pub flag_if : Bool → String → List String
flag_if b flag = if b then flag ∷ [] else []

-- The loop that escapes the files.
unfoldable pub escaped_files : List FileName → List String
escaped_files [] = []
escaped_files (f ∷ fs) = escaped f ∷ escaped_files fs

pub record CommandWithStdin : Type 0 where
  pub args : List String
  pub input : String
