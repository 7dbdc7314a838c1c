-- ===== src/Jj/Commands/Reading.antt =====
-- How jj reads arguments, as far as the builders of internal/jj/commands.go rely on it: an option takes the
-- next argument as its value, a switch takes none, and an operand may be a quoted path.
use jjui.Jj.Commands.{flag_if, escaped_files}
use jjui.Jj.Files.{FileName, escaped, read_file_pattern, read_file_pattern-escaped}
use jjui.Jj.Selections.{prefixed}
use Prim.Native.Char.{code}
use jjui.Prelude.{
  String, ◌≡◌, refl, Bool, true, false, ◌&&◌, Option, none, some, List, [], ◌∷◌, ◌++◌, map, str_eq,
  ◌==◌, if◌then◌else◌, any,
}

pub data Arg : Type 0 where
  option : String → String → Arg
  switch : String → Arg
  file : String → Arg
  operand : String → Arg

abbrev pub is_dashed : String → Bool
is_dashed String.[] = false
is_dashed (String.◌∷◌ c s) = code c == 45

-- The options with a value that the builders use.
abbrev pub valued : List String
valued =
    "-r" ∷ "-c" ∷ "-s" ∷ "-b" ∷ "-d" ∷ "-n" ∷ "-T" ∷ "--from" ∷ "--into" ∷ "--to" ∷ "--insert-after"
    ∷ "--insert-before" ∷ "--limit" ∷ "--template" ∷ "--color" ∷ "--destination" ∷ "--source"
    ∷ "--branch" ∷ "--revisions" ∷ "--onto" ∷ []

unfoldable pub takes_value : String → Bool
takes_value a = is_dashed a && any (str_eq a) valued

unfoldable pub read_lone : String → Arg
read_lone a =
    if is_dashed a
    then switch a
    else elim (read_file_pattern a) [ none ↦ operand a | some path ↦ file path ]

abbrev pub push : Arg → Option (List Arg) → Option (List Arg)
push a o = elim o [ none ↦ none | some args ↦ some (a ∷ args) ]

-- With the option that waits for its value; `none` where the last option has no value.
unfoldable pub read_args : Option String → List String → Option (List Arg)
read_args none [] = some []
read_args (some flag) [] = none
read_args (some flag) (a ∷ args) = push (option flag a) (read_args none args)
read_args none (a ∷ args) = elim (takes_value a) [
  | true ↦ read_args (some a) args
  | false ↦ push (read_lone a) (read_args none args)
]

is_dashed-escaped : (f : FileName) → is_dashed (escaped f) ≡ false
unfolding escaped
is_dashed-escaped f = refl

pub takes_value-escaped : (f : FileName) → takes_value (escaped f) ≡ false
unfolding takes_value
takes_value-escaped f = rw (is_dashed-escaped f) refl

pub read_lone-escaped : (f : FileName) → read_lone (escaped f) ≡ file f.path
unfolding read_lone
read_lone-escaped f = rw (is_dashed-escaped f, read_file_pattern-escaped f) refl

abbrev pub paths : List FileName → List Arg
paths fs = map (λ f. file f.path) fs

abbrev pub switch_if : Bool → String → List Arg
switch_if b flag = if b then switch flag ∷ [] else []

-- Arguments with what they are read as.
pub data Reads : List String → List Arg → Type 0 where
  nothing : Reads [] []
  lone :
      {rest : List String} {read : List Arg} (word : String) (a : Arg)
      → takes_value word ≡ false
      → read_lone word ≡ a
      → Reads rest read
      → Reads (word ∷ rest) (a ∷ read)
  valued_by :
      {rest : List String} {read : List Arg} (flag value : String)
      → takes_value flag ≡ true
      → Reads rest read
      → Reads (flag ∷ value ∷ rest) (option flag value ∷ read)

pub read_args-Reads :
    {texts : List String} {read : List Arg} → Reads texts read → read_args none texts ≡ some read
unfolding read_args
read_args-Reads nothing = refl
read_args-Reads (lone word a e f r) = rw (read_args, e, f, read_args-Reads r) refl
read_args-Reads (valued_by flag value e r) = rw (read_args, e, read_args-Reads r) refl

pub Reads-prefixed :
    {rest : List String} {read : List Arg} (flag : String) (ids : List String)
    → takes_value flag ≡ true
    → Reads rest read
    → Reads (prefixed flag ids ++ rest) (map (option flag) ids ++ read)
unfolding prefixed
Reads-prefixed flag [] e r = r
Reads-prefixed flag (i ∷ ids) e r = valued_by flag i e (Reads-prefixed flag ids e r)

pub Reads-flag_if :
    {rest : List String} {read : List Arg} (b : Bool) (flag : String)
    → takes_value flag ≡ false
    → read_lone flag ≡ switch flag
    → Reads rest read
    → Reads (flag_if b flag ++ rest) (switch_if b flag ++ read)
Reads-flag_if false flag e f r = r
Reads-flag_if true flag e f r = lone flag (switch flag) e f r

pub Reads-escaped_files : (fs : List FileName) → Reads (escaped_files fs) (paths fs)
unfolding escaped_files
Reads-escaped_files [] = nothing
Reads-escaped_files (f ∷ fs) =
    lone (escaped f) (file f.path) (takes_value-escaped f) (read_lone-escaped f)
      (Reads-escaped_files fs)

-- A selection or a switch that comes last.
pub Reads-last_prefixed :
    (flag : String) (ids : List String)
    → takes_value flag ≡ true
    → Reads (prefixed flag ids) (map (option flag) ids)
unfolding prefixed
Reads-last_prefixed flag [] e = nothing
Reads-last_prefixed flag (i ∷ ids) e = valued_by flag i e (Reads-last_prefixed flag ids e)

pub Reads-last_flag :
    (b : Bool) (flag : String)
    → takes_value flag ≡ false
    → read_lone flag ≡ switch flag
    → Reads (flag_if b flag) (switch_if b flag)
Reads-last_flag false flag e f = nothing
Reads-last_flag true flag e f = lone flag (switch flag) e f nothing
