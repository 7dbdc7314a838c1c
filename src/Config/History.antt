-- ===== src/Config/History.antt =====
-- A history of input (internal/config/history.go). The sets of the unique optimisation are lists, and
-- what the history's file holds, if it can be read, is a parameter of the operations.
pub mod Unique
mod Tests
use Prim.Native.Char.{code}
use Prim.Native.String.{◌++◌ as append_text}
use mathlib.Core.Path.{subst, fun_ext}
use mathlib.Core.List.{reverse}
use mathlib.Core.Bool.{false≢true}
use jjui.Prelude.{
  ℕ, zero, suc, ◌+◌, ◌-◌, ◌*◌, ◌/◌, ◌%◌, ◌≤◌, ◌<◌, min, max, String, ◌≡◌, refl, sym, ap, ◌∙◌, ◌≢◌,
  ◌↔◌, ◌⊎◌, inl, inr, Bool, true, false, not, ◌&&◌, ◌||◌, Option, none, some, Memᴰ, List, [], ◌∷◌,
  ◌++◌, map, arith, str_eq, eq_iff, eq_refl, ltb, leb, ◌==◌, ==_iff, if◌then◌else◌, ltb→lt, lt→ltb,
  leb→le, tests, Bool-cases, Option-cases, length, get_elem?, take, drop, replicate, keep, any, All,
  length-append, length-replicate, All-append, All-keep, All-map, All-both, All-reverse,
  split_reverse, of-mem-keep, mem-keep,
}
use jjui.Prelude.Int.{
  ℤ, pos, negsuc, pos_part, neg_part, sub_ℕ, ◌+ℤ◌, ◌-ℤ◌, ◌≤ℤ◌, ◌<ℤ◌, ltb_ℤ, leb_ℤ, min_ℤ, max_ℤ,
  half_ℤ, +ℤ_parts, -ℤ_parts, eq_of_parts, min_ℤ_le, le-max_ℤ, int_laws,
}
use jjui.Prelude.Maps.{Map, lookup, insert, delete, lookup-insert, lookup-delete}
use jjui.Prelude.Texts.{trim_space, is_empty, is_space, join, join_onto, itoa}

pub record History : Type 0 where
  pub loaded : List String
  pub appended : List String
  pub append_only : Bool
  pub unique : Bool
  pub loaded_unique : List String
  pub append_unique : List String

-- A new history of `GetHistory`.
unfoldable pub new_history : Bool → History
new_history unique = record {
  loaded = [];
  appended = [];
  append_only = false;
  unique = unique;
  loaded_unique = [];
  append_unique = [];
}

abbrev pub member : String → List String → Bool
member line [] = false
member line (l ∷ lines) = str_eq line l || member line lines

-- `strings.Split` at line ends: the first line, and the others.
abbrev pub split_first : String → String × List String
split_first String.[] = (String.[], [])
split_first (String.◌∷◌ c s) =
    let (first, others) = split_first s in
    if code c == 10 then (String.[], first ∷ others) else (String.◌∷◌ c first, others)

unfoldable pub load : Option String → List String
load none = []
load (some data_read) = let (first, others) = split_first data_read in first ∷ others

-- `dedup`, with the lines seen so far.
unfoldable pub dedup : List String → List String → List String × List String
dedup seen [] = ([], seen)
dedup seen (l ∷ lines) =
    let skipped = dedup seen lines in
    let (kept, seen') = dedup (l ∷ seen) lines in
    if member l seen then skipped else (l ∷ kept, seen')

-- The first call loads the file.
unfoldable pub load_once : Option String → History → History
load_once file h =
    let lines = load file in
    let (kept, seen) = dedup [] lines in
    if h.append_only
    then h
    else if h.unique
    then record h { append_only = true; loaded = kept; loaded_unique = seen }
    else record h { append_only = true; loaded = lines }

unfoldable pub entries : Option String → History → List String × History
entries file h = let h' = load_once file h in (h'.loaded ++ h'.appended, h')

unfoldable pub append : String → History → History
append line h =
    if h.unique
    then (if member line h.append_unique
        then h
        else if member line h.loaded_unique
        then h
        else record h {
          append_unique = line ∷ h.append_unique;
          appended = h.appended ++ line ∷ [];
        })
    else record h { appended = h.appended ++ line ∷ [] }

-- What is appended to the file, if anything.
unfoldable pub flush : History → Option String
flush h =
    let content = keep (λ l. not (is_empty (trim_space l))) h.appended in
    elim content [ [] ↦ none | ◌∷◌ l lines ↦ some (append_text (join "\n" (l ∷ lines)) "\n") ]
