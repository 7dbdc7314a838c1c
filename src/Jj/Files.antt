-- ===== src/Jj/Files.antt =====
-- Repository paths as arguments of jj and of a shell (internal/jj/file_name.go). `Display` is left
-- out: it is a computation on the paths of the operating system.
use text.Mathlib.TextEquality.{Char-path}
use Prim.Native.Char.{code, Char}
use jjui.Prelude.{
  ℕ, String, ◌≡◌, refl, sym, ap, inl, inr, Bool, true, false, ◌||◌, Option, none, some, str_eq,
  ◌==◌, ==_iff, if◌then◌else◌, Bool-cases,
}

pub record FileName : Type 0 where
  pub path : String

abbrev pub new_file_name : String → FileName
new_file_name path = record { path = path }

abbrev pub file_is_empty : FileName → Bool
file_is_empty f = str_eq f.path ""

-- Concatenation, which also computes where only the first text is known.
abbrev pub append : String → String → String
append String.[] t = t
append (String.◌∷◌ c s) t = String.◌∷◌ c (append s t)

-- `strings.ReplaceAll` of one ASCII character, which is given by its code.
unfoldable pub replace_char : ℕ → String → String → String
replace_char old new String.[] = String.[]
replace_char old new (String.◌∷◌ c s) =
    let rest = replace_char old new s in
    if code c == old then append new rest else String.◌∷◌ c rest

unfoldable pub escaped : FileName → String
escaped f =
    append "file:\"" (append (replace_char b'"' "\\\"" (replace_char 92 "\\\\" f.path)) "\"")

unfoldable pub shell_escaped : FileName → String
shell_escaped f = append "'" (append (replace_char 39 "'\\''" f.path) "'")

-- How jj reads a quoted text, of which the quote is open: a backslash stands before a quote or a
-- backslash, and the text ends where the quote closes.
abbrev pub with_first : Char → Option String → Option String
with_first c o = elim o [ none ↦ none | some s ↦ some (String.◌∷◌ c s) ]

unfoldable pub read_quoted : Bool → String → Option String
read_quoted is_escaped String.[] = none
read_quoted true (String.◌∷◌ c s) =
    if code c == 34 || code c == 92 then with_first c (read_quoted false s) else none
read_quoted false (String.◌∷◌ c s) = elim (code c == 34) [
  | true ↦ if str_eq s "" then some "" else none
  | false ↦ elim (code c == 92) [
    | true ↦ read_quoted true s
    | false ↦ with_first c (read_quoted false s)
  ]
]

-- The rest of a text after a prefix.
abbrev pub after_prefix : String → String → Option String
after_prefix String.[] s = some s
after_prefix (String.◌∷◌ p ps) String.[] = none
after_prefix (String.◌∷◌ p ps) (String.◌∷◌ c s) =
    let rest = after_prefix ps s in if code p == code c then rest else none

unfoldable pub read_file_pattern : String → Option String
read_file_pattern s = elim (after_prefix "file:\"" s) [
  | none ↦ none
  | some rest ↦ read_quoted false rest
]

code_is : (d c : Char) → (code c == code d) ≡ true → c ≡ d
code_is d c e = Char-path c d ((==_iff (code c) (code d)).0 e)

read_quoted-escaped :
    (s : String)
    → read_quoted false (append (replace_char 34 "\\\"" (replace_char 92 "\\\\" s)) "\"") ≡ some s
unfolding read_quoted replace_char
read_quoted-escaped String.[] = refl
read_quoted-escaped (String.◌∷◌ c s) = elim (Bool-cases (code c == 92)) [
  | inl e ↦
      rw e (rw (read_quoted-escaped s) (ap (λ d. some (String.◌∷◌ d s)) (sym (code_is "\\" c e))))
  | inr e ↦ elim (Bool-cases (code c == 34)) [
    | inl f ↦
        rw (e, f)
          (rw (read_quoted-escaped s) (ap (λ d. some (String.◌∷◌ d s)) (sym (code_is "\"" c f))))
    | inr f ↦ rw (e, f, read_quoted, f, e, read_quoted-escaped s) refl
  ]
]

-- Escaping keeps the path: jj reads it back from the argument, whatever characters it has.
pub read_file_pattern-escaped : (f : FileName) → read_file_pattern (escaped f) ≡ some f.path
unfolding read_file_pattern escaped
read_file_pattern-escaped f = read_quoted-escaped f.path

pub data ShellState : Type 0 where
  plain quoted after_backslash : ShellState

-- How a shell reads one word of quoted parts and of characters after a backslash.
unfoldable pub read_word : ShellState → String → Option String
read_word plain String.[] = some ""
read_word quoted String.[] = none
read_word after_backslash String.[] = none
read_word plain (String.◌∷◌ c s) = elim (code c == 39) [
  | true ↦ read_word quoted s
  | false ↦ elim (code c == 92) [ true ↦ read_word after_backslash s | false ↦ none ]
]
read_word quoted (String.◌∷◌ c s) = elim (code c == 39) [
  | true ↦ read_word plain s
  | false ↦ with_first c (read_word quoted s)
]
read_word after_backslash (String.◌∷◌ c s) = with_first c (read_word plain s)

read_word-replace_char :
    (s : String) → read_word quoted (append (replace_char 39 "'\\''" s) "'") ≡ some s
unfolding read_word replace_char
read_word-replace_char String.[] = refl
read_word-replace_char (String.◌∷◌ c s) = elim (Bool-cases (code c == 39)) [
  | inl e ↦
      rw e (rw (read_word-replace_char s) (ap (λ d. some (String.◌∷◌ d s)) (sym (code_is "'" c e))))
  | inr e ↦ rw (e, read_word, e, read_word-replace_char s) refl
]

-- A shell reads the shell-escaped path as one word, which is the path.
pub read_word-shell_escaped : (f : FileName) → read_word plain (shell_escaped f) ≡ some f.path
unfolding shell_escaped read_word
read_word-shell_escaped f = read_word-replace_char f.path
