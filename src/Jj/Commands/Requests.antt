-- ===== src/Jj/Commands/Requests.antt =====
-- What the commands on selected revisions and on files ask jj for (internal/jj/commands.go).
use jjui.Jj.Commands.Changes.{
  new, new_insert, describe, abandon, squash, split, restore, absorb, rebase, rebase_insert, revert,
  revert_insert, duplicate, duplicate_insert,
}
use jjui.Jj.Commands.Reading.{
  Arg, option, switch, operand, takes_value, read_lone, read_args, paths, switch_if, Reads, nothing,
  lone, valued_by, read_args-Reads, Reads-prefixed, Reads-flag_if, Reads-last_flag,
  Reads-last_prefixed, Reads-escaped_files,
}
use jjui.Jj.Files.{FileName, read_file_pattern}
use jjui.Jj.Selections.{SelectedRevisions, get_ids, as_args, as_prefixed_args}
use jjui.Prelude.{String, ◌≡◌, refl, Bool, true, none, some, List, [], ◌∷◌, ◌++◌, map}

-- The calls of the builders.
pub data Request : Type 0 where
  creating : SelectedRevisions → Request
  inserting : (insert_after insert_before : SelectedRevisions) → Request
  describing : SelectedRevisions → Request
  abandoning : SelectedRevisions → (ignore_immutable : Bool) → Request
  squashing :
      SelectedRevisions
      → String
      → List FileName
      → (keep_emptied use_destination_message interactive ignore_immutable : Bool) → Request
  splitting : String → List FileName → (parallel interactive : Bool) → Request
  restoring : String → List FileName → (interactive : Bool) → Request
  absorbing : String → List String → List FileName → Request
  rebasing :
      SelectedRevisions
      → (source_prefix to target : String) → (skip_emptied ignore_immutable : Bool) → Request
  rebasing_between :
      SelectedRevisions
      → (source_prefix insert_after insert_before : String) → (skip_emptied ignore_immutable : Bool)
      → Request
  reverting : SelectedRevisions → (to source target : String) → Request
  reverting_between : SelectedRevisions → (insert_after insert_before : String) → Request
  duplicating : SelectedRevisions → (to target : String) → Request
  duplicating_between : SelectedRevisions → (insert_after insert_before : String) → Request

abbrev pub args_of : Request → List String
args_of (creating s) = new s
args_of (inserting a b) = new_insert a b
args_of (describing s) = describe s
args_of (abandoning s ii) = abandon s ii
args_of (squashing s to fs ke um ia ii) = squash s to fs ke um ia ii
args_of (splitting r fs p ia) = split r fs p ia
args_of (restoring r fs ia) = restore r fs ia
args_of (absorbing r into fs) = absorb r into fs
args_of (rebasing s p to t se ii) = rebase s p to t se ii
args_of (rebasing_between s p a b se ii) = rebase_insert s p a b se ii
args_of (reverting s to p t) = revert s to p t
args_of (reverting_between s a b) = revert_insert s a b
args_of (duplicating s to t) = duplicate s to t
args_of (duplicating_between s a b) = duplicate_insert s a b

-- Each revision of a selection under a flag.
abbrev pub each : String → SelectedRevisions → List Arg
each flag s = map (option flag) (get_ids s)

-- The revisions, the destination, the switches that are on, and the paths.
abbrev pub asked : Request → List Arg
asked (creating s) = operand "new" ∷ each "-r" s
asked (inserting a b) = operand "new" ∷ each "--insert-after" a ++ each "--insert-before" b
asked (describing s) = operand "describe" ∷ switch "--editor" ∷ each "-r" s
asked (abandoning s ii) =
    operand "abandon" ∷ switch "--retain-bookmarks" ∷ each "-r" s
    ++ switch_if ii "--ignore-immutable"
asked (squashing s to fs ke um ia ii) =
    operand "squash" ∷ each "--from" s
    ++ (option "--into" to ∷ switch_if ke "--keep-emptied"
        ++ (switch_if um "--use-destination-message"
            ++ (switch_if ia "--interactive" ++ (switch_if ii "--ignore-immutable" ++ paths fs))))
asked (splitting r fs p ia) =
    operand "split" ∷ option "-r" r ∷ switch_if p "--parallel"
    ++ (switch_if ia "--interactive" ++ paths fs)
asked (restoring r fs ia) =
    operand "restore" ∷ option "-c" r ∷ switch_if ia "--interactive" ++ paths fs
asked (absorbing r into fs) =
    operand "absorb" ∷ option "--from" r ∷ option "--color" "never" ∷ map (option "--into") into
    ++ paths fs
asked (rebasing s p to t se ii) =
    operand "rebase" ∷ each p s
    ++ (option t to ∷ switch_if ii "--ignore-immutable" ++ switch_if se "--skip-emptied")
asked (rebasing_between s p a b se ii) =
    operand "rebase" ∷ each p s
    ++ (option "--insert-before" b ∷ option "--insert-after" a ∷ switch_if ii "--ignore-immutable"
        ++ switch_if se "--skip-emptied")
asked (reverting s to p t) = operand "revert" ∷ each p s ++ option t to ∷ []
asked (reverting_between s a b) =
    operand "revert" ∷ each "-r" s ++ option "--insert-before" b ∷ option "--insert-after" a ∷ []
asked (duplicating s to t) = operand "duplicate" ∷ each "-r" s ++ option t to ∷ []
asked (duplicating_between s a b) =
    operand "duplicate" ∷ each "-r" s ++ option "--insert-before" b ∷ option "--insert-after" a ∷ []

-- The flags that the caller gives are options with a value.
abbrev pub IsWellFlagged : Request → Type 0
IsWellFlagged (rebasing s p to t se ii) = (takes_value p ≡ true) × (takes_value t ≡ true)
IsWellFlagged (rebasing_between s p a b se ii) = takes_value p ≡ true
IsWellFlagged (reverting s to p t) = (takes_value p ≡ true) × (takes_value t ≡ true)
IsWellFlagged (duplicating s to t) = takes_value t ≡ true
IsWellFlagged _ = Unit

Reads-args_of : (r : Request) → IsWellFlagged r → Reads (args_of r) (asked r)
unfolding new new_insert describe abandon squash split restore absorb rebase rebase_insert revert
    revert_insert duplicate duplicate_insert as_args as_prefixed_args get_ids takes_value read_lone
    read_file_pattern
Reads-args_of (creating s) w =
    lone "new" (operand "new") refl refl (Reads-last_prefixed "-r" (get_ids s) refl)
Reads-args_of (inserting a b) w = lone "new" (operand "new") refl refl (
    Reads-prefixed "--insert-after" (get_ids a) refl
      (Reads-last_prefixed "--insert-before" (get_ids b) refl))
Reads-args_of (describing s) w =
    lone "describe" (operand "describe") refl refl
      (lone "--editor" (switch "--editor") refl refl (Reads-last_prefixed "-r" (get_ids s) refl))
Reads-args_of (abandoning s ii) w = lone "abandon" (operand "abandon") refl refl (
    lone "--retain-bookmarks" (switch "--retain-bookmarks") refl refl
      (Reads-prefixed "-r" (get_ids s) refl (Reads-last_flag ii "--ignore-immutable" refl refl)))
Reads-args_of (squashing s to fs ke um ia ii) w = lone "squash" (operand "squash") refl refl (
    Reads-prefixed "--from" (get_ids s) refl (
      valued_by "--into" to refl (
        Reads-flag_if ke "--keep-emptied" refl refl (
          Reads-flag_if um "--use-destination-message" refl refl (
            Reads-flag_if ia "--interactive" refl refl
              (Reads-flag_if ii "--ignore-immutable" refl refl (Reads-escaped_files fs)))))))
Reads-args_of (splitting r fs p ia) w = lone "split" (operand "split") refl refl (
    valued_by "-r" r refl (
      Reads-flag_if p "--parallel" refl refl
        (Reads-flag_if ia "--interactive" refl refl (Reads-escaped_files fs))))
Reads-args_of (restoring r fs ia) w =
    lone "restore" (operand "restore") refl refl
      (valued_by "-c" r refl (Reads-flag_if ia "--interactive" refl refl (Reads-escaped_files fs)))
Reads-args_of (absorbing r into fs) w = lone "absorb" (operand "absorb") refl refl (
    valued_by "--from" r refl (
      valued_by "--color" "never" refl
        (Reads-prefixed "--into" into refl (Reads-escaped_files fs))))
Reads-args_of (rebasing s p to t se ii) w = lone "rebase" (operand "rebase") refl refl (
    Reads-prefixed p (get_ids s) w.0 (
      valued_by t to w.1 (
        Reads-flag_if ii "--ignore-immutable" refl refl
          (Reads-last_flag se "--skip-emptied" refl refl))))
Reads-args_of (rebasing_between s p a b se ii) w = lone "rebase" (operand "rebase") refl refl (
    Reads-prefixed p (get_ids s) w (
      valued_by "--insert-before" b refl (
        valued_by "--insert-after" a refl (
          Reads-flag_if ii "--ignore-immutable" refl refl
            (Reads-last_flag se "--skip-emptied" refl refl)))))
Reads-args_of (reverting s to p t) w =
    lone "revert" (operand "revert") refl refl
      (Reads-prefixed p (get_ids s) w.0 (valued_by t to w.1 nothing))
Reads-args_of (reverting_between s a b) w = lone "revert" (operand "revert") refl refl (
    Reads-prefixed "-r" (get_ids s) refl
      (valued_by "--insert-before" b refl (valued_by "--insert-after" a refl nothing)))
Reads-args_of (duplicating s to t) w =
    lone "duplicate" (operand "duplicate") refl refl
      (Reads-prefixed "-r" (get_ids s) refl (valued_by t to w nothing))
Reads-args_of (duplicating_between s a b) w = lone "duplicate" (operand "duplicate") refl refl (
    Reads-prefixed "-r" (get_ids s) refl
      (valued_by "--insert-before" b refl (valued_by "--insert-after" a refl nothing)))

-- Where the flags that a caller gives rebase, revert and duplicate for their source and target are
-- options with a value, jj reads the arguments of new, new insert, describe, abandon, squash, split,
-- restore, absorb, rebase, rebase insert, revert, revert insert, duplicate and duplicate insert as
-- what is asked for: the selected revisions under their flag and in order, the destination, the
-- switches that are on, and the paths themselves.
pub read_args-args_of :
    (r : Request) → IsWellFlagged r → read_args none (args_of r) ≡ some (asked r)
read_args-args_of r w = read_args-Reads (Reads-args_of r w)
