-- ===== src/Execute.antt =====
-- slapos/recipe/librecipe/execute.py: signals by name, the check of a pidfile, and the waiting for
-- files. Redirect is about the copying of a process's output.
pub mod Redirect
pub mod Start
mod StartLaws
mod Running
mod Waiting
mod Tests
use slapos_abilian_edge.Base.{ℕ, zero, suc, ◌+◌, ◌-◌, String, Bool, true, false, ◌&&◌, ◌||◌, Option}
use slapos_abilian_edge.Base.{none, some, List, [], ◌∷◌, ◌++◌, str_eq, ltb, ◌==◌, if◌then◌else◌}
use slapos_abilian_edge.Base.{length, take, drop}
use slapos_abilian_edge.Base.Py.{value_error, Outcome, ok, raised, bind}
use slapos_abilian_edge.Base.Text.{Text, codes, text_eq, split_first, ℤ, pos, negsuc, int}

-- The sum of a signal's number and an offset.
abbrev pub plus : ℕ → ℤ → ℤ
plus n (pos m) = pos (n + m)
plus n (negsuc m) = if ltb m n then pos (n - suc m) else negsuc (m - n)

abbrev pub offset : Option (Text × Text) → Outcome ℤ
offset none = ok (pos 0)
offset (some (a, b)) = elim (int b) [ none ↦ raised value_error | some n ↦ ok n ]

abbrev pub name_part : Option (Text × Text) → Text → Text
name_part none sig = sig
name_part (some (a, b)) sig = a

-- `getattr(signal, 'SIG' + a) + b`, unless the name begins with `_`; any exception is a ValueError.
-- `none` is Python's None, that the function gives for a name with `_`.
unfoldable pub signal_number : (Text → Option ℕ) → Text → ℤ → Outcome (Option ℤ)
signal_number signals [] b = raised value_error
signal_number signals (c ∷ a) b =
    if c == b'_'
    then ok none
    else elim (signals (codes "SIG" ++ (c ∷ a))) as (λ _. Outcome (Option ℤ)) [
      | none ↦ raised value_error
      | some n ↦ ok (some (plus n b))
    ]

-- `parse_signal`
unfoldable pub parse_signal : (Text → Option ℕ) → Text → Outcome (Option ℤ)
unfolding split_first int signal_number
parse_signal signals sig =
    bind (offset (split_first b'+' sig))
      (signal_number signals (name_part (split_first b'+' sig) sig))

abbrev pub Words : Type 0
Words = List Text

unfoldable pub same_words : Words → Words → Bool
unfolding text_eq
same_words [] [] = true
same_words [] (w ∷ ws) = false
same_words (v ∷ vs) [] = false
same_words (v ∷ vs) (w ∷ ws) = text_eq v w && same_words vs ws

-- The rounds `i` to `i + count - 1` of the search for the arguments in a command line.
unfoldable pub found_from : ℕ → ℕ → Words → Words → Bool
unfolding same_words
found_from zero i args running = false
found_from (suc count) i args running =
    same_words args (take (length args) (drop i running)) || found_from count (suc i) args running

-- The loop over `range(1 + len(running) - n)`, which is empty for a shorter command line.
unfoldable pub already_running : Words → Words → Bool
unfolding found_from
already_running args running = found_from (suc (length running) - length args) 0 args running

-- What becomes of the pidfile: the message with the number of the process, or the file with the
-- number of this one. `running` is the command line of the process of the old number, if both could
-- be read.
pub data Started : Type 0 where
  already_running_with : ℕ → Started
  pid_written : ℕ → Started

abbrev pub check_pidfile : Words → (pid : ℕ) → Option (ℕ × Words) → Started
check_pidfile args pid none = pid_written pid
check_pidfile args pid (some (old, running)) =
    if already_running args running then already_running_with old else pid_written pid

-- Whether the files that are waited for exist, by directory and name.
abbrev pub Directories : Type 0
Directories = List ((String × String) × Bool)

-- An event of inotify: a name in a watched directory, and whether it appeared (CREATE, MOVED_TO)
-- or vanished (DELETE, MOVED_FROM).
pub record Event : Type 0 where
  pub in_directory : String
  pub name : String
  pub appeared : Bool

abbrev pub same_file : String × String → Event → Bool
same_file f e = str_eq f.0 e.in_directory && str_eq f.1 e.name

-- `check_if_files_exists`, where `split` is `os.path.split`.
unfoldable pub check_files :
    (String → String × String) → (String → Bool) → List String → Directories
check_files split lexists [] = []
check_files split lexists (f ∷ files) = (split f, lexists f) ∷ check_files split lexists files

unfoldable pub all_files_exist : Directories → Bool
all_files_exist [] = true
all_files_exist ((f, exists) ∷ ds) = exists && all_files_exist ds

-- `directory[event.name] = ...` for a name that is waited for
unfoldable pub note_event : Event → Directories → Directories
note_event e [] = []
note_event e ((f, exists) ∷ ds) =
    let rest = note_event e ds in
    if same_file f e then (f, e.appeared) ∷ rest else (f, exists) ∷ rest

unfoldable pub note_events : List Event → Directories → Directories
unfolding note_event
note_events [] ds = ds
note_events (e ∷ es) ds = note_events es (note_event e ds)

-- The loop with inotify, on what each `read` gives: the reads that are left when it ends, or `none`
-- when it still waits after all of them.
unfoldable pub wait_events : List (List Event) → Directories → Option (List (List Event))
unfolding all_files_exist note_events
wait_events [] ds = if all_files_exist ds then some [] else none
wait_events (es ∷ reads) ds =
    let rest = wait_events reads (note_events es ds) in
    if all_files_exist ds then some (es ∷ reads) else rest

-- The loop with polling, on what `lexists` answers after each pause: the number of pauses.
unfoldable pub wait_polling :
    (String → String × String) → List String → List (String → Bool) → Directories → Option ℕ
unfolding all_files_exist check_files
wait_polling split files [] ds = if all_files_exist ds then some 0 else none
wait_polling split files (lexists ∷ later) ds =
    let rest = wait_polling split files later (check_files split lexists files) in
    if all_files_exist ds then some 0 else elim rest [ none ↦ none | some n ↦ some (suc n) ]
