-- ===== src/Execute/Start.antt =====
-- slapos/recipe/librecipe/execute.py: generic_exec up to the program that it starts, as a trace of
-- what it does to the system.
use slapos_abilian_edge.Execute.{
  parse_signal, Words, Started, already_running_with, pid_written, check_pidfile,
}
use slapos_abilian_edge.Base.{ℕ, String, Bool, true, false, ◌||◌, Option, none, some, List, [], ◌∷◌}
use slapos_abilian_edge.Base.{◌++◌, ◌==◌, if◌then◌else◌}
use slapos_abilian_edge.Base.Py.{type_error, os_error, plain, Outcome, ok, raised, Py, pure, raise}
use slapos_abilian_edge.Base.Py.{lift, run_on, ◌>>=◌, ◌>>◌}
use slapos_abilian_edge.Base.Text.{Text, codes, ℤ, pos, negsuc, show}

-- `redirect`
pub record Redirection : Type 0 where
  pub signal : Text
  pub stdout : String
  pub stderr : String

-- The arguments of the function, without those that are lists of words.
pub record Arguments : Type 0 where
  pub args : Words
  pub extra_environ : List (Text × Text)
  pub wait_list : List String
  pub pidfile : Option String
  pub reserve_cpu : Bool
  pub private_tmpfs : List (Text × String)
  pub sig_ign : Option Text
  pub redirect : Option Redirection

-- What is done to the system, in order.
pub data Effect : Type 0 where
  ignore_signal : ℤ → Effect
  unlink_at_exit : String → Effect
  write_pid : String → ℕ → Effect
  reserve : ℕ → Effect
  wait_for : List String → Effect
  unshare : Effect
  write_proc : String → Text → Effect
  make_directory : String → Effect
  mount : Text → String → Effect
  default_signal : ℤ → Effect
  start_copied : Words → List (Text × Text) → Effect
  handle_signal : ℤ → Effect
  execute : Words → List (Text × Text) → Effect

-- The system: the numbers of signals, this process with its arguments, user and group, what the
-- pidfile tells, and the errors of `os.mkdir`, 0 for none.
pub record System : Type 0 where
  pub signals : Text → Option ℕ
  pub pid : ℕ
  pub argv : Words
  pub uid : ℕ
  pub gid : ℕ
  pub running : String → Option (ℕ × Words)
  pub mkdir_error : String → ℕ

abbrev pub same_number : ℤ → ℤ → Bool
same_number (pos n) (pos m) = n == m
same_number (negsuc n) (negsuc m) = n == m
same_number _ _ = false

-- How the function ends: with a message, as another program, or with the loop of Redirect.
pub data Result : Type 0 where
  already_running_message : ℕ → Result
  replaced : Result
  redirected : Result

abbrev pub Trace : Type 0
Trace = List Effect

abbrev pub tell : Effect → Py Trace (Unit {0})
tell effect trace = (ok tt, trace ++ (effect ∷ []))

abbrev pub tells : List Effect → Py Trace (Unit {0})
tells effects trace = (ok tt, trace ++ effects)

-- `if redirect and not sig_ign: sig_ign = "USR1"`
unfoldable pub effective_signal : Arguments → Option Text
effective_signal a = elim a.sig_ign as (λ _. Option Text) [
  | some (c ∷ s) ↦ some (c ∷ s)
  | _ ↦ elim a.redirect as (λ _. Option Text) [ none ↦ none | some r ↦ some (codes "USR1") ]
]

module _ (Y : System) (a : Arguments) where
  abbrev pub ignored : Option ℤ → Py Trace (Option ℤ)
  ignored none = raise type_error
  ignored (some n) = tell (ignore_signal n) >> pure (some n)

  -- The signal is parsed and ignored.
  unfoldable pub ignore : Option Text → Py Trace (Option ℤ)
  unfolding parse_signal
  ignore none = pure none
  ignore (some s) = lift (parse_signal Y.signals s) >>= ignored

  abbrev pub started : String → Started → Py Trace (Option ℕ)
  started path (already_running_with old) = pure (some old)
  started path (pid_written pid) =
      tells (unlink_at_exit path ∷ write_pid path pid ∷ []) >> pure none

  -- The pidfile: the number of a process that already runs, if any.
  unfoldable pub take_pidfile : Option String → Py Trace (Option ℕ)
  take_pidfile none = pure none
  take_pidfile (some path) = started path (check_pidfile a.args Y.pid (Y.running path))

  abbrev pub id_map : ℕ → Text
  id_map n = show n ++ (b' ' ∷ (show n ++ codes " 1"))

  unfoldable pub mounts : List (Text × String) → Py Trace (Unit {0})
  mounts [] = pure tt
  mounts ((size, path) ∷ rest) =
      let next = mounts rest in
      let e = Y.mkdir_error path in
      if e == 0 || e == 17
      then tells (make_directory path ∷ mount (codes "size=" ++ size) path ∷ []) >> next
      else raise (os_error e)

  -- The first part of `preexec_fn`.
  unfoldable pub private_mounts : List (Text × String) → Py Trace (Unit {0})
  unfolding mounts show
  private_mounts [] = pure tt
  private_mounts (m ∷ ms) =
      tells (
        unshare
        ∷ write_proc "/proc/self/setgroups" (codes "deny")
        ∷ write_proc "/proc/self/uid_map" (id_map Y.uid)
        ∷ write_proc "/proc/self/gid_map" (id_map Y.gid)
        ∷ [])
      >> mounts (m ∷ ms)

  abbrev pub reservation : Bool → Trace
  reservation true = reserve Y.pid ∷ []
  reservation false = []

  abbrev pub waiting : List String → Trace
  waiting [] = []
  waiting (f ∷ fs) = wait_for (f ∷ fs) ∷ []

  -- An exception in the new process becomes one of `subprocess` in this one.
  abbrev pub of_child : Outcome (Unit {0}) × Trace → Outcome (Unit {0}) × Trace
  of_child (ok u, trace) = (ok u, trace)
  of_child (raised e, trace) = (raised (plain "SubprocessError"), trace)

  -- The second part of `preexec_fn`: the new process ignores the signal that it is to be sent.
  abbrev pub child_signals : Option ℤ → Option ℤ → Py Trace (Unit {0})
  child_signals none sig = raise type_error
  child_signals (some n) none = tell (default_signal n) >> raise type_error
  child_signals (some n) (some m) =
      if same_number n m then pure tt else tells (default_signal n ∷ ignore_signal m ∷ [])

  abbrev pub handled : Option ℤ → Py Trace (Unit {0})
  handled none = raise type_error
  handled (some n) = tell (handle_signal n)

  -- The program with the arguments of this process, after everything else.
  unfoldable pub run_program : Option ℤ → Option Redirection → Py Trace Result
  unfolding private_mounts parse_signal
  run_program ig none =
      (private_mounts a.private_tmpfs >> tell (execute (a.args ++ Y.argv) a.extra_environ))
      >> pure replaced
  run_program ig (some r) = lift (parse_signal Y.signals r.signal) >>= λ sig trace.
      run_on {B = Result}
        (of_child ((private_mounts a.private_tmpfs >> child_signals ig sig) trace))
        (λ _.
          (tell (start_copied (a.args ++ Y.argv) a.extra_environ) >> handled ig) >> pure redirected)

  abbrev pub after_pidfile : Option ℤ → Option ℕ → Py Trace Result
  after_pidfile ig (some old) = pure (already_running_message old)
  after_pidfile ig none =
      (tells (reservation a.reserve_cpu) >> tells (waiting a.wait_list))
      >> run_program ig a.redirect

  -- `generic_exec`
  unfoldable pub generic_exec : Py Trace Result
  unfolding effective_signal ignore take_pidfile run_program
  generic_exec = ignore (effective_signal a) >>= λ ig. take_pidfile a.pidfile >>= after_pidfile ig
