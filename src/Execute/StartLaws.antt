-- ===== src/Execute/StartLaws.antt =====
-- Lemmas on the beginning of generic_exec, slapos/recipe/librecipe/execute.py.
use slapos_abilian_edge.Execute.{
  parse_signal, Started, already_running_with, pid_written, check_pidfile,
}
use slapos_abilian_edge.Execute.Start.{
  Redirection, Arguments, Effect, ignore_signal, unlink_at_exit, write_pid, make_directory, mount,
  default_signal, handle_signal, start_copied, execute, System, Result, already_running_message,
  replaced, redirected, Trace, tell, tells, effective_signal, ignored, ignore, started,
  take_pidfile, mounts, private_mounts, reservation, waiting, of_child, child_signals, handled,
  run_program, after_pidfile, generic_exec, same_number,
}
use slapos_abilian_edge.Base.{ℕ, String, ◌≡◌, refl, ap, ◌⊎◌, inl, inr, Bool, true, false, ◌||◌}
use slapos_abilian_edge.Base.{Option, none, some, List, [], ◌∷◌, ◌++◌, ◌==◌, if◌then◌else◌}
use slapos_abilian_edge.Base.Py.{Exc, type_error, os_error, Outcome, ok, raised, is_ok, Py, pure}
use slapos_abilian_edge.Base.Py.{raise, lift, run_on, ◌>>=◌, ◌>>◌}
use slapos_abilian_edge.Base.Text.{Text, codes, ℤ}

-- A trace whose first effect ignores the signal.
abbrev pub Begins : ℤ → Trace → Type 0
Begins n trace = (rest : Trace) × (trace ≡ ignore_signal n ∷ rest)

-- Code that keeps the beginning of the trace.
abbrev pub Keeping : {A : Type 0} → Py Trace A → Type 0
Keeping m = (n : ℤ) (trace : Trace) → Begins n trace → Begins n (m trace).1

module _ {A B : Type 0} where
  run_on-Begins :
      (n : ℤ) (q : Outcome A × Trace) (f : A → Py Trace B)
      → Begins n q.1
      → ((x : A) → Keeping (f x))
      → Begins n (run_on q f).1
  run_on-Begins n (ok x, trace) f h k = k x n trace h
  run_on-Begins n (raised e, trace) f h k = h

module _ {A B : Type 0} where
  bind-Keeping :
      (m : Py Trace A) (f : A → Py Trace B)
      → Keeping m
      → ((x : A) → Keeping (f x))
      → Keeping (m >>= f)
  bind-Keeping m f h k n trace b = run_on-Begins n (m trace) f (h n trace b) k

tells-Keeping : (effects : List Effect) → Keeping (tells effects)
tells-Keeping effects n trace (rest, e) = (rest ++ effects, ap (λ t. t ++ effects) e)

pure-Keeping : {A : Type 0} (x : A) → Keeping (pure x)
pure-Keeping x n trace b = b

raise-Keeping : (A : Type 0) (e : Exc) → Keeping (raise {S = Trace} {A = A} e)
raise-Keeping A e n trace b = b

lift-Keeping : {A : Type 0} (r : Outcome A) → Keeping (lift r)
lift-Keeping r n trace b = b

module _ (Y : System) (a : Arguments) where
  mounts-Keeping : (ms : List (Text × String)) → Keeping (mounts Y a ms)
  unfolding mounts
  mounts-Keeping [] = pure-Keeping tt
  mounts-Keeping ((size, path) ∷ ms) =
      go (Y.mkdir_error path == 0 || Y.mkdir_error path == 17) (mounts-Keeping ms)
    where
      made : Trace
      made = make_directory path ∷ mount (codes "size=" ++ size) path ∷ []

      go :
          (b : Bool)
          → Keeping (mounts Y a ms)
          → Keeping
              (if b then tells made >> mounts Y a ms else raise (os_error (Y.mkdir_error path)))
      go true next = bind-Keeping (tells made) (λ _. mounts Y a ms) (tells-Keeping made) (λ _. next)
      go false next = raise-Keeping (Unit {0}) (os_error (Y.mkdir_error path))

  private_mounts-Keeping : (ms : List (Text × String)) → Keeping (private_mounts Y a ms)
  unfolding private_mounts
  private_mounts-Keeping [] = pure-Keeping tt
  private_mounts-Keeping (m ∷ ms) =
      bind-Keeping (tells _) (λ _. mounts Y a (m ∷ ms)) (tells-Keeping _)
        (λ _. mounts-Keeping (m ∷ ms))

  child_signals-Keeping : (ig sig : Option ℤ) → Keeping (child_signals Y a ig sig)
  child_signals-Keeping none sig = raise-Keeping (Unit {0}) type_error
  child_signals-Keeping (some n) none =
      bind-Keeping {B = Unit {0}} (tell (default_signal n)) (λ _. raise type_error)
        (tells-Keeping (default_signal n ∷ [])) (λ _. raise-Keeping (Unit {0}) type_error)
  child_signals-Keeping (some n) (some m) = go (same_number n m)
    where
      go :
          (b : Bool)
          → Keeping (if b then pure tt else tells (default_signal n ∷ ignore_signal m ∷ []))
      go true = pure-Keeping tt
      go false = tells-Keeping (default_signal n ∷ ignore_signal m ∷ [])

  handled-Keeping : (ig : Option ℤ) → Keeping (handled Y a ig)
  handled-Keeping none = raise-Keeping (Unit {0}) type_error
  handled-Keeping (some n) = tells-Keeping (handle_signal n ∷ [])

  of_child-Begins :
      (n : ℤ) (q : Outcome (Unit {0}) × Trace) → Begins n q.1 → Begins n (of_child Y a q).1
  of_child-Begins n (ok u, trace) b = b
  of_child-Begins n (raised e, trace) b = b

  run_program-Keeping : (ig : Option ℤ) (r : Option Redirection) → Keeping (run_program Y a ig r)
  unfolding run_program
  run_program-Keeping ig none n trace b =
      bind-Keeping
        (private_mounts Y a a.private_tmpfs >> tell (execute (a.args ++ Y.argv) a.extra_environ))
        (λ _. pure replaced)
        (bind-Keeping (private_mounts Y a a.private_tmpfs)
          (λ _. tell (execute (a.args ++ Y.argv) a.extra_environ))
          (private_mounts-Keeping a.private_tmpfs)
          (λ _. tells-Keeping (execute (a.args ++ Y.argv) a.extra_environ ∷ [])))
        (λ _. pure-Keeping replaced) n trace b
  run_program-Keeping ig (some r) n trace b =
      run_on-Begins n (parse_signal Y.signals r.signal, trace) _ b
        λ sig m t c.
          run_on-Begins m
            (of_child Y a ((private_mounts Y a a.private_tmpfs >> child_signals Y a ig sig) t))
            (λ _.
              (tell (start_copied (a.args ++ Y.argv) a.extra_environ) >> handled Y a ig)
              >> pure redirected)
            (of_child-Begins m _ (
              bind-Keeping (private_mounts Y a a.private_tmpfs) (λ _. child_signals Y a ig sig)
                (private_mounts-Keeping a.private_tmpfs) (λ _. child_signals-Keeping ig sig) m t c))
            (λ _.
              bind-Keeping
                (tell (start_copied (a.args ++ Y.argv) a.extra_environ) >> handled Y a ig)
                (λ _. pure redirected)
                (bind-Keeping (tell (start_copied (a.args ++ Y.argv) a.extra_environ))
                  (λ _. handled Y a ig)
                  (tells-Keeping (start_copied (a.args ++ Y.argv) a.extra_environ ∷ []))
                  (λ _. handled-Keeping ig))
                (λ _. pure-Keeping redirected))

  started-Keeping : (path : String) (s : Started) → Keeping (started Y a path s)
  started-Keeping path (already_running_with old) = pure-Keeping (some old)
  started-Keeping path (pid_written pid) =
      let done = unlink_at_exit path ∷ write_pid path pid ∷ [] in
      bind-Keeping {B = Option ℕ} (tells done) (λ _. pure none) (tells-Keeping done)
        (λ _. pure-Keeping {A = Option ℕ} none)

  take_pidfile-Keeping : (pidfile : Option String) → Keeping (take_pidfile Y a pidfile)
  unfolding take_pidfile
  take_pidfile-Keeping none = pure-Keeping {A = Option ℕ} none
  take_pidfile-Keeping (some path) =
      started-Keeping path (check_pidfile a.args Y.pid (Y.running path))

  after_pidfile-Keeping : (ig : Option ℤ) (old : Option ℕ) → Keeping (after_pidfile Y a ig old)
  after_pidfile-Keeping ig (some old) = pure-Keeping (already_running_message old)
  after_pidfile-Keeping ig none =
      bind-Keeping (tells (reservation Y a a.reserve_cpu) >> tells (waiting Y a a.wait_list))
        (λ _. run_program Y a ig a.redirect)
        (bind-Keeping (tells (reservation Y a a.reserve_cpu)) (λ _. tells (waiting Y a a.wait_list))
          (tells-Keeping (reservation Y a a.reserve_cpu))
          (λ _. tells-Keeping (waiting Y a a.wait_list)))
        (λ _. run_program-Keeping ig a.redirect)

  -- With a signal that is to be ignored, nothing is done to the system, and an exception is raised,
  -- or the first thing done is to ignore it, with the number that its name stands for: so before
  -- the pidfile tells of this process and before another program is started.
  pub generic_exec-Begins :
      (s : Text)
      → effective_signal a ≡ some s
      → ((n : ℤ) × (parse_signal Y.signals s ≡ ok (some n)) × Begins n (generic_exec Y a []).1)
        ⊎ ((is_ok (generic_exec Y a []).0 ≡ false) × ((generic_exec Y a []).1 ≡ []))
  unfolding generic_exec ignore
  generic_exec-Begins s h = rw h (go (parse_signal Y.signals s) refl)
    where
      rest : Option ℤ → Py Trace Result
      rest ig = take_pidfile Y a a.pidfile >>= after_pidfile Y a ig

      go :
          (p : Outcome (Option ℤ))
          → parse_signal Y.signals s ≡ p
          → ((n : ℤ) × (parse_signal Y.signals s ≡ ok (some n))
              × Begins n (((lift p >>= ignored Y a) >>= rest) []).1)
            ⊎ ((is_ok (((lift p >>= ignored Y a) >>= rest) []).0 ≡ false)
                × ((((lift p >>= ignored Y a) >>= rest) []).1 ≡ []))
      go (raised e) k = inr (refl, refl)
      go (ok none) k = inr (refl, refl)
      go (ok (some n)) k = inl (
        n,
        k,
        bind-Keeping (take_pidfile Y a a.pidfile) (after_pidfile Y a (some n))
            (take_pidfile-Keeping a.pidfile) (after_pidfile-Keeping (some n)) n
            (ignore_signal n ∷ []) ([], refl),
      )
