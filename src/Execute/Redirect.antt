-- ===== src/Execute/Redirect.antt =====
-- slapos/recipe/librecipe/execute.py: the loop of generic_exec that copies the output of a process
-- to log files, which it opens again on a signal.
pub mod Laws
pub mod Channels
pub mod Reopening
pub mod Refinement
mod Beginning
use slapos_abilian_edge.Base.{ℕ, zero, suc, String, Bool, true, false, Option, none, some, List, []}
use slapos_abilian_edge.Base.{◌∷◌, ◌++◌, str_eq, ◌==◌, if◌then◌else◌, take}
use slapos_abilian_edge.Base.Py.{value_error, index_error, os_error, Outcome, ok, raised, bind}
use slapos_abilian_edge.Base.Text.{Text}

-- What an open descriptor writes to.
pub data Target : Type 0 where
  pipe_end : Target
  log_file : String → Target

abbrev pub Fds : Type 0
Fds = List (ℕ × Target)

unfoldable pub opened : ℕ → Fds → Option Target
opened fd [] = none
opened fd ((g, t) ∷ fds) = if g == fd then some t else opened fd fds

unfoldable pub without : ℕ → Fds → Fds
without fd [] = []
without fd ((g, t) ∷ fds) = let rest = without fd fds in if g == fd then rest else (g, t) ∷ rest

-- `os.close`
abbrev pub close : ℕ → Fds → Outcome Fds
close fd fds = elim (opened fd fds) [ none ↦ raised (os_error 9) | some t ↦ ok (without fd fds) ]

abbrev pub Logs : Type 0
Logs = List (String × ℕ)

-- The variables of the loop, its open descriptors for writing, and what was written to log files.
pub record Loop : Type 0 where
  pub rfds : List ℕ
  pub logs : Logs
  pub fds : Fds
  pub written : List (String × Text)

-- `rfds.index(r)`
unfoldable pub index_of : ℕ → List ℕ → Option ℕ
index_of r [] = none
index_of r (x ∷ xs) =
    let rest = index_of r xs in
    if x == r then some 0 else elim rest [ none ↦ none | some i ↦ some (suc i) ]

-- `logs.pop(i)`: the entry, and the list without it.
unfoldable pub pop {ℓ} : {A : Type ℓ} → ℕ → List A → Option (A × List A)
pop i [] = none
pop zero (x ∷ xs) = some (x, xs)
pop (suc i) (x ∷ xs) = elim (pop i xs) [ none ↦ none | some (y, ys) ↦ some (y, x ∷ ys) ]

unfoldable pub item {ℓ} : {A : Type ℓ} → ℕ → List A → Option A
item i [] = none
item zero (x ∷ xs) = some x
item (suc i) (x ∷ xs) = item i xs

-- `setup(fd, path)` with the two ends of the new pipe.
abbrev pub setup : (r w : ℕ) → String → Loop → Loop
setup r w path s = record {
  rfds = s.rfds ++ (r ∷ []);
  logs = s.logs ++ ((path, w) ∷ []);
  fds = (w, pipe_end) ∷ s.fds;
  written = s.written;
}

-- The pipes for stdout and stderr that `redirect` asks for, given by their two ends, with what
-- `os.dup2` is asked to do in the process.
abbrev pub duplicate : (w fd : ℕ) → List (ℕ × ℕ)
duplicate w fd = if w == fd then [] else (w, fd) ∷ []

abbrev pub set_stdout : (r w : ℕ) → String → Loop × List (ℕ × ℕ) → Loop × List (ℕ × ℕ)
set_stdout r w stdout (s, dup2) =
    if str_eq stdout "" then (s, dup2) else (setup r w stdout s, dup2 ++ duplicate w 1)

abbrev pub set_stderr : (r w : ℕ) → String → String → Loop × List (ℕ × ℕ) → Loop × List (ℕ × ℕ)
set_stderr r w stdout stderr (s, dup2) =
    if str_eq stderr ""
    then (s, dup2)
    else if str_eq stderr stdout
    then (s, dup2 ++ ((1, 2) ∷ []))
    else (setup r w stderr s, dup2 ++ duplicate w 2)

-- At the end of the output: the log and the pipe are closed and forgotten.
abbrev pub forget : Option ((String × ℕ) × Logs) → Option (ℕ × List ℕ) → Loop → Outcome Loop
forget none o s = raised index_error
forget (some x) none s = raised index_error
forget (some (log, logs)) (some (r, rfds)) s =
    bind (close log.1 s.fds)
      λ fds. ok (record { rfds = rfds; logs = logs; fds = fds; written = s.written })

abbrev pub no_logs : Loop → Bool
no_logs s = elim s.logs [ [] ↦ true | x ∷ xs ↦ false ]

abbrev pub going_on : Outcome Loop → Outcome (Loop × Bool)
going_on m = bind m (λ s. ok (s, false))

abbrev pub next_round :
    Outcome (Loop × Bool) → (Loop → Outcome (Loop × Bool)) → Outcome (Loop × Bool)
next_round (raised e) k = raised e
next_round (ok (s', true)) k = ok (s', true)
next_round (ok (s', false)) k = k s'

abbrev pub Events : Type 0
Events = List (ℕ × Text)

-- The system: the number of a new descriptor, the error of `os.open` for a log, and how many bytes
-- `os.write` writes to a log, or its exception, after what was written before.
pub record System : Type 0 where
  pub fresh : Fds → ℕ
  pub open_error : String → Fds → Option ℕ
  pub write : String → Text → List (String × Text) → Outcome ℕ

module _ (O : System) where
  -- `os.open` for a log.
  unfoldable pub open_log : String → Fds → Outcome ℕ
  open_log path fds = elim (O.open_error path fds) [
    | none ↦ ok (O.fresh fds)
    | some e ↦ raised (os_error e)
  ]

  -- `os.write(fd, d)`: what was written may be a part of `d`.
  abbrev pub written_to : Option Target → Text → Loop → Outcome Loop
  written_to none d s = raised (os_error 9)
  written_to (some pipe_end) d s = ok s
  written_to (some (log_file path)) d s = bind (O.write path d s.written) λ n. ok (record {
    rfds = s.rfds;
    logs = s.logs;
    fds = s.fds;
    written = s.written ++ ((path, take n d) ∷ []);
  })

  -- The number of bytes that were written is not looked at.
  abbrev pub copy : Option (String × ℕ) → Text → Loop → Outcome Loop
  copy none d s = raised index_error
  copy (some (path, fd)) d s = written_to (opened fd s.fds) d s

  abbrev pub received : ℕ → Text → Loop → Outcome (Loop × Bool)
  received i [] s = bind (forget (pop i s.logs) (pop (suc i) s.rfds) s) λ s'. ok (s', no_logs s')
  received i (c ∷ d) s = going_on (copy (item i s.logs) (c ∷ d) s)

  -- `reopen`: the new list of logs.
  unfoldable pub reopen : Logs → Fds → Outcome (Logs × Fds)
  unfolding open_log
  reopen [] fds = ok ([], fds)
  reopen ((path, fd) ∷ logs) fds = bind (close fd fds) λ fds₁. bind (open_log path fds₁) λ new.
      bind (reopen logs ((new, log_file path) ∷ fds₁)) λ rest. ok ((path, new) ∷ rest.0, rest.1)

  abbrev pub reopened : Loop → Outcome Loop
  reopened s =
      bind (reopen s.logs s.fds)
        λ x. ok (record { rfds = s.rfds; logs = x.0; fds = x.1; written = s.written })

  -- The body of the loop for a descriptor that `select` found ready, with what was read from it;
  -- and whether the loop ends.
  unfoldable pub handle : ℕ → Text → Loop → Outcome (Loop × Bool)
  unfolding index_of reopen pop item opened without
  handle r d s = elim (index_of r s.rfds) as (λ _. Outcome (Loop × Bool)) [
    | none ↦ raised value_error
    | some zero ↦ going_on (reopened s)
    | some (suc i) ↦ received i d s
  ]

  -- The loop on what it reads, until the last log is closed.
  unfoldable pub loop : Events → Loop → Outcome (Loop × Bool)
  loop [] s = ok (s, false)
  loop ((r, d) ∷ events) s = next_round (handle r d s) (loop events)
