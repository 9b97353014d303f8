-- ===== src/Execute/Tests.antt =====
-- Two logs that are opened again, a pidfile, signals and waiting for a file.
use slapos_abilian_edge.Execute.{
  parse_signal, Words, already_running, Directories, Event, wait_events,
}
use slapos_abilian_edge.Execute.Start
use slapos_abilian_edge.Execute.Redirect
use slapos_abilian_edge.Execute.Start.{
  Effect, ignore_signal, unlink_at_exit, write_pid, wait_for, execute, Result, replaced,
  generic_exec, effective_signal,
}
use slapos_abilian_edge.Execute.StartLaws.{Begins, generic_exec-Begins}
use slapos_abilian_edge.Execute.Running.{Contains, already_running_iff}
use slapos_abilian_edge.Execute.Waiting.{Ended, wait_events_lem}
use slapos_abilian_edge.Execute.Redirect.{
  pipe_end, log_file, Fds, opened, Loop, Events, loop, handle, index_of, item, reopen, set_stdout,
  set_stderr,
}
use slapos_abilian_edge.Execute.Redirect.Channels.{Channels, Output, transfers, Promised}
use slapos_abilian_edge.Execute.Redirect.Laws.{no_more, one_more}
use slapos_abilian_edge.Execute.Redirect.Reopening.{Works}
use slapos_abilian_edge.Execute.Redirect.Refinement.{Implements, Keeps, loop-Keeps}
use slapos_abilian_edge.Base.{ℕ, suc, ◌≤◌, ◌≡◌, refl, ◌≢◌, ◌⊎◌, Bool, true, false, Option, none}
use slapos_abilian_edge.Base.{some, List, [], ◌∷◌, arith, ltb, if◌then◌else◌, length}
use slapos_abilian_edge.Base.Py.{value_error, os_error, Outcome, ok, raised, is_ok}
use slapos_abilian_edge.Base.Text.{Text, codes, text_eq, ℤ, pos}

-- A descriptor above all open ones.
abbrev above : Fds → ℕ
above [] = 3
above ((g, t) ∷ fds) = if ltb g (above fds) then above fds else suc g

above-opened : (n : ℕ) (fds : Fds) → above fds ≤ n → opened n fds ≡ none
unfolding opened
above-opened n [] h = refl
above-opened n ((g, t) ∷ fds) h = ground (arith, above-opened n fds, h)

abbrev disk : Redirect.System
disk = record { fresh = above; open_error = λ path fds. none; write = λ path d out. ok (length d) }

disk-Works : Works disk
disk-Works = record {
  new = λ fds. above-opened (above fds) fds (omega arith);
  opens = λ path fds. refl;
  writes = λ path d out. refl;
}

-- A disk that is full after two bytes, and one whose directory of logs is gone.
abbrev full : Redirect.System
full = record disk { write = λ path d out. ok (if ltb 2 (length d) then 2 else length d) }

abbrev gone : Redirect.System
gone = record disk { open_error = λ path fds. some 2 }

abbrev channels : Channels
channels = (6, "/log/out") ∷ (8, "/log/err") ∷ []

abbrev state : Loop
state = record {
  rfds = 4 ∷ 6 ∷ 8 ∷ [];
  logs = ("/log/out", 10) ∷ ("/log/err", 11) ∷ [];
  fds = (11, log_file "/log/err") ∷ (10, log_file "/log/out") ∷ [];
  written = [];
}

state-Implements : Implements 4 channels [] state
unfolding opened
state-Implements = record {
  pipes = 6 ∷ 8 ∷ [];
  watches = refl;
  matching = one_more 6 "/log/out" 10 _ _ _ (one_more 8 "/log/err" 11 _ _ _ no_more);
  logging = (refl, (refl, tt));
  distinct = ((refl, tt), (tt, tt));
  output = refl;
}

abbrev events : Events
events = (6, codes "a") ∷ (4, codes "0") ∷ (8, codes "b") ∷ (6, []) ∷ (8, codes "c") ∷ (8, []) ∷ []

abbrev promised : Promised
promised =
    (([], ("/log/out", codes "a") ∷ ("/log/err", codes "b") ∷ ("/log/err", codes "c") ∷ []), true)

abbrev map_written : Outcome (Loop × Bool) → Output
map_written (ok (s, b)) = s.written
map_written (raised e) = []

loop-Keeps_example : Keeps 4 (loop disk events state) promised
unfolding transfers
loop-Keeps_example =
    loop-Keeps disk disk-Works 4 events channels [] state promised state-Implements refl

partly_written :
    map_written (loop full ((6, codes "abc") ∷ []) state) ≡ ("/log/out", codes "ab") ∷ []
unfolding loop handle index_of item opened
partly_written = refl

not_opened : loop gone ((4, codes "0") ∷ []) state ≡ raised (os_error 2)
unfolding loop handle index_of reopen opened
not_opened = refl

abbrev running : Words
running = codes "/bin/sh" ∷ codes "/opt/run" ∷ codes "-x" ∷ []

abbrev arguments : Words
arguments = codes "/opt/run" ∷ []

already_running_example :
    (already_running arguments running ≡ true → Contains arguments running)
    × (Contains arguments running → already_running arguments running ≡ true)
already_running_example = already_running_iff arguments running

abbrev awaited : Directories
awaited = (("/srv", "a"), true) ∷ (("/srv", "b"), false) ∷ []

abbrev reads : List (List Event)
reads = (record { in_directory = "/srv"; name = "b"; appeared = true } ∷ []) ∷ []

wait_events_example :
    (wait_events reads awaited ≡ some [] → Ended reads awaited [])
    × (Ended reads awaited [] → wait_events reads awaited ≢ none)
wait_events_example = wait_events_lem reads awaited []

abbrev signals : Text → Option ℕ
signals name = if text_eq name (codes "SIGRTMIN") then some 34 else none

signal_runs : parse_signal signals (codes "RTMIN+1") ≡ ok (some (pos 35))
unfolding parse_signal text_eq
signal_runs = refl

signal_none : parse_signal signals (codes "_IGN") ≡ ok none
unfolding parse_signal
signal_none = refl

signal_unknown : parse_signal signals (codes "NONE") ≡ raised value_error
unfolding parse_signal text_eq
signal_unknown = refl

abbrev before : Loop
before = record { rfds = 4 ∷ []; logs = []; fds = []; written = [] }

-- One log for both outputs.
one_log : set_stderr 8 9 "/log/out" "/log/out" (set_stdout 6 7 "/log/out" (before, [])) ≡ (
  record { rfds = 4 ∷ 6 ∷ []; logs = ("/log/out", 7) ∷ []; fds = (7, pipe_end) ∷ []; written = [] },
  (7, 1) ∷ (1, 2) ∷ [],
)
one_log = refl

abbrev start_arguments : Start.Arguments
start_arguments = record {
  args = codes "/opt/run" ∷ [];
  extra_environ = [];
  wait_list = "/srv/a" ∷ [];
  pidfile = some "/run/pid";
  reserve_cpu = false;
  private_tmpfs = [];
  sig_ign = some (codes "RTMIN+1");
  redirect = none;
}

abbrev start_system : Start.System
start_system = record {
  signals = signals;
  pid = 100;
  argv = codes "-x" ∷ [];
  uid = 1;
  gid = 1;
  running = λ path. none;
  mkdir_error = λ path. 0;
}

generic_exec-Begins_example :
    ((n : ℤ) × (parse_signal signals (codes "RTMIN+1") ≡ ok (some n))
      × Begins n (generic_exec start_system start_arguments []).1)
    ⊎ ((is_ok (generic_exec start_system start_arguments []).0 ≡ false)
        × ((generic_exec start_system start_arguments []).1 ≡ []))
unfolding effective_signal
generic_exec-Begins_example =
    generic_exec-Begins start_system start_arguments (codes "RTMIN+1") refl

start_runs : generic_exec start_system start_arguments [] ≡ (
  ok replaced,
  ignore_signal (pos 35)
      ∷ unlink_at_exit "/run/pid"
      ∷ write_pid "/run/pid" 100
      ∷ wait_for ("/srv/a" ∷ [])
      ∷ execute (codes "/opt/run" ∷ codes "-x" ∷ []) []
      ∷ [],
)
unfolding generic_exec text_eq
start_runs = refl
