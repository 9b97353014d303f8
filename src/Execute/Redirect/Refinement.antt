-- ===== src/Execute/Redirect/Refinement.antt =====
-- The loop of generic_exec against its description by channels.
use slapos_abilian_edge.Execute.Redirect.{
  System, log_file, Fds, opened, without, Logs, Loop, index_of, pop, reopened, going_on, received,
  handle, Events, next_round, loop,
}
use slapos_abilian_edge.Execute.Redirect.Channels.{
  Channels, Output, path_of, drop_channel, Promised, nothing_left, transferred, transfer, transfers,
  continue,
}
use slapos_abilian_edge.Execute.Redirect.Laws.{
  Matching, no_more, IsOpen, Logging, Distinct, Found, found, Taken-All, Taken-Apart,
  Logging-without,
}
use slapos_abilian_edge.Execute.Redirect.Reopening.{Works, reopen-Opened, close-opened}
use slapos_abilian_edge.Base.{ℕ, suc, String, ◌≡◌, refl, sym, ap, ◌∙◌, ◌⊎◌, inl, inr, Bool, true}
use slapos_abilian_edge.Base.{false, Option, none, some, List, [], ◌∷◌, ◌++◌, ◌==◌, Bool-cases}
use slapos_abilian_edge.Base.{some_injective, length, take}
use slapos_abilian_edge.Base.Py.{Outcome, ok}
use slapos_abilian_edge.Base.Text.{Text}

-- The state of the loop for channels and an output: the trigger is watched before the pipes, every
-- log is open on its own descriptor, and the output is what was written.
pub record Implements (trigger : ℕ) (ch : Channels) (out : Output) (s : Loop) : Type 0 where
  pub pipes : List ℕ
  pub watches : s.rfds ≡ trigger ∷ pipes
  pub matching : Matching ch pipes s.logs
  pub logging : Logging s.fds s.logs
  pub distinct : Distinct s.logs
  pub output : s.written ≡ out

-- A round, or the whole loop, does what is promised.
pub record Keeps (trigger : ℕ) (m : Outcome (Loop × Bool)) (promised : Promised) : Type 0 where
  pub state : Loop
  pub returns : m ≡ ok (state, promised.1)
  pub implements : Implements trigger promised.0.0 promised.0.1 state

Logging-IsOpen : (fds : Fds) (logs : Logs) → Logging fds logs → IsOpen fds logs
Logging-IsOpen fds [] l = tt
Logging-IsOpen fds (x ∷ logs) l = ((λ e. cc), Logging-IsOpen fds logs l.1)

Keeps-eq :
    (trigger : ℕ) (m n : Outcome (Loop × Bool)) (promised : Promised)
    → m ≡ n
    → Keeps trigger n promised
    → Keeps trigger m promised
Keeps-eq trigger m n promised e q = record {
  state = q.state;
  returns = e ∙ q.returns;
  implements = q.implements;
}

no_logs-nothing_left :
    (ch : Channels) (ps : List ℕ) (logs : Logs)
    → Matching ch ps logs
    → (elim logs as (λ _. Bool) [ [] ↦ true | x ∷ xs ↦ false ]) ≡ nothing_left ch
no_logs-nothing_left [] [] [] no_more = refl
no_logs-nothing_left (x ∷ ch) (p ∷ ps) (l ∷ logs) m = refl
no_logs-nothing_left [] [] (l ∷ logs) m = elim m [ ]
no_logs-nothing_left [] (p ∷ ps) logs m = elim m [ ]
no_logs-nothing_left (x ∷ ch) [] logs m = elim m [ ]
no_logs-nothing_left (x ∷ ch) (p ∷ ps) [] m = elim m [ ]

take-length : (d : Text) → take (length d) d ≡ d
take-length [] = refl
take-length (c ∷ d) = ap (λ t. c ∷ t) (take-length d)

module _ (O : System) (works : Works O) where
  trigger-Keeps :
      (trigger : ℕ) (ch : Channels) (out : Output) (s : Loop)
      → Implements trigger ch out s
      → Keeps trigger (going_on (reopened O s)) ((ch, out), false)
  trigger-Keeps trigger ch out s i =
      let o =
        reopen-Opened O works s.logs s.fds (Logging-IsOpen s.fds s.logs i.logging) i.distinct in
      record {
        state = record {
          rfds = s.rfds;
          logs = o.logs_after;
          fds = o.fds_after;
          written = s.written;
        };
        returns = rw o.returns refl;
        implements = record {
          pipes = i.pipes;
          watches = i.watches;
          matching = o.matching ch i.pipes i.matching;
          logging = o.logging;
          distinct = o.distinct;
          output = i.output;
        };
      }

  received-Keeps :
      (trigger r : ℕ) (d : Text) (path : String) (ch : Channels) (out : Output) (s : Loop)
      → (i : Implements trigger ch out s) → (f : Found r path ch i.pipes s.logs)
      → Keeps trigger (received O f.place d s) (transferred ch out path r d)
  unfolding pop
  received-Keeps trigger r [] path ch out s i f =
      let (o, os) = Taken-All (λ l. opened l.1 s.fds ≡ some (log_file l.0)) f.taken i.logging in
      let (a, d) = Taken-Apart f.taken i.distinct in
      let fds = without f.fd s.fds in
      record {
        state = record {
          rfds = trigger ∷ f.other_pipes;
          logs = f.other_logs;
          fds = fds;
          written = s.written;
        };
        returns =
            rw (i.watches, f.is_popped, f.is_removed, close-opened O works f.fd s.fds (λ e. cc))
              (ap
                (λ b. ok (
                  record {
                    rfds = trigger ∷ f.other_pipes;
                    logs = f.other_logs;
                    fds = fds;
                    written = s.written;
                  },
                  b,
                ))
                (no_logs-nothing_left (drop_channel r ch) f.other_pipes f.other_logs f.still));
        implements = record {
          pipes = f.other_pipes;
          watches = refl;
          matching = f.still;
          logging = Logging-without f.fd s.fds f.other_logs a os;
          distinct = d;
          output = i.output;
        };
      }
  received-Keeps trigger r (c ∷ d) path ch out s i f =
      let o = (Taken-All (λ l. opened l.1 s.fds ≡ some (log_file l.0)) f.taken i.logging).0 in
      record {
        state = record {
          rfds = s.rfds;
          logs = s.logs;
          fds = s.fds;
          written = s.written ++ ((path, c ∷ d) ∷ []);
        };
        returns =
            rw (f.is_item, o, works.writes path (c ∷ d) s.written)
              (ap
                (λ t. ok (
                  record {
                    rfds = s.rfds;
                    logs = s.logs;
                    fds = s.fds;
                    written = s.written ++ ((path, c ∷ t) ∷ []);
                  },
                  false,
                ))
                (take-length d));
        implements = record {
          pipes = i.pipes;
          watches = i.watches;
          matching = i.matching;
          logging = i.logging;
          distinct = i.distinct;
          output = rw i.output refl;
        };
      }

  handle_pipe :
      (trigger r : ℕ) (d : Text) (s : Loop) (pipes : List ℕ) (n : ℕ)
      → s.rfds ≡ trigger ∷ pipes
      → (trigger == r) ≡ false
      → index_of r pipes ≡ some n
      → handle O r d s ≡ received O n d s
  unfolding handle index_of
  handle_pipe trigger r d s pipes n w e h =
      let k : index_of r (trigger ∷ pipes) ≡ some (suc n) = rw (e, h) refl in
      let q : index_of r s.rfds ≡ some (suc n) = ap (index_of r) w ∙ k in rw (handle, q) refl

  handle_trigger :
      (trigger r : ℕ) (d : Text) (s : Loop) (pipes : List ℕ)
      → s.rfds ≡ trigger ∷ pipes
      → (trigger == r) ≡ true
      → handle O r d s ≡ going_on (reopened O s)
  unfolding handle index_of
  handle_trigger trigger r d s pipes w e =
      let k : index_of r (trigger ∷ pipes) ≡ some 0 = rw e refl in
      let q : index_of r s.rfds ≡ some 0 = ap (index_of r) w ∙ k in rw (handle, q) refl

  handle-Keeps :
      (trigger r : ℕ) (d : Text) (ch : Channels) (out : Output) (s : Loop) (promised : Promised)
      → Implements trigger ch out s
      → transfer trigger r d ch out ≡ some promised
      → Keeps trigger (handle O r d s) promised
  unfolding handle index_of transfer
  handle-Keeps trigger r d ch out s promised i h = go (Bool-cases (trigger == r))
    where
      by_pipe :
          (o : Option String)
          → path_of r ch ≡ o
          → (trigger == r) ≡ false
          → (elim o as (λ _. Option Promised) [
            | none ↦ none
            | some path ↦ some (transferred ch out path r d)
          ])
            ≡ some promised
          → Keeps trigger (handle O r d s) promised
      by_pipe none e n k = cc
      by_pipe (some path) e n k =
          let f = found r path i.matching e in
          let q = received-Keeps trigger r d path ch out s i f in
          let z : transferred ch out path r d ≡ promised = some_injective k in
          rw (← z) (
            Keeps-eq trigger (handle O r d s) (received O f.place d s) _
              (handle_pipe trigger r d s i.pipes f.place i.watches n f.is_indexed) q)

      go :
          ((trigger == r) ≡ true) ⊎ ((trigger == r) ≡ false)
          → Keeps trigger (handle O r d s) promised
      go (inl e) =
          let k : transfer trigger r d ch out ≡ some ((ch, out), false) = rw (transfer, e) refl in
          let z : ((ch, out), false) ≡ promised = some_injective (sym k ∙ h) in
          rw (← z) (
            Keeps-eq trigger (handle O r d s) (going_on (reopened O s)) _
              (handle_trigger trigger r d s i.pipes i.watches e) (trigger-Keeps trigger ch out s i))
      go (inr e) = by_pipe (path_of r ch) refl e (sym (rw (transfer, e) refl) ∙ h)

  next_round-Keeps :
      (trigger : ℕ) (events : Events) (o : Option Promised) (m : Outcome (Loop × Bool))
      (promised : Promised)
      → ((q : Promised) → o ≡ some q → Keeps trigger m q)
      → ((ch : Channels) (out : Output) (s : Loop)
          → Implements trigger ch out s
          → transfers trigger events ch out ≡ some promised
          → Keeps trigger (loop O events s) promised)
      → continue o (transfers trigger events) ≡ some promised
      → Keeps trigger (next_round m (loop O events)) promised
  next_round-Keeps trigger events none m promised k rec h = cc
  next_round-Keeps trigger events (some ((ch, out), true)) m promised k rec h =
      let q = k ((ch, out), true) refl in
      let z : ((ch, out), true) ≡ promised = some_injective h in
      rw (← z) (record { state = q.state; returns = rw q.returns refl; implements = q.implements })
  next_round-Keeps trigger events (some ((ch, out), false)) m promised k rec h =
      let q = k ((ch, out), false) refl in rw q.returns (rec ch out q.state q.implements h)

  -- Whatever the descriptors that are ready and the data read, as long as each is the trigger or an
  -- open pipe: the loop raises no exception, each piece of output was written to the log file of
  -- its pipe, in order, before and after the logs are opened again, and the loop has ended exactly
  -- when the last pipe was closed; if logs can be opened, on descriptors that are not in use, and
  -- each write to a log writes all that it is given.
  pub loop-Keeps :
      (trigger : ℕ) (events : Events) (ch : Channels) (out : Output) (s : Loop)
      (promised : Promised)
      → Implements trigger ch out s
      → transfers trigger events ch out ≡ some promised
      → Keeps trigger (loop O events s) promised
  unfolding loop transfers
  loop-Keeps trigger [] ch out s promised i h =
      let z : ((ch, out), false) ≡ promised = some_injective h in
      rw (← z) (record { state = s; returns = refl; implements = i })
  loop-Keeps trigger ((r, d) ∷ events) ch out s promised i h =
      next_round-Keeps trigger events (transfer trigger r d ch out) (handle O r d s) promised
        (λ q e. handle-Keeps trigger r d ch out s q i e)
        (λ ch' out' s' i' e. loop-Keeps trigger events ch' out' s' promised i' e) h
