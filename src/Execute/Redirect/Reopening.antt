-- ===== src/Execute/Redirect/Reopening.antt =====
-- Lemmas on `reopen`, the function of generic_exec that opens the logs again.
use slapos_abilian_edge.Execute.Redirect.{
  Target, log_file, Fds, opened, without, close, Logs, System, open_log, reopen,
}
use slapos_abilian_edge.Execute.Redirect.Channels.{Channels}
use slapos_abilian_edge.Execute.Redirect.Laws.{
  opened-without, Matching, one_more, IsOpen, Logging, Apart, Distinct, ==_sym,
}
use slapos_abilian_edge.Base.{ℕ, String, ◌≡◌, refl, ap, ◌∙◌, ◌≢◌, inl, inr, Bool, true, false}
use slapos_abilian_edge.Base.{Option, none, some, List, [], ◌∷◌, arith, ◌==◌, if◌then◌else◌, ==_iff}
use slapos_abilian_edge.Base.{Bool-cases, length}
use slapos_abilian_edge.Base.Py.{os_error, Outcome, ok, raised}
use slapos_abilian_edge.Base.Text.{Text}

-- The number of a new descriptor is that of no open one, logs can be opened, and what is written
-- to a log is written as a whole.
pub record Works (O : System) : Type 0 where
  pub new : (fds : Fds) → opened (O.fresh fds) fds ≡ none
  pub opens : (path : String) (fds : Fds) → O.open_error path fds ≡ none
  pub writes :
      (path : String) (d : Text) (out : List (String × Text)) → O.write path d out ≡ ok (length d)

module _ (O : System) (works : Works O) where
  -- What `reopen` gives for logs on open descriptors.
  pub record Opened (logs : Logs) (fds : Fds) : Type 0 where
    pub logs_after : Logs
    pub fds_after : Fds
    pub returns : reopen O logs fds ≡ ok (logs_after, fds_after)
    pub logging : Logging fds_after logs_after
    pub distinct : Distinct logs_after
    pub matching : (ch : Channels) (ps : List ℕ) → Matching ch ps logs → Matching ch ps logs_after
    pub others :
        (k : ℕ) (t : Target)
        → opened k fds ≡ some t
        → Apart k logs
        → (opened k fds_after ≡ some t) × Apart k logs_after

  pub close-opened :
      (fd : ℕ) (fds : Fds) → opened fd fds ≢ none → close fd fds ≡ ok (without fd fds)
  close-opened fd fds h = go (opened fd fds) h
    where
      go :
          (o : Option Target)
          → o ≢ none
          → (elim o as (λ _. Outcome Fds) [
            | none ↦ raised (os_error 9)
            | some t ↦ ok (without fd fds)
          ])
            ≡ ok (without fd fds)
      go none n = elim (n refl) [ ]
      go (some t) n = refl

  IsOpen-without :
      (fd : ℕ) (fds : Fds) (logs : Logs)
      → Apart fd logs
      → IsOpen fds logs
      → IsOpen (without fd fds) logs
  IsOpen-without fd fds [] a o = tt
  IsOpen-without fd fds (l ∷ logs) a o =
      (rw (opened-without l.1 fd fds, ==_sym l.1 fd a.0) o.0, IsOpen-without fd fds logs a.1 o.1)

  IsOpen-cons :
      (n : ℕ) (t : Target) (fds : Fds) (logs : Logs) → IsOpen fds logs → IsOpen ((n, t) ∷ fds) logs
  unfolding opened
  IsOpen-cons n t fds [] o = tt
  IsOpen-cons n t fds (l ∷ logs) o = (go (n == l.1), IsOpen-cons n t fds logs o.1)
    where
      go : (b : Bool) → (if b then some t else opened l.1 fds) ≢ none
      go true = λ e. cc
      go false = o.0

  different : (n k : ℕ) (fds : Fds) → opened n fds ≡ none → opened k fds ≢ none → (k == n) ≡ false
  different n k fds e o = elim (Bool-cases (k == n)) [
    | inl h ↦ absurd (o (ap (λ x. opened x fds) ((==_iff k n).0 h) ∙ e))
    | inr h ↦ h
  ]

  fresh-Apart :
      (n : ℕ) (fds : Fds) (logs : Logs) → opened n fds ≡ none → IsOpen fds logs → Apart n logs
  fresh-Apart n fds [] e o = tt
  fresh-Apart n fds (l ∷ logs) e o = (different n l.1 fds e o.0, fresh-Apart n fds logs e o.1)

  opened-cons :
      (n k : ℕ) (t : Target) (fds : Fds) → (k == n) ≡ false → opened k ((n, t) ∷ fds) ≡ opened k fds
  unfolding opened
  opened-cons n k t fds h = rw (==_sym k n h) refl

  opened-first : (n : ℕ) (t : Target) (fds : Fds) → opened n ((n, t) ∷ fds) ≡ some t
  unfolding opened
  opened-first n t fds = ground arith

  open_log-fresh : (path : String) (fds : Fds) → open_log O path fds ≡ ok (O.fresh fds)
  unfolding open_log
  open_log-fresh path fds = rw (works.opens path fds, open_log)

  -- The log of a path on its new descriptor, before the others.
  reopened_others :
      (path : String) (fd n : ℕ) (logs : Logs) (fds : Fds)
      → opened n (without fd fds) ≡ none
      → (rec : Opened logs ((n, log_file path) ∷ without fd fds)) → (k : ℕ) (t : Target)
      → opened k fds ≡ some t
      → Apart k ((path, fd) ∷ logs)
      → (opened k rec.fds_after ≡ some t) × Apart k ((path, n) ∷ rec.logs_after)
  reopened_others path fd n logs fds e rec k t h b =
      let o : opened k (without fd fds) ≡ some t = rw (opened-without k fd fds, b.0) h in
      let d = different n k (without fd fds) e (λ z. cc) in
      let (x, y) = rec.others k t (opened-cons n k (log_file path) (without fd fds) d ∙ o) b.1 in
      (x, (==_sym k n d, y))

  reopened-Matching :
      (path : String) (fd n : ℕ) (logs after : Logs)
      → ((ch : Channels) (ps : List ℕ) → Matching ch ps logs → Matching ch ps after)
      → (ch : Channels) (ps : List ℕ) → Matching ch ps ((path, fd) ∷ logs)
      → Matching ch ps ((path, n) ∷ after)
  reopened-Matching path fd n logs after k ((p, _) ∷ ch) (_ ∷ ps) (one_more _ _ _ _ _ _ m) =
      one_more p path n ch ps after (k ch ps m)
  reopened-Matching path fd n logs after k [] ps m = elim m [ ]
  reopened-Matching path fd n logs after k ((p, _) ∷ ch) [] m = elim m [ ]

  reopened_first :
      (path : String) (fd : ℕ) (logs : Logs) (fds : Fds)
      → opened fd fds ≢ none
      → IsOpen fds logs
      → Apart fd logs
      → Opened logs ((O.fresh (without fd fds), log_file path) ∷ without fd fds)
      → Opened ((path, fd) ∷ logs) fds
  unfolding reopen
  reopened_first path fd logs fds o os a rec =
      let fds1 = without fd fds in
      let n = O.fresh fds1 in
      let (q, z) =
        rec.others n (log_file path) (opened-first n (log_file path) fds1)
          (fresh-Apart n fds1 logs (works.new fds1) (IsOpen-without fd fds logs a os)) in
      record {
        logs_after = (path, n) ∷ rec.logs_after;
        fds_after = rec.fds_after;
        returns = rw (close-opened fd fds o, open_log-fresh path fds1, rec.returns) refl;
        logging = (q, rec.logging);
        distinct = (z, rec.distinct);
        matching = reopened-Matching path fd n logs rec.logs_after rec.matching;
        others = reopened_others path fd n logs fds (works.new fds1) rec;
      }

  pub reopen-Opened : (logs : Logs) (fds : Fds) → IsOpen fds logs → Distinct logs → Opened logs fds
  unfolding reopen
  reopen-Opened [] fds o d = record {
    logs_after = [];
    fds_after = fds;
    returns = refl;
    logging = tt;
    distinct = tt;
    matching = λ ch ps m. m;
    others = λ k t e a. (e, tt);
  }
  reopen-Opened ((path, fd) ∷ logs) fds o d =
      let fds1 = without fd fds in
      let n = O.fresh fds1 in
      reopened_first path fd logs fds o.0 o.1 d.0 (
        reopen-Opened logs ((n, log_file path) ∷ fds1)
          (IsOpen-cons n (log_file path) fds1 logs (IsOpen-without fd fds logs d.0 o.1)) d.1)
