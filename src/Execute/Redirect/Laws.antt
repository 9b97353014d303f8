-- ===== src/Execute/Redirect/Laws.antt =====
-- Lists of logs and of descriptors that belong together.
use slapos_abilian_edge.Execute.Redirect.{log_file, Fds, opened, without, Logs, index_of, pop, item}
use slapos_abilian_edge.Execute.Redirect.Channels.{Channels, path_of, drop_channel}
use slapos_abilian_edge.Base.{ℕ, suc, String, ◌≡◌, refl, sym, ◌∙◌, ◌≢◌, ◌⊎◌, inl, inr, true, false}
use slapos_abilian_edge.Base.{none, some, List, [], ◌∷◌, arith, ◌==◌, if◌then◌else◌, ==_iff}
use slapos_abilian_edge.Base.{Bool-cases, some_injective, All}

pub opened-without :
    (k fd : ℕ) (fds : Fds) → opened k (without fd fds) ≡ (if fd == k then none else opened k fds)
unfolding opened without
opened-without k fd [] = ground arith
opened-without k fd ((g, t) ∷ fds) = ground (arith, opened-without k fd fds)

-- The channels, the read ends of their pipes and their logs stand in the same order.
pub data Matching : Channels → List ℕ → Logs → Type 0 where
  no_more : Matching [] [] []
  one_more :
      (p : ℕ) (path : String) (fd : ℕ) (ch : Channels) (ps : List ℕ) (logs : Logs)
      → Matching ch ps logs
      → Matching ((p, path) ∷ ch) (p ∷ ps) ((path, fd) ∷ logs)

abbrev pub IsOpen : Fds → Logs → Type 0
IsOpen fds = All (λ l. opened l.1 fds ≢ none)

abbrev pub Logging : Fds → Logs → Type 0
Logging fds = All (λ l. opened l.1 fds ≡ some (log_file l.0))

abbrev pub Apart : ℕ → Logs → Type 0
Apart fd = All (λ l. (l.1 == fd) ≡ false)

abbrev pub Distinct : Logs → Type 0
Distinct [] = Unit
Distinct (l ∷ logs) = Apart l.1 logs × Distinct logs

-- A log and the others, in their order.
pub data Taken : String × ℕ → Logs → Logs → Type 0 where
  first : (l : String × ℕ) (logs : Logs) → Taken l (l ∷ logs) logs
  later : (l m : String × ℕ) (logs rest : Logs) → Taken l logs rest → Taken l (m ∷ logs) (m ∷ rest)

-- The place of a pipe among the read ends is the place of its log.
pub record Found (r : ℕ) (path : String) (ch : Channels) (ps : List ℕ) (logs : Logs) : Type 0 where
  pub place : ℕ
  pub fd : ℕ
  pub other_pipes : List ℕ
  pub other_logs : Logs
  pub is_indexed : index_of r ps ≡ some place
  pub is_item : item place logs ≡ some (path, fd)
  pub is_popped : pop place logs ≡ some ((path, fd), other_logs)
  pub is_removed : pop place ps ≡ some (r, other_pipes)
  pub taken : Taken (path, fd) logs other_logs
  pub still : Matching (drop_channel r ch) other_pipes other_logs

first_place :
    (r : ℕ) (path other : String) (fd : ℕ) (ch : Channels) (ps : List ℕ) (logs : Logs)
    → Matching ch ps logs
    → (p : ℕ) → (p == r) ≡ true
    → path_of r ((p, other) ∷ ch) ≡ some path
    → Found r path ((p, other) ∷ ch) (p ∷ ps) ((other, fd) ∷ logs)
unfolding path_of drop_channel index_of item pop
first_place r path other fd ch ps logs m p e h =
    let q : other ≡ path = some_injective (sym (rw e refl) ∙ h) in
    record {
      place = 0;
      fd = fd;
      other_pipes = ps;
      other_logs = logs;
      is_indexed = rw e refl;
      is_item = rw q refl;
      is_popped = rw q refl;
      is_removed = rw ((==_iff p r).0 e) refl;
      taken = rw q (first (path, fd) logs);
      still = rw e m;
    }

later_place :
    (r : ℕ) (path other : String) (g : ℕ) (ch : Channels) (ps : List ℕ) (logs : Logs)
    → (p : ℕ) → (p == r) ≡ false
    → Found r path ch ps logs
    → Found r path ((p, other) ∷ ch) (p ∷ ps) ((other, g) ∷ logs)
unfolding path_of drop_channel index_of item pop
later_place r path other g ch ps logs p e f = record {
  place = suc f.place;
  fd = f.fd;
  other_pipes = p ∷ f.other_pipes;
  other_logs = (other, g) ∷ f.other_logs;
  is_indexed = rw (e, f.is_indexed) refl;
  is_item = f.is_item;
  is_popped = rw f.is_popped refl;
  is_removed = rw f.is_removed refl;
  taken = later (path, f.fd) (other, g) logs f.other_logs f.taken;
  still = rw e (one_more p other g (drop_channel r ch) f.other_pipes f.other_logs f.still);
}

pub found :
    (r : ℕ) (path : String) {ch : Channels} {ps : List ℕ} {logs : Logs}
    → Matching ch ps logs
    → path_of r ch ≡ some path
    → Found r path ch ps logs
unfolding path_of
found r path no_more h = cc
found r path (one_more p other fd ch ps logs m) h = go (Bool-cases (p == r)) (found r path m)
  where
    go :
        ((p == r) ≡ true) ⊎ ((p == r) ≡ false)
        → (path_of r ch ≡ some path → Found r path ch ps logs)
        → Found r path ((p, other) ∷ ch) (p ∷ ps) ((other, fd) ∷ logs)
    go (inl e) rec = first_place r path other fd ch ps logs m p e h
    go (inr e) rec = later_place r path other fd ch ps logs p e (rec (sym (rw e refl) ∙ h))

pub Taken-All :
    (P : String × ℕ → Type 0) {l : String × ℕ} {logs rest : Logs}
    → Taken l logs rest
    → All P logs
    → P l × All P rest
Taken-All P (first l logs) a = a
Taken-All P (later l m logs rest t) a = let (x, xs) = Taken-All P t a.1 in (x, (a.0, xs))

pub ==_sym : (a b : ℕ) → (a == b) ≡ false → (b == a) ≡ false
==_sym a b h = ground arith

pub Taken-Apart :
    {l : String × ℕ} {logs rest : Logs}
    → Taken l logs rest
    → Distinct logs
    → Apart l.1 rest × Distinct rest
Taken-Apart (first l logs) d = d
Taken-Apart (later l m logs rest t) d =
    let (x, xs) = Taken-All (λ k. (k.1 == m.1) ≡ false) t d.0 in
    let (y, ys) = Taken-Apart t d.1 in ((==_sym l.1 m.1 x, y), (xs, ys))

-- Closing a descriptor leaves the logs on other descriptors open.
pub Logging-without :
    (fd : ℕ) (fds : Fds) (logs : Logs)
    → Apart fd logs
    → Logging fds logs
    → Logging (without fd fds) logs
Logging-without fd fds [] a o = tt
Logging-without fd fds (l ∷ logs) a o =
    (rw (opened-without l.1 fd fds, ==_sym l.1 fd a.0) o.0, Logging-without fd fds logs a.1 o.1)
