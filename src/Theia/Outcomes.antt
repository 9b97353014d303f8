-- ===== src/Theia/Outcomes.antt =====
-- Lemmas on the ends of the export and the import of a Theia, and on its builds.
use mathlib.Core.List.{append_assoc}
use slapos_abilian_edge.Theia.Paths.{FilePath, path_eq}
use slapos_abilian_edge.Theia.World.{World, Tools, slapos, run, node_at, file, retry, write}
use slapos_abilian_edge.Theia.World.{remove, put_node, set_nodes, Nodes}
use slapos_abilian_edge.Theia.Export.{Exporter}
use slapos_abilian_edge.Theia.Export
use slapos_abilian_edge.Theia.Import.{Importer, is_called_process_error}
use slapos_abilian_edge.Theia.Import
use slapos_abilian_edge.Theia.Signatures.{
  IsWritable, write_lem, node_at-put_node_self, node_at-put_node_ne,
}
use slapos_abilian_edge.Base.{ℕ, zero, suc, ◌≤◌, ◌≡◌, refl, sym, ap, ◌∙◌, inl, inr, true, false}
use slapos_abilian_edge.Base.{some, List, [], ◌∷◌, ◌++◌, arith, Bool-cases, replicate}
use slapos_abilian_edge.Base.Py.{Exc, assertion_error, Outcome, ok, raised, pure, ◌>>◌}
use slapos_abilian_edge.Base.Text.{Text, show}

-- The status that a run reports.
abbrev pub status : {A : Type 0} → Outcome A → ℕ
status (ok _) = 0
status (raised _) = 1

-- What a run leaves behind: the exit file holds the status, and after a failure the error file is
-- there.
abbrev pub Reported : {A : Type 0} → FilePath → FilePath → Outcome A → World → Type 0
Reported exit_file error_file (ok _) w = node_at exit_file w.nodes ≡ some (file (show 0))
Reported exit_file error_file (raised _) w =
    (node_at exit_file w.nodes ≡ some (file (show 1)))
    × ((text : Text) × (node_at error_file w.nodes ≡ some (file text)))

-- Neither file is a directory, and they are two files.
pub record AreFiles (exit_file error_file : FilePath) (w : World) : Type 0 where
  pub exit_writable : IsWritable exit_file w
  pub error_writable : IsWritable error_file w
  pub error_ne : path_eq error_file exit_file ≡ false
  pub exit_ne : path_eq exit_file error_file ≡ false

module _ (exit_file error_file : FilePath) where
  write_exit :
      (code : ℕ) (w : World)
      → IsWritable exit_file w
      → (write exit_file (show code) >> pure code) w
        ≡ (ok code, set_nodes (put_node exit_file (file (show code)) w.nodes) w)
  write_exit code w h = rw (write_lem exit_file (show code) w h)

  -- The exit file is written after the error file.
  failed_files :
      (t : Text) (w : World)
      → AreFiles exit_file error_file w
      → let w₁ : World = (write error_file t w).1 in
        let p : Outcome ℕ × World = (write exit_file (show 1) >> pure 1) w₁ in
        (p.0 ≡ ok 1) × Reported {A = ℕ} exit_file error_file (raised assertion_error) p.1
  failed_files t w h = rw (write_lem error_file t w h.error_writable) (
      let w₁ : World = set_nodes (put_node error_file (file t) w.nodes) w in
      rw
        (write_exit 1 w₁ (λ e.
          h.exit_writable
            (sym (node_at-put_node_ne error_file exit_file (file t) w.nodes h.error_ne) ∙ e)))
        (
          refl,
          (
            node_at-put_node_self exit_file (file (show 1)) w₁.nodes,
            (
              t,
              node_at-put_node_ne exit_file error_file (file (show 1)) w₁.nodes h.exit_ne
                  ∙ node_at-put_node_self error_file (file t) w.nodes,
            ),
          ),
        ))

module _ (T : Tools) (x : Importer) where
  finish_lem :
      (r : Outcome (Unit {0})) (w : World)
      → AreFiles x.exit_file x.error_file w
      → ((Import.finish T x r w).0 ≡ ok (status r))
        × Reported x.exit_file x.error_file r (Import.finish T x r w).1
  unfolding Import.finish Import.report
  finish_lem (ok _) w h =
      rw (write_exit x.exit_file x.error_file 0 w h.exit_writable)
        (refl, node_at-put_node_self x.exit_file (file (show 0)) w.nodes)
  finish_lem (raised e) w h = failed_files x.exit_file x.error_file _ w h

  -- However `restore` ends, `__call__` exits: with 0 if it returned and with 1 if it raised, and
  -- the exit file holds that number. After a failure there is an error file. The two files can be
  -- written when `restore` is over, and the old error file could be removed.
  pub call_reports :
      (w w₀ w₁ : World) (r : Outcome (Unit {0}))
      → remove x.error_file w ≡ (ok tt, w₀)
      → Import.restore T x w₀ ≡ (r, w₁)
      → AreFiles x.exit_file x.error_file w₁
      → ((Import.call T x w).0 ≡ ok (status r))
        × Reported x.exit_file x.error_file r (Import.call T x w).1
  unfolding Import.call
  call_reports w w₀ w₁ r h k files = rw h (rw k (finish_lem r w₁ files))

module _ (T : Tools) (x : Exporter) where
  export_finish_lem :
      (r : Outcome (Unit {0})) (w : World)
      → AreFiles x.exit_file x.error_file w
      → ((Export.finish T x r w).0 ≡ ok (status r))
        × Reported x.exit_file x.error_file r (Export.finish T x r w).1
  unfolding Export.finish Export.report
  export_finish_lem (ok _) w h =
      rw (write_exit x.exit_file x.error_file 0 w h.exit_writable)
        (refl, node_at-put_node_self x.exit_file (file (show 0)) w.nodes)
  export_finish_lem (raised e) w h = failed_files x.exit_file x.error_file _ w h

  -- However `export` ends, `__call__` exits: with 0 if it returned and with 1 if it raised, and
  -- the exit file holds that number. After a failure there is an error file. The two files can be
  -- written when `export` is over, and the old error file could be removed.
  pub export-call_reports :
      (w w₀ w₁ : World) (r : Outcome (Unit {0}))
      → remove x.error_file w ≡ (ok tt, w₀)
      → Export.export T x w₀ ≡ (r, w₁)
      → AreFiles x.exit_file x.error_file w₁
      → ((Export.call T x w).0 ≡ ok (status r))
        × Reported x.exit_file x.error_file r (Export.call T x w).1
  unfolding Export.call
  export-call_reports w w₀ w₁ r h k files = rw h (rw k (export_finish_lem r w₁ files))

module _ (T : Tools) (x : Importer) (args : List Text) where
  -- `k` runs of the command were made, and a failure means that the last round failed too, or
  -- that something else than the command failed.
  abbrev pub Tried : ℕ → World → Outcome Text × World → Type 0
  Tried n w p =
      (k : ℕ) × (1 ≤ k)
      × (k ≤ n)
      × (p.1.trace ≡ w.trace ++ replicate k (slapos args))
      × ((e : Exc) → p.0 ≡ raised e → is_called_process_error T x e ≡ true → k ≡ n)

  retry-Tried :
      (n : ℕ) (w : World)
      → Tried (suc n) w (retry n (run T (slapos args)) (is_called_process_error T x) (pure tt) w)
  unfolding retry run
  retry-Tried zero w = (1, omega arith, omega arith, refl, λ e h c. omega arith)
  retry-Tried (suc n) w = go (T.exec (slapos args) w.nodes) refl (retry-Tried n)
    where
      w₁ : World
      w₁ = record w {
        nodes = (T.exec (slapos args) w.nodes).1;
        trace = w.trace ++ slapos args ∷ [];
      }

      go :
          (p : Outcome Text × Nodes)
          → T.exec (slapos args) w.nodes ≡ p
          → ((v : World)
              → Tried
                  (suc n)
                  v
                  (retry n (run T (slapos args)) (is_called_process_error T x) (pure tt) v))
          → Tried
              (suc (suc n))
              w
              (retry (suc n) (run T (slapos args)) (is_called_process_error T x) (pure tt) w)
      go (ok a, fs) h ih = rw (h, retry, run) (1, omega arith, omega arith, refl, λ e k c. cc)
      go (raised e, fs) h ih =
          rw (h, retry, run)
            (elim (Bool-cases (is_called_process_error T x e)) [
              | inl c ↦ rw c (
                  let (k, lo, hi, tr, last) = ih w₁ in
                  (
                    suc k,
                    omega arith,
                    omega arith,
                    tr ∙ append_assoc w.trace (slapos args ∷ []) (replicate k (slapos args)),
                    λ f q d. ap suc (last f q d),
                  ))
              | inr c ↦ rw c (1, omega arith, omega arith, refl, λ f q d. cc)
            ])

  -- A build is started once, and again after each failure of its command, three times at most: it
  -- fails with the command's error only after three runs.
  pub build-Tried : (w : World) → Tried 3 w (Import.build T x args w)
  unfolding Import.build
  build-Tried w = retry-Tried 2 w
