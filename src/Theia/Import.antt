-- ===== src/Theia/Import.antt =====
-- software/theia/theia_import.py: `TheiaImport`, which checks the signatures of a mirror and
-- restores a Theia from it.
use slapos_abilian_edge.Theia.Paths.{
  FilePath, relpath, resolve, basename, add_suffix, path_text, join_text,
}
use slapos_abilian_edge.Theia.World.{
  World, Io, Tools, exists, read, write, remove, copyfile, keep, glob,
}
use slapos_abilian_edge.Theia.World.{
  copytree, copydb, parse_installed, log_at, hashscript, hashcustom,
}
use slapos_abilian_edge.Theia.World.{run, diff, supervisorctl, slapos, script, http_get}
use slapos_abilian_edge.Theia.World.{retry, file, node_at}
use slapos_abilian_edge.Theia.Export.{sleep, lines_text}
use slapos_abilian_edge.Base.{ℕ, Bool, true, false, not, Option, none, some, List, [], ◌∷◌, ◌++◌}
use slapos_abilian_edge.Base.{map, ◌==◌, if◌then◌else◌}
use slapos_abilian_edge.Base.Py.{Exc, called_process_error, request_exception, plain, Outcome, ok}
use slapos_abilian_edge.Base.Py.{raised, pure, raise, lift, gets, ◌>>=◌, ◌>>◌, try_except}
use slapos_abilian_edge.Base.Text.{Text, codes, is_white, lstrip, strip, join, starts, show}

-- The attributes that `__init__` sets.
pub record Importer : Type 0 where
  pub root_dir : FilePath
  pub backup_dir : FilePath
  pub dirs : List FilePath
  pub files : List FilePath
  pub exit_file : FilePath
  pub error_file : FilePath
  pub sr_log : Text
  pub cp_log : Text
  pub proxy_db : FilePath
  pub instance_dir : FilePath
  pub mirror_partition_dirs : List FilePath

abbrev push_char : ℕ → List Text → List Text
push_char c [] = (c ∷ []) ∷ []
push_char c (l ∷ ls) = (c ∷ l) ∷ ls

abbrev starts_newline : Text → Bool
starts_newline [] = false
starts_newline (c ∷ s) = c == 10

-- What a text file that is read gives for its content: `\r` and `\r\n` become `\n`.
unfoldable pub universal_newlines : Text → Text
universal_newlines [] = []
universal_newlines (c ∷ s) =
    let rest = universal_newlines s in
    if c == 13 then (if starts_newline s then rest else 10 ∷ rest) else c ∷ rest

unfoldable pub lines_of : Text → List Text
lines_of [] = []
lines_of (c ∷ s) = let rest = lines_of s in if c == 10 then (10 ∷ []) ∷ rest else push_char c rest

-- The lines of a text file, each with its newline; the last may have none.
unfoldable pub file_lines : Text → List Text
unfolding universal_newlines lines_of
file_lines text = lines_of (universal_newlines text)

-- `line.split(None, 1)` of a stripped line, unpacked in two: `none` is a `ValueError`.
unfoldable pub split_words : Text → Option (Text × Text)
unfolding is_white
split_words [] = none
split_words (c ∷ s) =
    let rest = split_words s in
    if is_white c
    then elim (lstrip s) [ [] ↦ none | d ∷ t ↦ some ([], d ∷ t) ]
    else elim rest [ none ↦ none | some (l, r) ↦ some (c ∷ l, r) ]

module _ (T : Tools) where
  -- The line of the proof for one line of the signature file.
  unfoldable pub sign_words : FilePath → Text → Option (Text × Text) → World → Text
  sign_words root line none w = codes "Could not parse: " ++ line
  sign_words root line (some (_, rel)) w = elim (node_at (join_text root rel) w.nodes) [
    | some (file text) ↦ T.sha256 text ++ b' ' ∷ rel
    | _ ↦ codes "Could not read: " ++ path_text (join_text root rel)
  ]

  unfoldable pub sign_line : FilePath → World → Text → Text
  unfolding sign_words
  sign_line root w line = sign_words root line (split_words (strip line)) w

  -- `sign`
  unfoldable pub sign : FilePath → FilePath → Io (List Text)
  unfolding sign_line
  sign signaturefile root = do
    text ← read signaturefile
    gets (λ w. map (sign_line root w) (file_lines text))

  module _ (x : Importer) where
    open x use {root_dir, backup_dir, instance_dir}

    unfoldable pub mirror_path : FilePath → FilePath
    mirror_path dst = resolve backup_dir (relpath dst root_dir)

    unfoldable pub dst_path : FilePath → FilePath
    dst_path src = resolve root_dir (relpath src backup_dir)

    restore_tree : FilePath → Io Text
    restore_tree dst = copytree T (mirror_path dst) dst [] []

    restore_file : FilePath → Bool → Io (Unit {0})
    restore_file dst fail_if_missing w =
        if exists (mirror_path dst) w
        then (log_at T (codes "Restore file " ++ path_text dst) >> copyfile (mirror_path dst) dst) w
        else if fail_if_missing
        then raise (plain "File is missing from backup") w
        else (log_at T (codes "Remove deleted file " ++ path_text dst) >> remove dst) w

    restore_db : Io (Unit {0})
    restore_db = copydb T (mirror_path x.proxy_db) x.proxy_db

    restore_partition : FilePath → Io Text
    restore_partition mirror_partition w =
        let p = dst_path mirror_partition in
        let installed = if exists p w then parse_installed T p else pure [] in
        (installed >>= λ paths. copytree T mirror_partition p paths []) w

    -- `sign_custom` up to the generator that it returns: the script that `hashcustom` will run.
    sign_custom : FilePath → Io FilePath
    sign_custom root w = elim (hashscript (dst_path root) w) [
      | none ↦ raise (plain "ERROR: missing custom signature script for partition") w
      | some script_path ↦ pure script_path w
    ]

    abbrev signature_of : FilePath → FilePath
    signature_of partition = backup_dir ++ (basename partition ++ codes ".backup.signature") ∷ []

    unfoldable pub find_signature_file : FilePath → Io (FilePath × Bool)
    find_signature_file partition w =
        if exists (signature_of partition) w
        then pure (signature_of partition, false) w
        else if exists (add_suffix (signature_of partition) (codes ".custom")) w
        then pure (add_suffix (signature_of partition) (codes ".custom"), true) w
        else raise (plain "ERROR: missing signature file for partition") w

    abbrev proof_of : FilePath → FilePath
    proof_of signaturefile = add_suffix signaturefile (codes ".proof")

    unfoldable pub mismatch : Exc → Io Text
    mismatch (called_process_error _ _) = raise (plain "ERROR the backup signatures do not match")
    mismatch e = raise e

    -- The end of `verify`: the proof file is written and compared with the signature file.
    unfoldable pub compare_with : FilePath → List Text → Io (Unit {0})
    unfolding mismatch
    compare_with signaturefile signatures = do
      write (proof_of signaturefile) (lines_text signatures)
      try_except (run T (diff signaturefile (proof_of signaturefile))) mismatch
      pure tt

    -- `sign` and `hashcustom` are generators: the proof file is empty when they begin.
    unfoldable pub verify : FilePath → FilePath → Bool → Io (Unit {0})
    unfolding sign_custom compare_with
    verify signaturefile root false = do
      write (proof_of signaturefile) []
      signatures ← sign signaturefile root
      compare_with signaturefile signatures
    verify signaturefile root true = do
      script_path ← sign_custom root
      write (proof_of signaturefile) []
      signatures ← hashcustom T root script_path
      compare_with signaturefile signatures

    is_request_exception : Exc → Bool
    is_request_exception request_exception = true
    is_request_exception _ = false

    unfoldable pub is_called_process_error : Exc → Bool
    is_called_process_error (called_process_error _ _) = true
    is_called_process_error _ = false

    get_proxy : Io Text
    get_proxy = do log_at T (codes "- GET proxy with timeout 10"); run T http_get

    unfoldable pub wait_for_proxy : Io (Unit {0})
    unfolding get_proxy is_request_exception sleep
    wait_for_proxy = do
      response ←
          retry 9 get_proxy is_request_exception
            (do log_at T (codes "- Sleep 20s before retrying"); sleep 20)
      lift (T.raise_for_status response)

    -- `slapos` and its arguments, tried three times.
    unfoldable pub build : List Text → Io Text
    unfolding is_called_process_error
    build args = retry 2 (run T (slapos args)) is_called_process_error (pure tt)

    unfoldable pub verify_found : FilePath → FilePath × Bool → Io (Unit {0})
    verify_found m (signaturefile, true) = pure tt
    verify_found m (signaturefile, false) = do
      log_at T (codes "Verify backup signature for " ++ path_text m)
      verify signaturefile m false

    -- The first loop of `restore`: the signatures without a script are checked, and the custom
    -- ones are kept for later.
    unfoldable pub verify_partitions : List FilePath → Io (List (FilePath × FilePath))
    unfolding find_signature_file verify_found
    verify_partitions [] = pure []
    verify_partitions (m ∷ ms) = do
      found ← find_signature_file m
      verify_found m found
      more ← verify_partitions ms
      pure (if found.1 then (found.0, m) ∷ more else more)

    -- The part of `restore` before `restore_all`: the signatures without a script are checked.
    unfoldable pub check_backup : Io (List (FilePath × FilePath))
    unfolding verify_partitions
    check_backup = do
      log_at T (codes "Verify main backup signature")
      verify (backup_dir ++ codes "backup.signature" ∷ []) backup_dir false
      verify_partitions x.mirror_partition_dirs

    restore_partitions : List FilePath → Io (Unit {0})
    unfolding restore_partition
    restore_partitions [] = pure tt
    restore_partitions (m ∷ ms) = do restore_partition m; restore_partitions ms

    restore_trees : List FilePath → Io (Unit {0})
    unfolding restore_tree
    restore_trees [] = pure tt
    restore_trees (d ∷ ds) = do
      log_at T (codes "Restore directory " ++ path_text d)
      restore_tree d
      restore_trees ds

    restore_files : List FilePath → Io (Unit {0})
    unfolding restore_file
    restore_files [] = pure tt
    restore_files (f ∷ fs) = do restore_file f false; restore_files fs

    remove_each : List FilePath → Io (Unit {0})
    remove_each [] = pure tt
    remove_each (f ∷ fs) = do remove f; remove_each fs

    verify_custom : List (FilePath × FilePath) → Io (Unit {0})
    verify_custom [] = pure tt
    verify_custom ((signaturefile, m) ∷ rest) = do verify signaturefile m true; verify_custom rest

    run_scripts : List FilePath → Io (Unit {0})
    run_scripts [] = pure tt
    run_scripts (s ∷ ss) = do
      log_at T (codes "Running custom instance script " ++ path_text s)
      run T (script s)
      run_scripts ss

    run_if_there : FilePath → Io (Unit {0})
    run_if_there p w =
        if exists p w
        then (do
          log_at T (codes "Run custom restore script " ++ path_text p)
          run T (script p)
          pure tt)
            w
        else (ok tt, w)

    -- `slappart*` below the instances, and a file of each of them.
    instance_files : List Text → World → List FilePath
    instance_files rel w =
        keep (λ p. exists p w)
          (map (λ d. d ++ rel) (glob instance_dir (λ name. starts name (codes "slappart")) w))

    abbrev runner_script : List Text
    runner_script = codes "srv" ∷ codes "runner-import-restore" ∷ []

    -- What `restore` does once the signatures without a script are checked.
    unfoldable pub restore_all : List (FilePath × FilePath) → Io (Unit {0})
    unfolding restore_partitions restore_trees restore_files restore_file restore_db run_if_there
        instance_files remove_each verify_custom run_scripts wait_for_proxy build
    restore_all custom_partition_signatures = do
      log_at T (codes "Stop slapproxy")
      run T (supervisorctl (codes "stop" ∷ codes "slapos-proxy" ∷ []))
      log_at T (codes "Restore partitions")
      restore_partitions x.mirror_partition_dirs
      restore_trees x.dirs
      restore_files x.files
      log_at T (codes "Restore slapproxy database")
      restore_db
      restore_file (root_dir ++ codes "etc" ∷ codes ".resilient_timestamp" ∷ []) true
      run_if_there (root_dir ++ runner_script)
      log_at T (codes "Start slapproxy again")
      run T (supervisorctl (codes "start" ∷ codes "slapos-proxy" ∷ []))
      log_at T (codes "Wait until slapproxy is available")
      wait_for_proxy
      log_at T (codes "Reformat partitions")
      run T (slapos (codes "node" ∷ codes "format" ∷ codes "--now" ∷ []))
      log_at T (codes "Remove old supervisord configuration files")
      confs ← gets (
          glob (instance_dir ++ codes "etc" ∷ codes "supervisor.conf.d" ∷ [])
            (λ name. not (starts name (codes "."))))
      remove_each confs
      log_at T (codes "Prune shared parts")
      run T (slapos (codes "node" ∷ codes "prune" ∷ []))
      log_at T (codes "Build Software Releases")
      build (codes "node" ∷ codes "software" ∷ codes "--logfile" ∷ x.sr_log ∷ [])
      log_at T (codes "Remove old custom instance scripts")
      scripts ← gets (instance_files runner_script)
      remove_each scripts
      log_at T (codes "Remove partition timestamps")
      timestamps ← gets (instance_files (codes ".timestamp" ∷ []))
      remove_each timestamps
      log_at T (codes "Build Instances")
      build (
          codes "node"
          ∷ codes "instance"
          ∷ codes "--force-stop"
          ∷ codes "--logfile"
          ∷ x.cp_log
          ∷ [])
      log_at T (codes "Verify custom backup signatures")
      verify_custom custom_partition_signatures
      new_scripts ← gets (instance_files runner_script)
      run_scripts new_scripts
      log_at T (codes "Done")

    unfoldable pub restore : Io (Unit {0})
    restore = do custom_partition_signatures ← check_backup; restore_all custom_partition_signatures

    -- The output of a failed command is added to the traceback.
    with_output : Exc → Text → Text
    with_output (called_process_error _ (c ∷ output)) exc = exc ++ (codes "\n\n" ++ c ∷ output)
    with_output e exc = exc

    unfoldable pub report : Exc → Io (Unit {0})
    unfolding with_output
    report e w =
        write x.error_file
          (join (codes "\n ... OK\n\n") w.logs
            ++ (codes "\n ... ERROR !\n\n" ++ with_output e (T.format_exc e)))
          w

    unfoldable pub finish : Outcome (Unit {0}) → Io ℕ
    finish (ok _) w = (write x.exit_file (show 0) >> pure 0) w
    finish (raised e) w = let (_, w') = report e w in (write x.exit_file (show 1) >> pure 1) w'

    -- `__call__`, with the status that `sys.exit` is given.
    unfoldable pub call : Io ℕ
    unfolding finish report
    call = do remove x.error_file; λ w. let (r, w') = restore w in finish r w'
