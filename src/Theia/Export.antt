-- ===== src/Theia/Export.antt =====
-- software/theia/theia_export.py: `TheiaExport`, which mirrors a Theia and signs the mirror.
use slapos_abilian_edge.Theia.Paths.{FilePath, relpath, resolve, basename, add_suffix, path_text}
use slapos_abilian_edge.Theia.World.{World, Io, Tools, exists, write, remove, copyfile, glob}
use slapos_abilian_edge.Theia.World.{copytree, copytree_dry, copydb, parse_installed, hashwalk}
use slapos_abilian_edge.Theia.World.{
  hashscript, hashcustom, set_nodes, put_node, without, file, log,
}
use slapos_abilian_edge.Base.{ℕ, ◌+◌, Bool, true, false, ◌||◌, Option, none, some, List, [], ◌∷◌}
use slapos_abilian_edge.Base.{◌++◌, if◌then◌else◌}
use slapos_abilian_edge.Base.Py.{Exc, plain, Outcome, ok, raised, pure, raise, gets, modify, ◌>>=◌}
use slapos_abilian_edge.Base.Py.{◌>>◌}
use slapos_abilian_edge.Base.Text.{Text, codes, split_on, join, starts, show}

-- The attributes that `__init__` sets from the arguments and the configuration of slapos.
pub record Exporter : Type 0 where
  pub root_dir : FilePath
  pub backup_dir : FilePath
  pub dirs : List FilePath
  pub files : List FilePath
  pub exit_file : FilePath
  pub error_file : FilePath
  pub proxy_db : FilePath
  pub instance_dir : FilePath
  pub partition_dirs : List FilePath

-- What `backup_partition` keeps in `copytree_partitions_args` for `check_partition`.
pub record CopyArgs : Type 0 where
  pub partition : FilePath
  pub dst : FilePath
  pub installed : List Text
  pub extrargs : List Text

-- `str(int(time.time()))`
now_text : World → Text
now_text w = show w.clock

-- `time.sleep(n)`
unfoldable pub sleep : ℕ → Io (Unit {0})
sleep n w = (ok tt, record w { clock = w.clock + n })

abbrev pub lines_text : List Text → Text
lines_text [] = []
lines_text (s ∷ ss) = s ++ 10 ∷ lines_text ss

-- `pattern in path`
unfoldable pub is_infix : Text → Text → Bool
is_infix pattern [] = starts [] pattern
is_infix pattern (c ∷ s) = starts (c ∷ s) pattern || is_infix pattern s

select_lines : Text → List Text → List Text
select_lines pattern [] = []
select_lines pattern (line ∷ rest) =
    let more = select_lines pattern rest in if is_infix pattern line then line ∷ more else more

-- `sign`: the old signature goes first, and the new one is complete before it takes its place.
unfoldable pub sign : FilePath → List Text → Io (Unit {0})
unfolding remove
sign signaturefile signatures = do
  remove signaturefile
  modify (λ w. set_nodes (put_node signaturefile (file (lines_text signatures)) w.nodes) w)

module _ (T : Tools) (x : Exporter) where
  open x use {root_dir, backup_dir, instance_dir}

  unfoldable pub mirror_path : FilePath → FilePath
  mirror_path src = resolve backup_dir (relpath src root_dir)

  backup_tree : FilePath → Io Text
  backup_tree src = copytree T src (mirror_path src) [] []

  backup_file : FilePath → Bool → Io (Unit {0})
  backup_file src fail_if_missing w =
      if exists src w
      then (log (codes "Backup file " ++ path_text src) >> copyfile src (mirror_path src)) w
      else if fail_if_missing
      then raise (plain "File is missing") w
      else (log (codes "Delete file from backup " ++ path_text src) >> remove (mirror_path src)) w

  backup_db : Io (Unit {0})
  backup_db = copydb T x.proxy_db (mirror_path x.proxy_db)

  rules_args : FilePath → World → List Text
  rules_args partition w =
      let rules = partition ++ codes "srv" ∷ codes "exporter.exclude" ∷ [] in
      if exists rules w then (codes "--filter=.-/ " ++ path_text rules) ∷ [] else []

  backup_partition : FilePath → Io CopyArgs
  backup_partition partition = do
    installed ← parse_installed T partition
    extrargs ← gets (rules_args partition)
    copytree T partition (mirror_path partition) installed extrargs
    pure (record {
      partition = partition;
      dst = mirror_path partition;
      installed = installed;
      extrargs = extrargs;
    })

  sign_root : Io (Unit {0})
  sign_root = do
    signatures ← hashwalk T backup_dir (some (mirror_path instance_dir))
    sign (backup_dir ++ codes "backup.signature" ∷ []) signatures

  abbrev signature_of : FilePath → FilePath
  signature_of partition = backup_dir ++ (basename partition ++ codes ".backup.signature") ∷ []

  sign_with : FilePath → Option FilePath → Io (Unit {0})
  sign_with partition (some script_path) = do
    signatures ← hashcustom T (mirror_path partition) script_path
    sign (add_suffix (signature_of partition) (codes ".custom")) signatures
  sign_with partition none = do
    signatures ← hashwalk T (mirror_path partition) none
    sign (signature_of partition) signatures

  sign_partition : FilePath → Io (Unit {0})
  unfolding sign_with
  sign_partition partition w = sign_with partition (hashscript partition w) w

  remove_all : List FilePath → World → World
  remove_all [] w = w
  remove_all (p ∷ ps) w = remove_all ps (set_nodes (without p w.nodes) w)

  -- A file that cannot be removed is left.
  remove_signatures : Io (Unit {0})
  unfolding remove_all
  remove_signatures w =
      (ok tt, remove_all (glob backup_dir (is_infix (codes "backup.signature")) w) w)

  check_partition : CopyArgs → Io (List Text)
  check_partition a = do
    output ← copytree_dry T a.partition a.dst a.installed a.extrargs
    pure (select_lines (codes "/srv/backup/") (split_on 10 output))

  backup_trees : List FilePath → Io (Unit {0})
  unfolding backup_tree
  backup_trees [] = pure tt
  backup_trees (d ∷ ds) = do
    log (codes "Backup directory " ++ path_text d)
    backup_tree d
    backup_trees ds

  backup_files : List FilePath → Io (Unit {0})
  unfolding backup_file
  backup_files [] = pure tt
  backup_files (f ∷ fs) = do backup_file f false; backup_files fs

  backup_partitions : List FilePath → Io (List CopyArgs)
  unfolding backup_partition rules_args
  backup_partitions [] = pure []
  backup_partitions (p ∷ ps) = do
    a ← backup_partition p
    more ← backup_partitions ps
    pure (a ∷ more)

  sign_partitions : List FilePath → Io (Unit {0})
  unfolding sign_partition
  sign_partitions [] = pure tt
  sign_partitions (p ∷ ps) = do sign_partition p; sign_partitions ps

  check_partitions : List CopyArgs → Io (List Text)
  unfolding check_partition select_lines
  check_partitions [] = pure []
  check_partitions (a ∷ as') = do
    modified ← check_partition a
    more ← check_partitions as'
    pure (modified ++ more)

  -- The end of `export`: a file of a backup that changed since fails the export.
  unfoldable pub conclude : List Text → Io (Unit {0})
  unfolding sleep
  conclude [] = log (codes "Done")
  conclude (m ∷ modified) = do
    log (codes "Some files have been modified since the backup started:")
    log (join (10 ∷ []) (m ∷ modified))
    log (codes "Let's wait 10 minutes and try again")
    sleep 600
    raise (plain "Some files have been modified since the backup started")

  abbrev timestamp : FilePath
  timestamp = root_dir ++ codes "etc" ∷ codes ".resilient_timestamp" ∷ []

  unfoldable pub export : Io (Unit {0})
  unfolding now_text backup_trees backup_files backup_partitions sign_root sign_partitions
      check_partitions remove_signatures backup_file backup_db conclude
  export = do
    start ← gets now_text
    write timestamp start
    remove_signatures
    backup_file timestamp true
    backup_trees x.dirs
    backup_files x.files
    log (codes "Backup slapproxy database")
    backup_db
    log (codes "Backup partitions")
    copies ← backup_partitions x.partition_dirs
    log (codes "Compute root backup signature")
    sign_root
    log (codes "Compute partitions backup signatures")
    sign_partitions x.partition_dirs
    sleep 10
    log (codes "Check partitions")
    modified ← check_partitions copies
    conclude modified

  unfoldable pub report : Exc → Io (Unit {0})
  report e w =
      write x.error_file
        (join (codes "\n ... OK\n\n") w.logs ++ (codes "\n ... ERROR !\n\n" ++ T.format_exc e)) w

  -- The `except` and `finally` of `__call__`: `sys.exit` ends the run whatever the report did.
  unfoldable pub finish : Outcome (Unit {0}) → Io ℕ
  finish (ok _) w = (write x.exit_file (show 0) >> pure 0) w
  finish (raised e) w = let (_, w') = report e w in (write x.exit_file (show 1) >> pure 1) w'

  unfoldable pub call : Io ℕ
  unfolding finish report
  call = do remove x.error_file; λ w. let (r, w') = export w in finish r w'
