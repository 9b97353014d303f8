-- ===== src/Theia/World.antt =====
-- What the scripts act on: nodes of the file system, log lines and the commands that were run.
use slapos_abilian_edge.Theia.Paths.{FilePath, path_eq, dirname, is_below, resolve}
use slapos_abilian_edge.Theia.Paths.{relpath, path_text, basename, sort_paths, path_eq_iff, pardir}
use slapos_abilian_edge.Base.{ℕ, zero, suc, ◌-◌, ◌≡◌, Bool, true, false, not, ◌&&◌, ◌||◌, Option}
use slapos_abilian_edge.Base.{none, some, List, [], ◌∷◌, ◌++◌, map, arith, ◌==◌, if◌then◌else◌}
use slapos_abilian_edge.Base.{length, drop}
use slapos_abilian_edge.Base.Py.{Exc, os_error, called_process_error, plain, Outcome, ok, raised}
use slapos_abilian_edge.Base.Py.{Py, pure, raise, ◌>>=◌, ◌>>◌, try_except}
use slapos_abilian_edge.Base.Text.{sort_texts, Text, codes, text_eq, strip, split_on, starts}

pub data Node : Type 0 where
  file : Text → Node
  dir : Node

abbrev pub Nodes : Type 0
Nodes = List (FilePath × Node)

unfoldable pub node_at : FilePath → Nodes → Option Node
node_at p [] = none
node_at p ((q, n) ∷ fs) = let rest = node_at p fs in if path_eq q p then some n else rest

unfoldable pub without : FilePath → Nodes → Nodes
without p [] = []
without p ((q, n) ∷ fs) = let rest = without p fs in if path_eq q p then rest else (q, n) ∷ rest

unfoldable pub put_node : FilePath → Node → Nodes → Nodes
unfolding without
put_node p n fs = (p, n) ∷ without p fs

pub node_at-without :
    (p q : FilePath) (fs : Nodes)
    → node_at q (without p fs) ≡ (if path_eq p q then none else node_at q fs)
unfolding node_at without
node_at-without p q [] = ground arith
node_at-without p q ((r, n) ∷ fs) =
    ground (arith, node_at-without p q fs, path_eq_iff r p, path_eq_iff r q, path_eq_iff p q)

pub node_at-put_node :
    (p q : FilePath) (n : Node) (fs : Nodes)
    → node_at q (put_node p n fs) ≡ (if path_eq p q then some n else node_at q fs)
unfolding node_at put_node
node_at-put_node p q n fs = ground (arith, node_at-without p q fs)

-- The external programs. A tree is copied by rsync with the paths to leave out and more
-- arguments; a test run of the same only lists what it would copy.
pub data Cmd : Type 0 where
  rsync : FilePath → FilePath → List Text → List Text → Cmd
  rsync_dry : FilePath → FilePath → List Text → List Text → Cmd
  sqlite_backup : FilePath → FilePath → Cmd
  diff : FilePath → FilePath → Cmd
  supervisorctl slapos : List Text → Cmd
  script : FilePath → Cmd
  hash_script : FilePath → List Text → Cmd
  http_get : Cmd

-- What stands outside the repository: the programs, SHA-256, `strftime`,
-- `traceback.format_exc`, and `raise_for_status` of
-- requests, and the parser of buildout's files, which gives each section's `__buildout_installed__`.
pub record Tools : Type 0 where
  pub exec : Cmd → Nodes → Outcome Text × Nodes
  pub sha256 : Text → Text
  pub strftime : ℕ → Text
  pub format_exc : Exc → Text
  pub sections : Text → List (Option Text)
  pub raise_for_status : Text → Outcome (Unit {0})

pub record World : Type 0 where
  pub nodes : Nodes
  pub logs : List Text
  pub trace : List Cmd
  pub clock : ℕ

abbrev pub Io : Type 0 → Type 0
Io A = Py World A

abbrev pub exists : FilePath → World → Bool
exists p w = elim (node_at p w.nodes) [ none ↦ false | some _ ↦ true ]

abbrev pub set_nodes : Nodes → World → World
set_nodes fs w = record w { nodes = fs }

-- `open(p).read()`
unfoldable pub read : FilePath → Io Text
read p w = elim (node_at p w.nodes) [
  | some (file text) ↦ (ok text, w)
  | some dir ↦ (raised (os_error 21), w)
  | none ↦ (raised (os_error 2), w)
]

-- `open(p, 'w').write(text)`
unfoldable pub write : FilePath → Text → Io (Unit {0})
write p text w = elim (node_at p w.nodes) [
  | some dir ↦ (raised (os_error 21), w)
  | _ ↦ (ok tt, set_nodes (put_node p (file text) w.nodes) w)
]

-- `remove`: a file that is not there is no error.
unfoldable pub remove : FilePath → Io (Unit {0})
remove p w = elim (node_at p w.nodes) [
  | some dir ↦ (raised (os_error 21), w)
  | _ ↦ (ok tt, set_nodes (without p w.nodes) w)
]

-- `makedirs`: the parents are made too, and what exists is left.
make_parents : FilePath → List Text → Nodes → Nodes
make_parents base [] fs = fs
make_parents base (c ∷ rest) fs =
    let p = base ++ c ∷ [] in
    make_parents p rest (elim (node_at p fs) [ none ↦ put_node p dir fs | some _ ↦ fs ])

unfoldable pub makedirs : FilePath → Io (Unit {0})
unfolding make_parents
makedirs p w = (ok tt, set_nodes (make_parents [] p w.nodes) w)

-- `copyfile`
unfoldable pub copyfile : FilePath → FilePath → Io (Unit {0})
unfolding makedirs read write
copyfile src dst = do makedirs (dirname dst); text ← read src; write dst text

-- The names of the nodes right below `d`, as `glob` and `os.listdir` see them.
names_in : FilePath → Nodes → List FilePath
names_in d [] = []
names_in d ((p, n) ∷ fs) =
    let rest = names_in d fs in
    elim p [ [] ↦ rest | c ∷ q ↦ if path_eq (dirname (c ∷ q)) d then (c ∷ q) ∷ rest else rest ]

unfoldable pub keep : (FilePath → Bool) → List FilePath → List FilePath
keep test [] = []
keep test (p ∷ ps) = let rest = keep test ps in if test p then p ∷ rest else rest

unfoldable pub glob : FilePath → (Text → Bool) → World → List FilePath
unfolding names_in keep
glob d test w = keep (λ p. test (basename p)) (names_in d w.nodes)

-- The files below `root`, in the order of the store: `os.walk` promises none.
files_below : FilePath → Nodes → List FilePath
files_below root [] = []
files_below root ((p, dir) ∷ fs) = files_below root fs
files_below root ((p, file _) ∷ fs) =
    let rest = files_below root fs in if is_below root p then p ∷ rest else rest

unfoldable pub walk : FilePath → World → List FilePath
unfolding files_below
walk root w = files_below root w.nodes

-- `log` of the export: a line as it is.
unfoldable pub log : Text → Io (Unit {0})
log msg w = (ok tt, record w { logs = w.logs ++ msg ∷ [] })

module _ (T : Tools) where
  -- Each command that is run is noted in `trace`.
  unfoldable pub run : Cmd → Io Text
  run cmd w =
      let (r, fs) = T.exec cmd w.nodes in (r, record w { nodes = fs; trace = w.trace ++ cmd ∷ [] })

  -- `RSYNC_REGEX`, which is searched at the start of every line.
  vanished : List Text → Bool
  vanished [] = false
  vanished (line ∷ rest) =
      starts line (codes "file has vanished: ")
      || (starts line (codes "rsync warning: some files vanished before they could be transferred")
          || vanished rest)

  -- Exit status 24 with a notice that files vanished is no error.
  tolerate : Exc → Io Text
  tolerate (called_process_error code output) =
      if code == 24 && vanished (split_on 10 output)
      then pure output
      else raise (called_process_error code output)
  tolerate e = raise e

  unfoldable pub copytree : FilePath → FilePath → List Text → List Text → Io Text
  unfolding run makedirs tolerate vanished
  copytree src dst exclude extra = do
    makedirs dst
    try_except (run (rsync src dst (sort_texts exclude) extra)) tolerate

  -- The same with `--dry-run --update` and a line for each file.
  unfoldable pub copytree_dry : FilePath → FilePath → List Text → List Text → Io Text
  unfolding run makedirs tolerate vanished
  copytree_dry src dst exclude extra = do
    makedirs dst
    try_except (run (rsync_dry src dst (sort_texts exclude) extra)) tolerate

  unfoldable pub copydb : FilePath → FilePath → Io (Unit {0})
  unfolding run makedirs
  copydb src dst = do makedirs (dirname dst); run (sqlite_backup src dst); pure tt

  -- The lines of one `__buildout_installed__`, without the empty ones.
  trimmed : List Text → List Text
  trimmed [] = []
  trimmed (line ∷ rest) = elim (strip line) [ [] ↦ trimmed rest | c ∷ p ↦ (c ∷ p) ∷ trimmed rest ]

  installed_of : List (Option Text) → List Text
  installed_of [] = []
  installed_of (none ∷ rest) = installed_of rest
  installed_of (some value ∷ rest) = trimmed (split_on 10 value) ++ installed_of rest

  is_installed_cfg : Text → Bool
  is_installed_cfg name =
      starts name (codes ".installed") && text_eq (drop (length name - 4) name) (codes ".cfg")

  read_installed : List FilePath → Io (List Text)
  read_installed [] = pure []
  read_installed (cfg ∷ cfgs) = do
    text ← read cfg
    more ← read_installed cfgs
    pure (installed_of (T.sections text) ++ more)

  unfoldable pub parse_installed : FilePath → Io (List Text)
  unfolding read_installed installed_of trimmed is_installed_cfg
  parse_installed partition w = read_installed (glob partition is_installed_cfg w) w

  -- `log` of the import, which stamps its lines.
  unfoldable pub log_at : Text → Io (Unit {0})
  unfolding log
  log_at msg w = log (T.strftime w.clock ++ msg) w

  -- `'%s %s' % (sha256sum(path), path relative to root)`
  unfoldable pub signature_line : FilePath → FilePath → Text → Text
  signature_line root path text = T.sha256 text ++ b' ' ∷ path_text (relpath path root)

  sign_files : FilePath → List FilePath → Io (List Text)
  unfolding read signature_line
  sign_files root [] = pure []
  sign_files root (p ∷ ps) = do
    text ← read p
    more ← sign_files root ps
    pure (signature_line root p text ∷ more)

  unfoldable pub fast_hashwalk : FilePath → Io (List Text)
  unfolding sign_files
  fast_hashwalk root w = sign_files root (walk root w) w

  -- A directory `slappart*` of the instances is not walked.
  in_slappart : FilePath → FilePath → Bool
  in_slappart instance_dir p = elim (relpath (dirname p) instance_dir) [
    | [] ↦ false
    | c ∷ _ ↦ is_below instance_dir p && starts c (codes "slappart")
  ]

  unfoldable pub exclude_hashwalk : FilePath → FilePath → Io (List Text)
  unfolding sign_files in_slappart
  exclude_hashwalk root instance_dir w =
      sign_files root (keep (λ p. not (in_slappart instance_dir p)) (walk root w)) w

  -- `hashwalk(root_dir, instance_dir)`
  unfoldable pub hashwalk : FilePath → Option FilePath → Io (List Text)
  unfolding fast_hashwalk exclude_hashwalk
  hashwalk root none = fast_hashwalk root
  hashwalk root (some instance_dir) =
      if starts (path_text (relpath instance_dir root)) pardir
      then fast_hashwalk root
      else exclude_hashwalk root instance_dir

unfoldable pub hashscript : FilePath → World → Option FilePath
hashscript partition w =
    let path = partition ++ codes "srv" ∷ codes ".backup_identity_script" ∷ [] in
    if exists path w then some path else none

-- The directories of the files of a list, each once.
module _ (T : Tools) where
  dirs_of : List FilePath → List FilePath
  dirs_of [] = []
  dirs_of (p ∷ ps) = dirname p ∷ keep (λ d. not (path_eq d (dirname p))) (dirs_of ps)

  lstrip_newlines : Text → Text
  lstrip_newlines [] = []
  lstrip_newlines (c ∷ s) = let rest = lstrip_newlines s in if c == 10 then rest else c ∷ s

  rstrip_newlines : Text → Text
  rstrip_newlines [] = []
  rstrip_newlines (c ∷ s) = elim (rstrip_newlines s) [
    | [] ↦ if c == 10 then [] else c ∷ []
    | d ∷ t ↦ c ∷ d ∷ t
  ]

  -- The text of a path below `start`, `.` for `start` itself.
  abbrev display : FilePath → FilePath → Text
  display start p = elim (relpath p start) [ [] ↦ codes "." | c ∷ rel ↦ path_text (c ∷ rel) ]

  abbrev label : Text → List Text → List Text
  label place = map (λ s. s ++ b' ' ∷ place)

  -- The signature script is run once for each directory that holds files, on their paths.
  hash_dirs : FilePath → FilePath → List FilePath → List FilePath → Io (List Text)
  hash_dirs partition script_path files [] = pure []
  hash_dirs partition script_path files (d ∷ ds) = do
    out ←
        try_except
          (run T (
            hash_script script_path (
              map
                (λ p.
                  codes "./"
                  ++ path_text (relpath p (resolve partition (pardir ∷ pardir ∷ pardir ∷ []))))
                (keep (λ p. path_eq (dirname p) d) files))))
          (λ e. raise (plain "Custom signature script failed"))
    more ← hash_dirs partition script_path files ds
    pure (
        label (display partition d)
          (sort_texts (split_on 10 (rstrip_newlines (lstrip_newlines out))))
        ++ more)

  unfoldable pub hashcustom : FilePath → FilePath → Io (List Text)
  unfolding hash_dirs dirs_of rstrip_newlines lstrip_newlines
  hashcustom partition script_path w =
      let files = walk partition w in
      hash_dirs partition script_path files (sort_paths (dirs_of files)) w

-- A loop `for i in range(n + 1)` over a `try`: `n` rounds may fail with an exception that is
-- caught, each followed by `pause`, and the last one raises.
unfoldable pub retry : {A : Type 0} → ℕ → Io A → (Exc → Bool) → Io (Unit {0}) → Io A
retry zero m caught pause w = m w
retry (suc n) m caught pause w =
    let (r, w') = m w in
    elim r [
      | ok a ↦ (ok a, w')
      | raised e ↦ if caught e then (pause >> retry n m caught pause) w' else (raised e, w')
    ]
