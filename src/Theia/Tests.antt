-- ===== src/Theia/Tests.antt =====
-- The export and the import of a small Theia.
use slapos_abilian_edge.Theia.Paths.{FilePath, path_eq, add_suffix, join_text}
use slapos_abilian_edge.Theia.World.{
  Node, file, dir, Nodes, Cmd, diff, slapos, Tools, World, node_at, remove,
}
use slapos_abilian_edge.Theia.PathLaws.{mirror_path-dst_path}
use slapos_abilian_edge.Theia.Export.{Exporter, lines_text}
use slapos_abilian_edge.Theia.Export
use slapos_abilian_edge.Theia.Import.{
  Importer, file_lines, sign_line, verify, check_backup, restore, build,
}
use slapos_abilian_edge.Theia.Import
use slapos_abilian_edge.Theia.Signatures.{
  DiffAccepts, DiffRejects, IsDigest, IsWritable, Entry, IsListed, emptied, verify-entries,
  verify_sound,
}
use slapos_abilian_edge.Theia.Safety.{DiffReads, Quiet, restore_refused}
use slapos_abilian_edge.Theia.Outcomes.{
  AreFiles, Reported, Tried, call_reports, export-call_reports, build-Tried,
}
use slapos_abilian_edge.Base.{◌≡◌, refl, ap, ◌≢◌, Bool, true, false, Option, none, some, [], ◌∷◌}
use slapos_abilian_edge.Base.{◌++◌, map, if◌then◌else◌}
use slapos_abilian_edge.Base.Py.{os_error, called_process_error, Outcome, ok, raised}
use slapos_abilian_edge.Base.Text.{Text, codes, text_eq, text_eq_iff, is_white, split_on}

same_node : Option Node → Option Node → Bool
unfolding text_eq
same_node (some (file s)) (some (file t)) = text_eq s t
same_node (some dir) (some dir) = true
same_node none none = true
same_node a b = false

same_node-true : (a b : Option Node) → same_node a b ≡ true → a ≡ b
unfolding same_node
same_node-true none none h = refl
same_node-true none (some b) h = cc
same_node-true (some (file s)) none h = cc
same_node-true (some dir) none h = cc
same_node-true (some (file s)) (some (file t)) h = ap (λ u. some (file u)) ((text_eq_iff s t).0 h)
same_node-true (some dir) (some dir) h = refl
same_node-true (some (file s)) (some dir) h = cc
same_node-true (some dir) (some (file s)) h = cc

same_node-file : (t : Text) → same_node (some (file t)) (some (file t)) ≡ true
unfolding same_node
same_node-file t = (text_eq_iff t t).1 refl

-- A `diff` that compares two files, and commands that do nothing.
exec : Cmd → Nodes → Outcome Text × Nodes
unfolding same_node node_at
exec (diff a b) fs = (
  if same_node (node_at a fs) (node_at b fs) then ok [] else raised (called_process_error 1 []),
  fs,
)
exec cmd fs = (ok [], fs)

abbrev tools : Tools
tools = record {
  exec = exec;
  sha256 = λ text. codes "e3b0";
  strftime = λ t. codes "now";
  format_exc = λ e. codes "Traceback";
  sections = λ text. [];
  raise_for_status = λ response. ok tt;
}

exec-DiffAccepts : DiffAccepts tools
unfolding exec
exec-DiffAccepts a b fs t h k = ([], rw (h, k, same_node-file t) refl)

exec-DiffRejects : DiffRejects tools
unfolding exec
exec-DiffRejects a b fs fs' out h =
    same_node-true (node_at a fs) (node_at b fs)
      (accepted (same_node (node_at a fs) (node_at b fs)) h)
  where
    accepted :
        (c : Bool)
        → ◌≡◌ {A = Outcome Text × Nodes}
            (if c then ok [] else raised (called_process_error 1 []), fs)
            (ok out, fs')
        → c ≡ true
    accepted true k = refl
    accepted false k = cc

exec-DiffReads : DiffReads tools
unfolding exec
exec-DiffReads a b fs = refl

abbrev root : FilePath
root = codes "srv" ∷ codes "runner" ∷ []

abbrev backup : FilePath
backup = codes "srv" ∷ codes "backup" ∷ []

abbrev exporter : Exporter
exporter = record {
  root_dir = root;
  backup_dir = backup;
  dirs = [];
  files = [];
  exit_file = codes "exit" ∷ [];
  error_file = codes "error" ∷ [];
  proxy_db = codes "srv" ∷ codes "runner" ∷ codes "proxy.db" ∷ [];
  instance_dir = codes "srv" ∷ codes "runner" ∷ codes "instance" ∷ [];
  partition_dirs = [];
}

abbrev importer : Importer
importer = record {
  root_dir = root;
  backup_dir = backup;
  dirs = [];
  files = [];
  exit_file = codes "exit" ∷ [];
  error_file = codes "error" ∷ [];
  sr_log = codes "sr.log";
  cp_log = codes "cp.log";
  proxy_db = codes "srv" ∷ codes "runner" ∷ codes "proxy.db" ∷ [];
  instance_dir = codes "srv" ∷ codes "runner" ∷ codes "instance" ∷ [];
  mirror_partition_dirs = [];
}

mirror_path_example :
    (Export.mirror_path tools exporter (root ++ codes "etc" ∷ []) ≡ backup ++ codes "etc" ∷ [])
    × (Import.mirror_path tools importer (root ++ codes "etc" ∷ []) ≡ backup ++ codes "etc" ∷ [])
    × (Import.dst_path tools importer (backup ++ codes "etc" ∷ []) ≡ root ++ codes "etc" ∷ [])
unfolding text_eq
mirror_path_example =
    mirror_path-dst_path tools exporter importer (codes "etc" ∷ []) refl refl (refl, tt)

abbrev world : World
world = record { nodes = []; logs = []; trace = []; clock = 0 }

build_example :
    Tried tools importer
      (codes "node" ∷ [])
      3
      world
      (build tools importer (codes "node" ∷ []) world)
build_example = build-Tried tools importer (codes "node" ∷ []) world

-- The mirror of `root` with one file and its signature file.
abbrev sf : FilePath
sf = codes "srv" ∷ codes "backup" ∷ codes "backup.signature" ∷ []

abbrev entry : Entry
entry = (codes "etc/a", codes "text")

abbrev mirror : World
mirror = record {
  nodes =
      (sf, file (codes "e3b0 etc/a\n"))
      ∷ (codes "srv" ∷ codes "backup" ∷ codes "etc" ∷ codes "a" ∷ [], file (codes "text"))
      ∷ [];
  logs = [];
  trace = [];
  clock = 0;
}

digest : (s : Text) → IsDigest (tools.sha256 s)
unfolding is_white
digest s = record { head = refl; black = (refl, (refl, (refl, (refl, tt)))) }

entry-IsListed : IsListed tools backup mirror.nodes entry
unfolding node_at path_eq join_text text_eq split_on is_white
entry-IsListed = (
  record { head = refl; end = refl; one_line = (refl, (refl, (refl, (refl, (refl, tt))))) },
  digest (codes "text"),
  refl,
)

none_ne : (n : Node) → none ≢ some n
none_ne n h = cc

proof-IsWritable : IsWritable (add_suffix sf (codes ".proof")) mirror
unfolding node_at path_eq add_suffix text_eq
proof-IsWritable h = none_ne dir h

proof_apart : path_eq (add_suffix sf (codes ".proof")) sf ≡ false
unfolding path_eq add_suffix text_eq
proof_apart = refl

verify-entries_example : (verify tools importer sf backup false mirror).0 ≡ ok tt
unfolding node_at path_eq text_eq add_suffix join_text split_on
verify-entries_example =
    verify-entries tools importer sf backup mirror (entry ∷ []) exec-DiffAccepts digest
      proof-IsWritable proof_apart refl (entry-IsListed, tt) (refl, tt)

verified : World
verified = (verify tools importer sf backup false mirror).1

verified_ok : verify tools importer sf backup false mirror ≡ (ok tt, verified)
unfolding verified
verified_ok = ap (λ r. (r, verified)) verify-entries_example

verify_sound_example :
    (text : Text) × (node_at sf mirror.nodes ≡ some (file text))
    × (text
        ≡ lines_text (
            map
              (sign_line tools backup (emptied tools importer sf backup mirror))
              (file_lines text)))
verify_sound_example =
    verify_sound tools importer sf backup mirror verified exec-DiffRejects proof-IsWritable
      proof_apart verified_ok

-- There is no mirror: the check of the backup fails.
checked : World
checked = (check_backup tools importer world).1

check_fails : check_backup tools importer world ≡ (raised (os_error 2), checked)
unfolding checked check_backup slapos_abilian_edge.Theia.World.log_at verify
    slapos_abilian_edge.Theia.World.write node_at Import.sign slapos_abilian_edge.Theia.World.read
    slapos_abilian_edge.Theia.World.put_node path_eq add_suffix text_eq
check_fails = refl

restore_refused_example :
    (restore tools importer world ≡ (raised (os_error 2), checked)) × Quiet backup world checked
restore_refused_example =
    restore_refused tools importer exec-DiffReads world checked (os_error 2) check_fails

checked_files : AreFiles (codes "exit" ∷ []) (codes "error" ∷ []) checked
unfolding checked check_backup slapos_abilian_edge.Theia.World.log_at verify
    slapos_abilian_edge.Theia.World.write node_at Import.sign slapos_abilian_edge.Theia.World.read
    slapos_abilian_edge.Theia.World.put_node path_eq add_suffix text_eq
checked_files = record {
  exit_writable = λ h. none_ne dir h;
  error_writable = λ h. none_ne dir h;
  error_ne = refl;
  exit_ne = refl;
}

removed : remove (codes "error" ∷ []) world ≡ (ok tt, world)
unfolding remove node_at slapos_abilian_edge.Theia.World.without
removed = refl

call_reports_example :
    ((Import.call tools importer world).0 ≡ ok 1)
    × Reported {A = Unit {0}}
        (codes "exit" ∷ [])
        (codes "error" ∷ [])
        (raised (os_error 2))
        (Import.call tools importer world).1
call_reports_example =
    call_reports tools importer world world checked (raised (os_error 2)) removed
      restore_refused_example.0 checked_files

-- A directory stands where the export writes its time.
blocked : World
blocked = record {
  nodes = (root ++ codes "etc" ∷ codes ".resilient_timestamp" ∷ [], dir) ∷ [];
  logs = [];
  trace = [];
  clock = 0;
}

exported : World
exported = (Export.export tools exporter blocked).1

export_fails : Export.export tools exporter blocked ≡ (raised (os_error 21), exported)
unfolding exported blocked Export.export slapos_abilian_edge.Theia.World.write node_at path_eq
    text_eq
export_fails = refl

exported_files : AreFiles (codes "exit" ∷ []) (codes "error" ∷ []) exported
unfolding exported blocked Export.export slapos_abilian_edge.Theia.World.write node_at path_eq
    text_eq
exported_files = record {
  exit_writable = λ h. none_ne dir h;
  error_writable = λ h. none_ne dir h;
  error_ne = refl;
  exit_ne = refl;
}

blocked_removed : remove (codes "error" ∷ []) blocked ≡ (ok tt, blocked)
unfolding blocked remove node_at path_eq text_eq slapos_abilian_edge.Theia.World.without
blocked_removed = refl

export-call_reports_example :
    ((Export.call tools exporter blocked).0 ≡ ok 1)
    × Reported {A = Unit {0}}
        (codes "exit" ∷ [])
        (codes "error" ∷ [])
        (raised (os_error 21))
        (Export.call tools exporter blocked).1
export-call_reports_example =
    export-call_reports tools exporter blocked blocked exported (raised (os_error 21))
      blocked_removed export_fails exported_files
