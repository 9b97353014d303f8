-- ===== src/Generic/Tests.antt =====
-- A script that is created and created again, a directory in its way, and values of options.
use slapos_abilian_edge.Generic.{
  file, directory, Disk, System, create_file, python_script, create_wrapper, parse_private_tmpfs,
  netloc,
}
use slapos_abilian_edge.Generic.Files.{create_file_lem, create_file-again, Created, Others}
use slapos_abilian_edge.Base.{◌≡◌, refl, true, none, some, [], ◌∷◌, str_eq, leb, if◌then◌else◌}
use slapos_abilian_edge.Base.Py.{os_error, ok, raised, is_ok}
use slapos_abilian_edge.Base.Text.{codes}

abbrev system : System
system = record {
  can_read = λ m. leb 256 m;
  write_error = λ p. if str_eq p "/etc/x" then 13 else 0;
  default_mode = 420;
  abspath = λ p. p;
}

abbrev disk : Disk
disk = record {
  nodes = ("/bin/run", file (codes "old") 384 1) ∷ ("/etc", directory) ∷ [];
  next_inode = 2;
}

create_file_example :
    Others system "/bin/run" disk (create_file system "/bin/run" (codes "new") (some 448) disk).1
    × (is_ok (create_file system "/bin/run" (codes "new") (some 448) disk).0 ≡ true
        → Created system "/bin/run"
            (codes "new")
            (some 448)
            (create_file system "/bin/run" (codes "new") (some 448) disk).1)
create_file_example = create_file_lem system "/bin/run" (codes "new") (some 448) disk

create_file-again_example :
    create_file system "/bin/run"
      (codes "new")
      (some 448)
      (create_file system "/bin/run" (codes "new") (some 448) disk).1
    ≡ (ok "/bin/run", (create_file system "/bin/run" (codes "new") (some 448) disk).1)
unfolding create_file
create_file-again_example = create_file-again system "/bin/run" (codes "new") 448 disk refl refl

directory_refused : (create_file system "/etc" (codes "new") none disk).0 ≡ raised (os_error 21)
unfolding create_file
directory_refused = refl

wrapper_of_python :
    create_wrapper
      (λ t. t)
      (λ _. codes "args")
      (λ _. codes "env")
      (codes "run")
      (codes "a" ∷ [])
      []
      (some [])
      ((codes "pidfile", codes "'p'") ∷ [])
    ≡ ok (
        python_script (record {
          filename = codes "run";
          module_name = codes "slapos.recipe.librecipe.execute";
          function_name = codes "generic_exec";
          arguments = codes "args, pidfile='p'";
        }))
unfolding create_wrapper
wrapper_of_python = refl

tmpfs :
    parse_private_tmpfs (("private-tmpfs", codes "1g  /tmp/a b\n\n2m /b") ∷ [])
    ≡ ok ((codes "1g", codes "/tmp/a b") ∷ (codes "2m", codes "/b") ∷ [])
unfolding parse_private_tmpfs
tmpfs = refl

netloc_runs :
    netloc (λ t. t) (codes "::1") (some 80) (some (codes "me", none)) ≡ codes "me@[::1]:80"
unfolding netloc
netloc_runs = refl
