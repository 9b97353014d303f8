-- ===== src/Postgres.antt =====
-- slapos/recipe/postgres.py: the recipe that makes a PostgreSQL cluster and its configuration.
mod Laws
mod Tests
use slapos_abilian_edge.Base.{ℕ, String, ◌<>◌, Bool, true, false, ◌||◌, Option, none, some, List}
use slapos_abilian_edge.Base.{[], ◌∷◌, ◌++◌, map, str_eq, ◌==◌, if◌then◌else◌}
use slapos_abilian_edge.Base.Dict.{Dict, lookup, insert, erase, has}
use slapos_abilian_edge.Base.Py.{user_error, os_error, called_process_error, plain, Outcome, ok}
use slapos_abilian_edge.Base.Py.{raised, Py, pure, run_on, ◌>>=◌, ◌>>◌}
use slapos_abilian_edge.Base.Text.{Text, codes, join}
use slapos_abilian_edge.Base.Str.{words, strip_prefix}

-- The files and directories by path; a directory is an entry without content.
abbrev pub Disk : Type 0
Disk = Dict Text

-- The options that the recipe reads.
pub record Options : Type 0 where
  pub bin : String
  pub dbname : Text
  pub ipv4 : List Text
  pub ipv6 : List Text
  pub port : Text
  pub pgdata : String
  pub services : String
  pub superuser : Text
  pub password : Text
  pub ipv4_netmask_bits : Option Text
  pub ipv6_netmask_bits : Option Text

-- The code that is not here: a program with its words and its standard input, with the exit status
-- and the disk after it; the number of the error of a write, 0 for none; the hexadecimal MD5 digest;
-- and the order in which a set of addresses comes out.
pub record System : Type 0 where
  pub run : List Text → Text → Disk → ℕ × Disk
  pub write_error : String → ℕ
  pub md5 : Text → Text
  pub set_order : List Text → List Text

-- `options['url']` for the first address, if there is one.
unfoldable pub url_option : Options → Option Text
url_option o = elim o.ipv6 as (λ _. Option Text) [
  | [] ↦ none
  | ip ∷ ips ↦ some (
      codes "postgresql://"
      ++ (o.superuser
          ++ (b':'
              ∷ (o.password
                  ++ (codes "@[" ++ (ip ++ (codes "]:" ++ (o.port ++ (b'/' ∷ o.dbname)))))))))
]

-- A path in a directory, or the directory itself.
abbrev pub below : Option String → Bool
below none = false
below (some rest) =
    str_eq rest "" || (elim (strip_prefix "/" rest) [ none ↦ false | some _ ↦ true ])

unfoldable pub drop_tree : String → Disk → Disk
unfolding strip_prefix
drop_tree dir [] = []
drop_tree dir ((path, content) ∷ disk) =
    let rest = drop_tree dir disk in
    if below (strip_prefix dir path) then rest else (path, content) ∷ rest

-- `shutil.rmtree`
abbrev pub rmtree : String → Py Disk (Unit {0})
rmtree dir disk = if has dir disk then (ok tt, drop_tree dir disk) else (raised (os_error 2), disk)

-- `os.path.join` of two parts
abbrev pub beside : String → String → String
beside dir name = dir <> ("/" <> name)

abbrev pub or_default : Text → Option Text → Text
or_default t none = t
or_default t (some u) = u

abbrev pub hba_line : Text → Text → Text
hba_line bits ip =
    codes "host    all             all             "
    ++ (ip ++ (b'/' ∷ (bits ++ codes "                   md5")))

-- The lines of `pg_hba.conf`.
unfoldable pub hba_lines : Options → List Text
hba_lines o =
    codes "# TYPE  DATABASE        USER            ADDRESS                 METHOD"
    ∷ []
    ∷ codes
        "# \"local\" is for Unix domain socket connections only (check unix_socket_permissions!)"
    ∷ codes "local   all             all                                     trust"
    ∷ codes "host    all             all             127.0.0.1/32            md5"
    ∷ codes "host    all             all             ::1/128                 md5"
    ∷ (map (hba_line (or_default (codes "32") o.ipv4_netmask_bits)) o.ipv4
        ++ map (hba_line (or_default (codes "128") o.ipv6_netmask_bits)) o.ipv6)

abbrev pub port_line : Text → Text
port_line [] = []
port_line (c ∷ port) = codes "port = " ++ (c ∷ port)

module _ (Y : System) (o : Options) where
  -- `check_exists`
  abbrev pub check_exists : String → Py Disk (Unit {0})
  check_exists path disk = if has path disk then (ok tt, disk) else (raised (plain "IOError"), disk)

  abbrev pub write : String → Text → Py Disk (Unit {0})
  write path content disk =
      if Y.write_error path == 0
      then (ok tt, insert path content disk)
      else (raised (os_error (Y.write_error path)), disk)

  abbrev pub program : String → List Text → List Text
  program name words = codes (beside o.bin name) ∷ words

  abbrev pub or_user_error : ℕ × Disk → Outcome (Unit {0}) × Disk
  or_user_error (status, disk) = if status == 0 then (ok tt, disk) else (raised user_error, disk)

  -- `createCluster`
  unfoldable pub create_cluster : Py Disk (Unit {0})
  unfolding lookup
  create_cluster = check_exists (beside o.bin "initdb") >> λ disk. or_user_error (
      Y.run
        (program "initdb" (
          codes "-D"
          ∷ codes o.pgdata
          ∷ codes "-A"
          ∷ codes "ident"
          ∷ codes "-E"
          ∷ codes "UTF8"
          ∷ codes "-U"
          ∷ o.superuser
          ∷ []))
        [] disk)

  -- The text of `postgresql.conf`.
  abbrev pub postgres_conf : Text
  postgres_conf = join (10 ∷ []) (
      (codes "listen_addresses = '"
        ++ (join (codes ",") (Y.set_order (o.ipv4 ++ o.ipv6)) ++ codes "'"))
      ∷ port_line o.port
      ∷ codes "logging_collector = on"
      ∷ codes "log_rotation_size = 50MB"
      ∷ codes "max_connections = 100"
      ∷ codes "datestyle = 'iso, mdy'"
      ∷ []
      ∷ codes "lc_messages = 'C.UTF-8'"
      ∷ codes "lc_monetary = 'C.UTF-8'"
      ∷ codes "lc_numeric = 'C.UTF-8'"
      ∷ codes "lc_time = 'C.UTF-8'"
      ∷ codes "default_text_search_config = 'pg_catalog.english'"
      ∷ []
      ∷ (codes "unix_socket_directories = '" ++ (codes o.pgdata ++ codes "'"))
      ∷ codes "unix_socket_permissions = 0700"
      ∷ []
      ∷ [])

  abbrev pub conf_path : String
  conf_path = beside o.pgdata "postgresql.conf"

  abbrev pub hba_path : String
  hba_path = beside o.pgdata "pg_hba.conf"

  -- `createConfig`
  unfoldable pub create_config : Py Disk (List String)
  unfolding join hba_lines insert
  create_config =
      (write conf_path postgres_conf >> write hba_path (join (10 ∷ []) (hba_lines o)))
      >> pure (conf_path ∷ hba_path ∷ [])

  -- `runPostgresCommand`: the exit status is not looked at, and nothing raises the exception that
  -- the code handles.
  unfoldable pub run_postgres_command : Text → Py Disk (Unit {0})
  run_postgres_command cmd disk = (
    ok tt,
    (Y.run
        (program "postgres"
          (codes "--single" ∷ codes "-D" ∷ codes o.pgdata ∷ codes "postgres" ∷ []))
        (cmd ++ (10 ∷ [])) disk).1,
  )

  -- `createDatabase`
  unfoldable pub create_database : Py Disk (Unit {0})
  unfolding run_postgres_command
  create_database = run_postgres_command (codes "CREATE DATABASE \"" ++ (o.dbname ++ codes "\""))

  abbrev pub pid_path : String
  pid_path = beside o.pgdata "postmaster.pid"

  -- The answer of `pg_ctl status`: 3 says that no server runs.
  abbrev pub server_status : ℕ × Disk → Outcome Bool × Disk
  server_status (status, disk) =
      if status == 0
      then (ok true, disk)
      else if status == 3
      then (ok false, erase pid_path disk)
      else (raised (called_process_error status []), disk)

  -- `isPosgresServerRunning`
  unfoldable pub is_server_running : Py Disk Bool
  unfolding lookup erase
  is_server_running disk =
      let checked = run_on {B = Bool} (check_exists (beside o.bin "pg_ctl") disk) (λ _ d.
        server_status
          (Y.run (program "pg_ctl" (codes "status" ∷ codes "-D" ∷ codes o.pgdata ∷ [])) [] d)) in
      if has pid_path disk then checked else (ok false, disk)

  abbrev pub password_query : Text
  password_query =
      codes "ALTER USER \""
      ++ (o.superuser
          ++ (codes "\" ENCRYPTED PASSWORD 'md5"
              ++ (Y.md5 (o.password ++ o.superuser) ++ codes "'")))

  abbrev pub send_query : Bool → Py Disk (Unit {0})
  send_query true disk = or_user_error (
      Y.run
        (program "psql" (
          codes "-h"
          ∷ codes o.pgdata
          ∷ codes "-p"
          ∷ o.port
          ∷ codes "-U"
          ∷ o.superuser
          ∷ codes "-d"
          ∷ o.dbname
          ∷ []))
        (password_query ++ (10 ∷ [])) disk)
  send_query false disk = run_postgres_command password_query disk

  -- `updateSuperuser`
  unfoldable pub update_superuser : Py Disk (Unit {0})
  unfolding is_server_running run_postgres_command
  update_superuser = is_server_running >>= send_query

  -- `createRunScript`
  unfoldable pub create_run_script : Py Disk (List String)
  unfolding insert
  create_run_script =
      let name = beside o.services "postgres-start" in
      write name (
        join (10 ∷ []) (
          codes "#!/bin/sh"
          ∷ (codes "exec " ++ (codes o.bin ++ codes "/postgres \\"))
          ∷ (codes "    -D " ++ codes o.pgdata)
          ∷ []
          ∷ []))
      >> pure (name ∷ [])

  -- The steps for a new cluster.
  unfoldable pub create_all : Py Disk (List String)
  unfolding create_cluster create_config create_database update_superuser create_run_script
  create_all =
      create_cluster
      >> (create_config >>= λ config.
          create_database
          >> (update_superuser >> (create_run_script >>= λ script. pure (config ++ script))))

  -- `except: shutil.rmtree(pgdata); raise`; an error of the removal replaces the exception.
  abbrev pub removed_after : Outcome (List String) × Disk → Outcome (List String) × Disk
  removed_after (ok paths, disk) = (ok paths, disk)
  removed_after (raised e, disk) =
      run_on {B = List String} (rmtree o.pgdata disk) (λ _ d. (raised e, d))

  -- `install`
  unfoldable pub install : Py Disk (List String)
  unfolding create_all drop_tree create_config create_run_script update_superuser
  install disk =
      if has o.pgdata disk
      then (create_config >>= λ config.
            create_run_script >>= λ script. update_superuser >> pure (config ++ script))
          disk
      else removed_after (create_all disk)
