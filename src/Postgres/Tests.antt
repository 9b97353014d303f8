-- ===== src/Postgres/Tests.antt =====
-- A cluster whose configuration cannot be written.
use slapos_abilian_edge.Postgres.{Disk, Options, System, install, url_option}
use slapos_abilian_edge.Postgres.Laws.{install-not_half}
use slapos_abilian_edge.Base.{◌≡◌, refl, false, none, some, [], ◌∷◌, str_eq, if◌then◌else◌}
use slapos_abilian_edge.Base.Dict.{insert, has}
use slapos_abilian_edge.Base.Py.{os_error, raised}
use slapos_abilian_edge.Base.Text.{codes}

abbrev options : Options
options = record {
  bin = "/bin";
  dbname = codes "db";
  ipv4 = [];
  ipv6 = codes "::1" ∷ [];
  port = codes "5432";
  pgdata = "/srv/pg";
  services = "/etc/service";
  superuser = codes "root";
  password = codes "pw";
  ipv4_netmask_bits = none;
  ipv6_netmask_bits = none;
}

-- Every program works, and initdb makes the directory.
abbrev system : System
system = record {
  run = λ words input disk. (0, insert "/srv/pg/PG_VERSION" [] (insert "/srv/pg" [] disk));
  write_error = λ path. if str_eq path "/srv/pg/pg_hba.conf" then 28 else 0;
  md5 = λ t. t;
  set_order = λ ips. ips;
}

abbrev disk : Disk
disk = ("/bin/initdb", []) ∷ []

install-not_half_example : has "/srv/pg" (install system options disk).1 ≡ false
unfolding install
install-not_half_example = install-not_half system options disk refl refl

failed : install system options disk ≡ (raised (os_error 28), disk)
unfolding install
failed = refl

url : url_option options ≡ some (codes "postgresql://root:pw@[::1]:5432/db")
unfolding url_option
url = refl
