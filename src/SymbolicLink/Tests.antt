-- ===== src/SymbolicLink/Tests.antt =====
-- A link where a program stands.
use slapos_abilian_edge.Base.{String, ◌≡◌, refl, some, [], ◌∷◌}
use slapos_abilian_edge.Base.Dict.{Dict, lookup}
use slapos_abilian_edge.SymbolicLink.{Files, occupied, install, install-occupied}

abbrev options : Dict String
options = ("target-directory", "/bin") ∷ ("link-binary", "/opt/a /opt/b") ∷ []

abbrev files : Files
files = ("/bin/b", occupied) ∷ []

install-occupied_example : lookup "/bin/b" (install options files).1 ≡ some occupied
unfolding lookup
install-occupied_example = install-occupied options "/bin/b" files refl
