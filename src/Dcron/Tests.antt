-- ===== src/Dcron/Tests.antt =====
-- Timers at concrete specifications.
use slapos_abilian_edge.Base.{String, ◌≡◌, refl, some, [], ◌∷◌}
use slapos_abilian_edge.Base.Dict.{Dict, lookup, insert}
use slapos_abilian_edge.Base.Py.{ok}
use slapos_abilian_edge.Base.Text.{Text, codes, text_eq, strip, split_on, split_first, join}
use slapos_abilian_edge.Base.Text.{has_char, int, show}
use slapos_abilian_edge.Base.Str.{path_join}
use slapos_abilian_edge.Dcron.{field, piece, systemd_to_cron}
use slapos_abilian_edge.Dcron.Part
use slapos_abilian_edge.Dcron.Entries.{Installed, part_install-Installed}

every_quarter : field 0 24 (codes "0/6") ≡ ok (codes "0-18/6")
unfolding field text_eq split_on piece split_first int show
every_quarter = refl

step_piece : piece 0 60 (codes "0/15") ≡ ok (some (codes "0-45/15"))
unfolding piece split_first int show
step_piece = refl

abbrev quarters : Text
quarters = codes "fri,mon *-*-* 0/6:15"

-- A space in front stands for no day of the week: the last field is empty.
space_in_front : systemd_to_cron (codes " 1:30") ≡ ok (codes "30 1 * * ")
unfolding systemd_to_cron text_eq strip split_on has_char join split_first int
space_in_front = refl

-- An entry whose command is missing, beside another.
abbrev part : Dict String
part = ("frequency", "0 * * * *") ∷ ("cron-entries", "/cron.d") ∷ ("name", "backup") ∷ []

abbrev crontab : Dict Text
crontab = ("/cron.d/other", codes "0 0 * * * true") ∷ ("/cron.d/backup", codes "old") ∷ []

entry_made : Part.entry part ≡ ok ("/cron.d/backup", codes "0 * * * *")
unfolding Part.entry lookup path_join
entry_made = refl

emptied :
    (Part.part_install part crontab).1
    ≡ ("/cron.d/other", codes "0 0 * * * true") ∷ ("/cron.d/backup", []) ∷ []
unfolding Part.part_install lookup insert path_join
emptied = refl

part_install-Installed_example : Installed part crontab (Part.part_install part crontab)
part_install-Installed_example = part_install-Installed part crontab
