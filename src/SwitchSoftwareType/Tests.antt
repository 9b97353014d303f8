-- ===== src/SwitchSoftwareType/Tests.antt =====
-- A root instance without a mapping of its own.
use slapos_abilian_edge.Base.{String, ◌≡◌, refl, [], ◌∷◌}
use slapos_abilian_edge.Base.Dict.{lookup}
use slapos_abilian_edge.Base.Py.{ok}
use slapos_abilian_edge.Base.Str.{str_split}
use slapos_abilian_edge.SwitchSoftwareType.{
  Options, Sections, Recipe, value_of, requested_type, mapped, init,
}
use slapos_abilian_edge.SwitchSoftwareType.Laws.{Chosen, init-Chosen}

abbrev sections : Sections
sections =
    ("slap-configuration", ("slap-software-type", "RootSoftwareInstance") ∷ [])
    ∷ ("instance", ("rendered", "instance.cfg") ∷ [])
    ∷ []

abbrev options : Options
options = ("default", "instance:rendered") ∷ []

abbrev recipe : Recipe
recipe = record { name = "switch"; software_type = "default"; base = "instance.cfg" }

initialized : init sections "switch" options ≡ ok recipe
unfolding init lookup str_split
initialized = refl

init-Chosen_example :
    (t section key : String) × (requested_type sections ≡ ok t)
    × Chosen options t "default"
    × (mapped options "default" ≡ ok (section, key))
    × (value_of sections section key ≡ ok "instance.cfg")
init-Chosen_example = init-Chosen sections "switch" options recipe initialized
