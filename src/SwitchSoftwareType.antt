-- ===== src/SwitchSoftwareType.antt =====
-- slapos/recipe/switch_softwaretype.py: the inner buildout that instantiates the software type
-- that was asked for.
mod Laws
mod Tests
use slapos_abilian_edge.Base.{String, ◌<>◌, Option, none, some, List, [], ◌∷◌, ◌++◌, str_eq}
use slapos_abilian_edge.Base.{if◌then◌else◌}
use slapos_abilian_edge.Base.Dict.{Dict, lookup, erase, update}
use slapos_abilian_edge.Base.Py.{key_error, value_error, user_error, missing_option}
use slapos_abilian_edge.Base.Py.{missing_section, Outcome, ok, raised, bind}
use slapos_abilian_edge.Base.Str.{str_split}

abbrev pub Options : Type 0
Options = Dict String

-- The sections of the main buildout.
abbrev pub Sections : Type 0
Sections = Dict Options

-- `buildout[section][key]`
unfoldable pub value_of : Sections → String → String → Outcome String
value_of sections section key = elim (lookup section sections) [
  | none ↦ raised missing_section
  | some options ↦ elim (lookup key options) [ none ↦ raised missing_option | some v ↦ ok v ]
]

-- The software type, whose absence is the profile's mistake.
unfoldable pub requested_type : Sections → Outcome String
unfolding value_of
requested_type sections = elim (value_of sections "slap-configuration" "slap-software-type") [
  | ok t ↦ ok t
  | raised missing_section ↦ raised user_error
  | raised missing_option ↦ raised user_error
  | raised e ↦ raised e
]

-- `section, key = v.split(":")`
unfoldable pub split_pair : String → Outcome (String × String)
split_pair v = elim (str_split b':' v) [
  | [] ↦ raised value_error
  | section ∷ rest ↦ elim rest [
    | [] ↦ raised value_error
    | key ∷ more ↦ elim more [ [] ↦ ok (section, key) | _ ∷ _ ↦ raised value_error ]
  ]
]

unfoldable pub mapped : Options → String → Outcome (String × String)
unfolding split_pair
mapped options t = elim (lookup t options) [ none ↦ raised missing_option | some v ↦ split_pair v ]

-- The type and what it is mapped to. `RootSoftwareInstance` without a mapping is `default`; a
-- mapping of `default` that cannot be split is not handled there.
unfoldable pub choose : Options → String → Outcome (String × (String × String))
unfolding mapped
choose options t = elim (mapped options t) [
  | ok p ↦ ok (t, p)
  | raised missing_option ↦
      let fallback = bind (mapped options "default") (λ p. ok ("default", p)) in
      if str_eq t "RootSoftwareInstance" then fallback else raised missing_option
  | raised value_error ↦ raised user_error
  | raised e ↦ raised e
]

pub record Recipe : Type 0 where
  pub name : String
  pub software_type : String
  pub base : String

-- `Recipe.__init__`
unfoldable pub init : Sections → String → Options → Outcome Recipe
unfolding requested_type choose value_of
init sections name options = bind (requested_type sections) λ t. bind (choose options t) λ chosen.
    bind (value_of sections chosen.1.0 chosen.1.1)
      λ base. ok (record { name = name; software_type = chosen.0; base = base })

-- An option of the inner buildout: section, key and value.
abbrev pub Override : Type 0
Override = String × String × String

-- The profile that is instantiated, and the options that go before its own.
pub record Inner : Type 0 where
  pub profile : String
  pub options : List Override

-- The options that `SubBuildout` copies from `[buildout]`.
abbrev pub inherited : List String
inherited =
    "offline" ∷ "verbosity" ∷ "newest" ∷ "directory" ∷ "eggs-directory" ∷ "develop-eggs-directory"
    ∷ []

unfoldable pub copied : Options → List String → List Override
copied options [] = []
copied options (key ∷ names) =
    let rest = copied options names in
    elim (lookup key options) [ some v ↦ ("buildout", key, v) ∷ rest | none ↦ rest ]

-- Each option of a section.
unfoldable pub section_options : String → Options → List Override
section_options section [] = []
section_options section ((k, v) ∷ options) = (section, k, v) ∷ section_options section options

-- `options[section]`, as buildout reads a section.
unfoldable pub section_of : Sections → String → Outcome Options
section_of sections section = elim (lookup section sections) [
  | none ↦ raised missing_section
  | some o ↦ ok o
]

-- `SubBuildout.__init__`, where `dumps` is buildout's serialization of a section.
unfoldable pub sub_buildout : (Options → String) → Sections → String → List Override → Outcome Inner
unfolding copied section_options section_of
sub_buildout dumps sections profile options = bind (section_of sections "buildout") λ main.
    bind (section_of sections "slap-connection") λ connection.
      bind (section_of sections "slap-configuration") λ configuration. ok (record {
        profile = profile;
        options =
            options
            ++ (copied main inherited
                ++ (section_options "slap-connection" connection
                    ++ (("slap-configuration", "-switch-softwaretype.noop", dumps configuration)
                        ∷ (
                          "slap-configuration", "recipe",
                          "slapos.cookbook:switch-softwaretype.noop",
                        )
                        ∷ [])));
      })

-- The profile and the first options; a profile that overrides extends the one of the type.
unfoldable pub overridden : Recipe → Option Options → String × List Override
overridden r override =
    let installed : Override = ("buildout", "installed", ".installed-" <> (r.name <> ".cfg")) in
    elim override [
      | none ↦ (r.base, installed ∷ [])
      | some profiles ↦ elim (lookup r.software_type profiles) [
        | none ↦ (r.base, installed ∷ [])
        | some profile ↦ (profile, installed ∷ ("buildout", "extends", r.base) ∷ [])
      ]
    ]

-- `Recipe.install`, up to the run of the inner buildout
unfoldable pub install : (Options → String) → Sections → Recipe → Option Options → Outcome Inner
unfolding overridden sub_buildout
install dumps sections r override =
    let (profile, options) = overridden r override in sub_buildout dumps sections profile options

-- `NoOperation.__init__`: the section is filled with what was serialized.
unfoldable pub no_operation : (String → Options) → Options → Outcome Options
no_operation loads options = elim (lookup "-switch-softwaretype.noop" options) [
  | none ↦ raised key_error
  | some v ↦ ok (update (erase "-switch-softwaretype.noop" options) (loads v))
]
