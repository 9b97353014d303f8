-- ===== src/Dcron/Part.antt =====
-- The recipes of slapos/recipe/dcron.py: `Recipe`, the daemon, and `Part`, one entry of a crontab
-- directory.
use slapos_abilian_edge.Base.{String, none, some, List, [], ◌∷◌, ◌++◌}
use slapos_abilian_edge.Base.Dict.{Dict, lookup, insert}
use slapos_abilian_edge.Base.Py.{user_error, missing_option, Outcome, ok, raised, bind, Py}
use slapos_abilian_edge.Base.Text.{Text, codes, strip}
use slapos_abilian_edge.Base.Str.{path_join}
use slapos_abilian_edge.Dcron.{systemd_to_cron}

abbrev pub Options : Type 0
Options = Dict String

-- `options[key]`
unfoldable pub option : Options → String → Outcome String
option options key = elim (lookup key options) [ none ↦ raised missing_option | some v ↦ ok v ]

-- `Recipe.install`: the wrapper and the command that it starts.
unfoldable pub crond_command : Options → Outcome (String × List Text)
unfolding option
crond_command options = bind (option options "binary") λ binary.
    bind (option options "dcrond-binary") λ dcrond. bind (option options "cron-entries") λ entries.
      bind (option options "crontabs") λ crontabs. bind (option options "cronstamps") λ stamps.
        bind (option options "catcher") λ catcher. ok (
          binary,
          strip (codes dcrond)
              ∷ codes "-s"
              ∷ codes entries
              ∷ codes "-c"
              ∷ codes crontabs
              ∷ codes "-t"
              ∷ codes stamps
              ∷ codes "-f"
              ∷ codes "-l"
              ∷ codes "5"
              ∷ codes "-M"
              ∷ codes catcher
              ∷ [],
        )

-- The frequency, or the time in the form of a crontab.
unfoldable pub periodicity : Options → Outcome Text
unfolding option
periodicity options = elim (lookup "frequency" options) [
  | some frequency ↦ ok (codes frequency)
  | none ↦ bind (option options "time") λ time. elim (systemd_to_cron (codes time)) [
    | ok line ↦ ok line
    | raised _ ↦ raised user_error
  ]
]

-- The path of the entry and when it runs.
unfoldable pub entry : Options → Outcome (String × Text)
unfolding periodicity
entry options = bind (periodicity options) λ when.
    bind (option options "cron-entries")
      λ cron_d. bind (option options "name") λ name. ok (path_join cron_d name, when)

-- `Part.install`: the file is open for writing when the command is read, so that a missing command
-- leaves it empty.
unfoldable pub part_install : Options → Py (Dict Text) (List String)
unfolding entry
part_install options files = elim (entry options) [
  | raised e ↦ (raised e, files)
  | ok made ↦ elim (option options "command") [
    | raised e ↦ (raised e, insert made.0 [] files)
    | ok command ↦
        (ok (made.0 ∷ []), insert made.0 (made.1 ++ b' ' ∷ (codes command ++ 10 ∷ [])) files)
  ]
]
