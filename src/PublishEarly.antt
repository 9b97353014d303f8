-- ===== src/PublishEarly.antt =====
-- slapos/recipe/publish_early.py: parameters that are published before any partition is requested.
mod Laws
mod Tests
use slapos_abilian_edge.Base.{String, Bool, true, false, not, ◌&&◌, ◌||◌, Option, none, some, List}
use slapos_abilian_edge.Base.{[], ◌∷◌, ◌++◌, str_eq, if◌then◌else◌}
use slapos_abilian_edge.Base.Dict.{Dict, lookup, insert, erase, has, keys}
use slapos_abilian_edge.Base.Py.{value_error, user_error, Outcome, ok, raised, bind}
use slapos_abilian_edge.Base.Str.{str_split, words, lines, strip_prefix}

abbrev pub Values : Type 0
Values = Dict String

-- Buildout: the instantiation of an init section whose options are overridden, which may change
-- them, and the section's values after it; `none` is a section that was already initialized.
pub record Buildout : Type 0 where
  pub initialize : String → Values → Option Values

-- An init section with its keys: published name and name in the section.
abbrev pub Init : Type 0
Init = Dict Values

-- `init[section][k] = v`
unfoldable pub add_init : String → String → String → Init → Init
add_init section k v init = elim (lookup section init) [
  | some d ↦ insert section (insert k v d) init
  | none ↦ insert section ((k, v) ∷ []) init
]

-- One line of `-init`; a key that has a value already is left out.
unfoldable pub parse_line : Values → String → Init → Outcome Init
unfolding add_init
parse_line options line init = elim (words line) [
  | [] ↦ raised value_error
  | k ∷ rest ↦ elim rest [
    | [] ↦ raised value_error
    | v ∷ more ↦ elim more [
      | _ ∷ _ ↦ raised value_error
      | [] ↦ if has k options then ok init else elim (str_split b':' v) [
        | [] ↦ raised value_error
        | section ∷ names ↦ elim names [
          | [] ↦ raised value_error
          | name ∷ others ↦ elim others [
            | [] ↦ ok (add_init section k name init)
            | _ ∷ _ ↦ raised value_error
          ]
        ]
      ]
    ]
  ]
]

unfoldable pub parse_init : Values → List String → Init → Outcome Init
unfolding parse_line
parse_init options [] init = ok init
parse_init options (line ∷ rest) init =
    bind (parse_line options line init) λ init₁. parse_init options rest init₁

-- `override[v] = published_dict[k]`, for the keys that were published.
unfoldable pub overrides : Values → Values → Values → Values
overrides published [] override = override
overrides published ((k, v) ∷ init) override = elim (lookup k published) [
  | some value ↦ overrides published init (insert v value override)
  | none ↦ overrides published init override
]

-- What the run has so far.
pub record State : Type 0 where
  pub options : Values
  pub publish_dict : Values
  pub publish : Bool

-- The values of the section are taken over and removed from it.
unfoldable pub take_values :
    Values → Values → Values → Values → Values → Values × (Values × (Values × Values))
take_values [] section new options publish_dict = (section, (new, (options, publish_dict)))
take_values ((k, v) ∷ init) section new options publish_dict = elim (lookup v section) [
  | some value ↦
      take_values init (erase v section) (insert v value new) (insert k value options)
        (insert k value publish_dict)
  | none ↦ take_values init section new options publish_dict
]

-- `d == e` of two dicts
unfoldable pub included : Values → Values → Bool
included [] e = true
included ((k, v) ∷ d) e = (elim (lookup k e) [ some w ↦ str_eq v w | none ↦ false ]) && included d e

unfoldable pub same_dict : Values → Values → Bool
unfolding included
same_dict d e = included d e && included e d

unfoldable pub process_section : Buildout → Values → String → Values → State → Outcome State
unfolding overrides take_values same_dict included
process_section B published name init s =
    let override = overrides published init [] in
    elim (B.initialize name override) [
      | none ↦ raised user_error
      | some section ↦
          let taken = take_values init section [] s.options s.publish_dict in
          ok (record {
            options = taken.1.1.0;
            publish_dict = taken.1.1.1;
            publish = s.publish || not (same_dict taken.1.0 override);
          })
    ]

unfoldable pub process_sections : Buildout → Values → Init → State → Outcome State
unfolding process_section
process_sections B published [] s = ok s
process_sections B published ((name, init) ∷ rest) s =
    bind (process_section B published name init s) λ s₁. process_sections B published rest s₁

-- `[k for k in options if k != 'recipe' and not k.startswith('-')]`
unfoldable pub published_names : Values → List String
published_names [] = []
published_names ((k, v) ∷ options) =
    let rest = published_names options in
    if str_eq k "recipe"
    then rest
    else elim (strip_prefix "-" k) [ some _ ↦ rest | none ↦ k ∷ rest ]

-- What the run does: the options, the dictionary for the Master if it is sent, the names that are
-- published, and the options that are not saved.
pub record Result : Type 0 where
  pub options : Values
  pub sent : Option Values
  pub names : List String
  pub volatile : List String

unfoldable pub result_of : State → Result
unfolding published_names
result_of s = record {
  options = s.options;
  sent = if s.publish then some s.publish_dict else none;
  names = published_names s.options ++ keys s.publish_dict;
  volatile = keys s.publish_dict ++ "-publish" ∷ [];
}

-- `if init:`
unfoldable pub run_init : Buildout → Values → Values → Init → Outcome Result
unfolding process_sections result_of
run_init B published options [] =
    ok (record { options = options; sent = none; names = []; volatile = [] })
run_init B published options (section ∷ sections) =
    bind
      (process_sections B published (section ∷ sections)
        (record { options = options; publish_dict = []; publish = false }))
      λ s. ok (result_of s)

-- `Recipe.__init__`, from the options and the parameters that the Master has.
unfoldable pub early : Buildout → Values → String → Values → Outcome Result
unfolding parse_init run_init
early B published init_option options =
    bind (parse_init options (lines init_option) []) λ init. run_init B published options init

-- `volatileOptions`: the copy of the options that is saved.
unfoldable pub saved : List String → Values → Values
saved [] options = options
saved (k ∷ volatile) options = saved volatile (erase k options)
