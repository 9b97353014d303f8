-- ===== src/Request.antt =====
-- slapos/recipe/request.py: a section that requests an instance from the SlapOS Master and
-- publishes its connection parameters as options.
pub mod Laws
mod Edge
mod Tests
use slapos_abilian_edge.Base.{String, ◌<>◌, Bool, ◌||◌, Option, none, some, List, [], ◌∷◌, str_eq}
use slapos_abilian_edge.Base.{if◌then◌else◌}
use slapos_abilian_edge.Base.Dict.{Dict, lookup, insert, has}
use slapos_abilian_edge.Base.Py.{Exc, key_error, attribute_error, user_error, missing_option}
use slapos_abilian_edge.Base.Py.{not_found, server_error, resource_not_ready, Outcome, ok, raised}
use slapos_abilian_edge.Base.Py.{bind}
use slapos_abilian_edge.Base.Str.{words, strip_prefix, is_true_value}

abbrev pub Options : Type 0
Options = Dict String

-- An instance that the Master gave, as `slapos.slap` hands it out.
pub record Instance : Type 0 where
  pub computer_id : Option String
  pub get_connection_parameter : String → Outcome String
  pub get_instance_guid : Outcome String
  pub get_state : Outcome String
  pub get_status : Outcome String

-- The arguments of `request`.
pub record Wanted : Type 0 where
  pub software_url : String
  pub software_type : String
  pub name : String
  pub partition_parameter_kw : Dict String
  pub filter_kw : Dict String
  pub shared : Bool
  pub state : String

-- The Master and the catalogue of software products.
pub record Master : Type 0 where
  pub request : Wanted → Outcome Instance
  pub product : String → Outcome String

-- The recipe object after `__init__`.
pub record Recipe : Type 0 where
  pub request_exception : Option Exc
  pub failed : Option String
  pub instance_ : Option Instance

-- `options[key]`
unfoldable pub option : Options → String → Outcome String
option options key = elim (lookup key options) [ some v ↦ ok v | none ↦ raised missing_option ]

-- `options.get(key, default)`
unfoldable pub option_or : Options → String → String → String
option_or options key default = elim (lookup key options) [ some v ↦ v | none ↦ default ]

-- `{k[len(prefix):]: v for k, v in options if k.startswith(prefix)}`
unfoldable pub prefixed : String → Options → Options
prefixed prefix [] = []
prefixed prefix ((k, v) ∷ options) =
    let rest = prefixed prefix options in
    elim (strip_prefix prefix k) [ some j ↦ (j, v) ∷ rest | none ↦ rest ]

unfoldable pub filled : Options → Options
filled [] = []
filled ((k, v) ∷ options) = let rest = filled options in if str_eq v "" then rest else (k, v) ∷ rest

-- The state of the requester is passed on, unless it is being destroyed.
unfoldable pub passed_on : String → String
passed_on state = if str_eq state "started" || str_eq state "stopped" then state else "started"

unfoldable pub default_state : Options → String
unfolding option_or passed_on
default_state slap_connection = passed_on (option_or slap_connection "requested" "started")

-- A name below `product.` is looked up. The handler of a failure reads `e.message`, which no
-- exception of Python 3 has.
software_of : Master → String → Outcome String
software_of M url = elim (strip_prefix "product." url) [
  | none ↦ ok url
  | some name ↦ elim (M.product name) [ ok found ↦ ok found | raised e ↦ raised e ]
]

-- `_getReturnParameterDict`: a parameter that is not there yet is left out.
unfoldable pub return_parameter_dict : Instance → List String → Outcome (Dict String)
return_parameter_dict i [] = ok []
return_parameter_dict i (p ∷ ps) =
    let rest = return_parameter_dict i ps in
    elim (i.get_connection_parameter p) [
      | ok v ↦ bind rest (λ d. ok (insert p v d))
      | raised not_found ↦ rest
      | raised e ↦ raised e
    ]

-- The guid, the state and the status; what is written before one of them fails stays.
unfoldable pub identify : Instance → Options → Outcome (Unit {0}) × Options
identify i options = elim i.get_instance_guid [
  | raised e ↦ (raised e, options)
  | ok guid ↦
      let options₁ = insert "instance_guid" guid (insert "instance-guid" guid options) in
      elim i.get_state [
        | raised e ↦ (raised e, options₁)
        | ok state ↦
            let options₂ = insert "instance-state" state options₁ in
            elim i.get_status [
              | raised e ↦ (raised e, options₂)
              | ok status ↦ (ok tt, insert "instance-status" status options₂)
            ]
      ]
]

-- `except (ResourceNotReady, AttributeError)`
unfoldable pub tolerated : Outcome (Unit {0}) × Options → Outcome Options
tolerated (ok _, options) = ok options
tolerated (raised resource_not_ready, options) = ok options
tolerated (raised attribute_error, options) = ok options
tolerated (raised e, options) = raised e

-- What the request gave: the parameters and the instance, or the exception that is kept.
pub record Answer : Type 0 where
  pub parameters : Dict String
  pub recipe : Recipe
  pub options : Options

unfoldable pub no_answer : Exc → Option Instance → Options → Answer
no_answer e i options = record {
  parameters = [];
  recipe = record { request_exception = some e; failed = none; instance_ = i };
  options = options;
}

-- `except (NotFoundError, ServerError, ResourceNotReady)`
unfoldable pub keep_exception : Exc → Option Instance → Options → Outcome Answer
unfolding no_answer
keep_exception not_found i options = ok (no_answer not_found i options)
keep_exception server_error i options = ok (no_answer server_error i options)
keep_exception resource_not_ready i options = ok (no_answer resource_not_ready i options)
keep_exception e i options = raised e

unfoldable pub answered : Instance → Dict String → Options → Answer
answered i parameters o = record {
  parameters = parameters;
  recipe = record { request_exception = none; failed = none; instance_ = some i };
  options = o;
}

unfoldable pub answer_of : Bool → Instance → Options → Dict String → Outcome Answer
unfolding keep_exception tolerated answered identify
answer_of shared i options parameters =
    if shared then ok (answered i parameters options) else elim (tolerated (identify i options)) [
      | ok o ↦ ok (answered i parameters o)
      | raised e ↦ keep_exception e (some i) (identify i options).1
    ]

unfoldable pub ask : Master → Wanted → List String → Options → Outcome Answer
unfolding keep_exception answer_of answered tolerated identify no_answer
ask M wanted return_parameters options = elim (M.request wanted) [
  | raised e ↦ keep_exception e none options
  | ok i ↦ elim (return_parameter_dict i return_parameters) [
    | raised e ↦ keep_exception e (some i) options
    | ok parameters ↦ answer_of wanted.shared i options parameters
  ]
]

-- The loop at the end of `__init__`: an option for each parameter, empty if it is missing, and
-- the name of the first that is missing.
unfoldable pub connected :
    String → Option String → Option String → Options → Option String × Options
connected p (some v) failed options = (failed, insert ("connection-" <> p) v options)
connected p none none options = (some p, insert ("connection-" <> p) "" options)
connected p none (some q) options = (some q, insert ("connection-" <> p) "" options)

unfoldable pub connection_options :
    Dict String → List String → Option String → Options → Option String × Options
unfolding connected
connection_options parameters [] failed options = (failed, options)
connection_options parameters (p ∷ ps) failed options =
    let step = connected p (lookup p parameters) failed options in
    connection_options parameters ps step.0 step.1

unfoldable pub finish : List String → Answer → Recipe × Options
unfolding connection_options
finish return_parameters a =
    let (failed, options) = connection_options a.parameters return_parameters none a.options in
    (record a.recipe { failed = failed }, options)

wanted_of : Options → Options → String → String → Wanted
unfolding prefixed filled default_state option_or
wanted_of slap_connection options software_url name = record {
  software_url = software_url;
  software_type = option_or options "software-type" "default";
  name = name;
  partition_parameter_kw = prefixed "config-" options;
  filter_kw = filled (prefixed "sla-" options);
  shared = is_true_value (option_or options "shared" "false");
  state = option_or options "state" (default_state slap_connection);
}

-- `__init__`, from the section `slap-connection` and the options.
unfoldable pub init : Master → Options → Options → Outcome (Recipe × Options)
unfolding wanted_of ask finish software_of option answer_of keep_exception answered tolerated
    identify no_answer
init M slap_connection options = bind (option options "software-url") λ software_url.
    bind (option options "name") λ name.
      if has "config" options || has "sla" options
      then raised user_error
      else (let wanted = wanted_of slap_connection options software_url name in
          let return_parameters = words (option_or options "return" "") in
          bind (option options "server-url") λ _. bind (option options "computer-id") λ _.
            bind (option options "partition-id") λ _. bind (software_of M software_url) λ url.
              bind
                (ask M (record wanted { software_url = url }) return_parameters
                  (insert "requested-state" wanted.state options))
                λ a. ok (finish return_parameters a))

-- The handlers around the look at the instance that a parameter is missing from.
unfoldable pub look : Option Instance → Outcome String
look none = ok "unknown"
look (some i) = elim i.computer_id [
  | none ↦ ok "not ready yet"
  | some _ ↦ elim i.get_state [
    | ok state ↦ ok state
    | raised not_found ↦ ok "not ready yet"
    | raised server_error ↦ ok "not ready yet"
    | raised resource_not_ready ↦ ok "not ready yet"
    | raised attribute_error ↦ ok "unknown"
    | raised e ↦ raised e
  ]
]

-- `Recipe.install`
unfoldable pub install : Recipe → Outcome (List String)
unfolding look
install r = elim r.request_exception [
  | some e ↦ raised e
  | none ↦ elim r.failed [
    | none ↦ ok []
    | some param ↦ bind (look r.instance_) (λ _. raised key_error)
  ]
]

-- `RequestOptional.install`
unfoldable pub install_optional : Recipe → Outcome (List String)
unfolding look
install_optional r = elim r.request_exception [
  | some e ↦ ok []
  | none ↦ elim r.failed [ none ↦ ok [] | some param ↦ bind (look r.instance_) (λ _. ok []) ]
]
