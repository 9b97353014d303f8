-- ===== src/Request/Tests.antt =====
-- A request that gives what it was asked for.
use slapos_abilian_edge.Base.{String, ◌<>◌, ◌≡◌, refl, true, none, some, [], ◌∷◌, str_eq}
use slapos_abilian_edge.Base.{if◌then◌else◌, contains}
use slapos_abilian_edge.Base.Dict.{Dict, lookup, insert}
use slapos_abilian_edge.Base.Py.{not_found, ok, raised}
use slapos_abilian_edge.Request.{
  Recipe, return_parameter_dict, Options, Instance, Wanted, Master, Answer, ask, finish, install,
}
use slapos_abilian_edge.Request.Laws.{install_sound}

abbrev instance_given : Instance
instance_given = record {
  computer_id = some "COMP-1";
  get_connection_parameter =
      λ p. if str_eq p "url" then ok "https://[2001::1]/" else raised not_found;
  get_instance_guid = ok "SOFTINST-1";
  get_state = ok "started";
  get_status = ok "bang";
}

abbrev master : Master
master = record { request = λ w. ok instance_given; product = λ name. ok name }

abbrev wanted : Wanted
wanted = record {
  software_url = "software.cfg";
  software_type = "default";
  name = "frontend";
  partition_parameter_kw = [];
  filter_kw = [];
  shared = true;
  state = "started";
}

abbrev answer : Answer
answer = record {
  parameters = ("url", "https://[2001::1]/") ∷ [];
  recipe = record { request_exception = none; failed = none; instance_ = some instance_given };
  options = [];
}

asked : ask master wanted ("url" ∷ []) [] ≡ ok answer
unfolding ask return_parameter_dict insert
asked = refl

succeeded : install (finish ("url" ∷ []) answer).0 ≡ ok []
unfolding install finish lookup
succeeded = refl

install_sound_example :
    (i : Instance) × (ok instance_given ≡ ok i)
    × ((p : String)
        → contains ("url" ∷ []) p ≡ true
        → (v : String) × (i.get_connection_parameter p ≡ ok v)
          × (lookup ("connection-" <> p) (finish ("url" ∷ []) answer).1 ≡ some v))
install_sound_example = install_sound master wanted ("url" ∷ []) [] answer asked succeeded

-- The requester is being destroyed.
abbrev destroyed : Options
destroyed = ("requested", "destroyed") ∷ []

-- The requests of two countries.
abbrev countries : Dict Recipe
countries = ("fr", answer.recipe) ∷ ("de", answer.recipe) ∷ []
