-- ===== src/SlapConfiguration/Tests.antt =====
-- Resources under the options of the Master, defaults, shared instances, and a whole run.
use slapos_abilian_edge.SlapConfiguration.{
  Param, plain_value, ip_list, Value, text, parameter, json, System, Partition, with_resources,
  fetch_parameter_dict, recipe_methods, configuration_options,
}
use slapos_abilian_edge.SlapConfiguration.Flatten.{
  Items, leaf, folded, no_item, item, leaves, flatten_dict,
}
use slapos_abilian_edge.SlapConfiguration.Laws.{or_else, as_json, last, lookup-with_resources}
use slapos_abilian_edge.SlapConfiguration.Schema.{
  apply_defaults, Validator, SharedItem, Lists, sort_shared, parse_option, schema_path,
}
use slapos_abilian_edge.SlapConfiguration.Schema.Defaults.{
  Extends, apply_defaults-Extends, Checked, no_errors, with_errors, sort_shared-Checked,
}
use slapos_abilian_edge.Base.{ℕ, String, ◌≡◌, refl, Bool, true, false, not, Option, none, some}
use slapos_abilian_edge.Base.{List, [], ◌∷◌, str_eq, ◌==◌, if◌then◌else◌}
use slapos_abilian_edge.Base.Dict.{Dict, lookup, insert, has, keys, update}
use slapos_abilian_edge.Base.Py.{plain, Outcome, ok, raised, bind}
use slapos_abilian_edge.Base.Text.{codes}

abbrev resources : Items ℕ
resources =
    item "tun" (folded (item "ipv4_addr" (leaf 1) (item "mtu" (leaf 2) no_item)))
      (item "timestamp" (leaf 3) no_item)

abbrev options : Dict (Value ℕ)
options = ("timestamp", text "now") ∷ []

lookup-with_resources_example :
    lookup "tun-ipv4-addr" (with_resources (some resources) options)
    ≡ or_else
        (lookup "tun-ipv4-addr" options)
        (as_json (last "tun-ipv4-addr" (leaves "" resources)))
lookup-with_resources_example = lookup-with_resources "tun-ipv4-addr" resources options

flattened : flatten_dict resources ≡ ("tun-ipv4-addr", 1) ∷ ("tun-mtu", 2) ∷ ("timestamp", 3) ∷ []
unfolding flatten_dict insert update slapos_abilian_edge.SlapConfiguration.Flatten.dashes
flattened = refl

abbrev differ : ℕ → ℕ → Bool
differ a b = not (a == b)

abbrev defaults : Dict (List ℕ)
defaults = ("a", 7 ∷ 7 ∷ []) ∷ ("b", 8 ∷ []) ∷ []

abbrev given : Dict ℕ
given = ("b", 1) ∷ []

apply_defaults-Extends_example : Extends differ given (apply_defaults differ defaults given)
apply_defaults-Extends_example = apply_defaults-Extends differ defaults given

defaults_run : apply_defaults differ defaults given ≡ ok (("b", 1) ∷ ("a", 7) ∷ [])
unfolding apply_defaults
defaults_run = refl

defaults_conflict :
    apply_defaults differ (("a", 7 ∷ 8 ∷ []) ∷ []) given ≡ raised (plain "NameError")
unfolding apply_defaults
defaults_conflict = refl

abbrev validator : Validator ℕ String
validator = record {
  errors = λ d. if has "b" d then [] else "b is required" ∷ [];
  collected = λ d. [];
}

abbrev shared_list : List (Dict ℕ)
shared_list = (("slave_reference", 10) ∷ ("b", 1) ∷ []) ∷ (("slave_reference", 11) ∷ []) ∷ []

abbrev lists : Lists ℕ String
lists = (
  record { reference = 10; parameters = ("b", 1) ∷ []; errors_found = [] } ∷ [],
  record { reference = 11; parameters = []; errors_found = "b is required" ∷ [] } ∷ [],
)

sorts : sort_shared differ false validator [] shared_list ≡ ok lists
unfolding sort_shared
sorts = refl

sort_shared-Checked_example :
    (items : List (SharedItem ℕ String)) × Checked differ false validator [] shared_list items
    × (lists
        ≡ (no_errors differ false validator [] items, with_errors differ false validator [] items))
sort_shared-Checked_example = sort_shared-Checked differ false validator [] shared_list lists sorts

option_main :
    parse_option (("validate-parameters", "main") ∷ []) "validate-parameters" "all"
    ≡ ok (true, false)
unfolding parse_option
option_main = refl

schema_runs : schema_path (codes "/srv/software.cfg.json") ≡ codes "file:///srv/software.cfg"
unfolding schema_path
schema_runs = refl

abbrev system : System ℕ
system = record {
  valid_ipv4 = λ ip. str_eq ip "10.0.0.1";
  valid_ipv6 = λ ip. str_eq ip "::1";
  is_directory = λ d. false;
  listdir = λ d. [];
  lexists = λ f. false;
  as_text = λ j. "";
  resource = λ home. none;
}

abbrev partition : Partition ℕ
partition = record {
  parameters =
      ("ip_list", ip_list (("tap", "::1") ∷ ("tap", "10.0.0.1") ∷ []))
      ∷ ("timestamp", plain_value 5)
      ∷ ("size", plain_value 6)
      ∷ [];
  state = "started";
  guid = "g";
}

abbrev fetched : List String → Outcome (Option (Value ℕ))
fetched keys =
    bind
      (fetch_parameter_dict system recipe_methods (λ _. ok partition) "/srv" ("srv" ∷ [])
        (("url", "u") ∷ ("computer", "c") ∷ ("partition", "p") ∷ []))
      λ x. elim keys as (λ _. Outcome (Option (Value ℕ))) [
        | [] ↦ ok none
        | k ∷ ks ↦ ok (lookup k x.0.0)
      ]

timestamp_fetched : fetched ("timestamp" ∷ []) ≡ ok (some (parameter (plain_value 5)))
unfolding fetch_parameter_dict
timestamp_fetched = refl

address_fetched : fetched ("ipv6-random" ∷ []) ≡ ok (some (text "::1"))
unfolding fetch_parameter_dict
address_fetched = refl
