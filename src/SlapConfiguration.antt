-- ===== src/SlapConfiguration.antt =====
-- slapos/recipe/slapconfiguration.py: the parameters and the addresses of an instance as options.
-- Flatten is about the resources of a partition, Schema about the recipe with a JSON schema.
pub mod Flatten
pub mod Schema
mod Laws
mod Tests
use slapos_abilian_edge.SlapConfiguration.Flatten.{Items, flatten_dict}
use slapos_abilian_edge.Base.{String, ◌<>◌, Bool, not, ◌&&◌, Option, none, some, List, [], ◌∷◌}
use slapos_abilian_edge.Base.{◌++◌, str_eq, if◌then◌else◌, contains}
use slapos_abilian_edge.Base.Dict.{Dict, lookup, insert, erase, has}
use slapos_abilian_edge.Base.Py.{key_error, value_error, type_error, missing_option, Outcome, ok}
use slapos_abilian_edge.Base.Py.{raised, bind}
use slapos_abilian_edge.Base.Text.{text_le, codes}
use slapos_abilian_edge.Base.Str.{path_join}

-- A parameter that the Master sends.
pub data Param (J : Type 0) : Type 0 where
  plain_value : J → Param J
  ip_list : List (String × String) → Param J
  full_ip_list : List (List String) → Param J

-- A value of an option.
pub data Value (J : Type 0) : Type 0 where
  text : String → Value J
  parameter : Param J → Value J
  json : J → Value J
  address_set : List String → Value J
  storage : Dict String → Value J
  configuration : Dict (Param J) → Value J

-- `key.replace('_', '-')` of each key, beside it.
abbrev pub his_keys : List (String × String)
his_keys =
    ("slap_software_type", "slap-software-type")
    ∷ ("slap_computer_partition_id", "slap-computer-partition-id")
    ∷ ("slap_computer_id", "slap-computer-id")
    ∷ ("slap_software_release_url", "slap-software-release-url")
    ∷ ("slave_instance_list", "slave-instance-list")
    ∷ ("timestamp", "timestamp")
    ∷ []

-- What the code uses of the system: netaddr, the directories for data, and the resource files.
pub record System (J : Type 0) : Type 0 where
  pub valid_ipv4 : String → Bool
  pub valid_ipv6 : String → Bool
  pub is_directory : String → Bool
  pub listdir : String → List String
  pub lexists : String → Bool
  pub as_text : J → String
  pub resource : List String → Option (Items J)

-- What the Master knows of an instance.
pub record Partition (J : Type 0) : Type 0 where
  pub parameters : Dict (Param J)
  pub state : String
  pub guid : String

-- `options.get(new) or options[old]`, and `options.get(new) or options.get(old)`.
unfoldable pub required : Dict String → (new old : String) → Outcome String
unfolding lookup
required options new old = elim (lookup new options) as (λ _. Outcome String) [
  | none ↦ elim (lookup old options) as (λ _. Outcome String) [
    | none ↦ raised missing_option
    | some v ↦ ok v
  ]
  | some v ↦
      let other = elim (lookup old options) as (λ _. Outcome String) [
        | none ↦ raised missing_option
        | some w ↦ ok w
      ] in
      if str_eq v "" then other else ok v
]

-- The computer and the partition that the Master is asked for.
unfoldable pub connection : Dict String → Outcome (String × String × String)
unfolding required
connection options = bind (required options "server-url" "url") λ url.
    bind (required options "computer-id" "computer") λ computer.
      bind (required options "partition-id" "partition") λ partition. ok (url, computer, partition)

abbrev pub add_address : String → List String → List String
add_address ip ips = if contains ips ip then ips else ips ++ (ip ∷ [])

-- `min` of a set that is not empty
unfoldable pub smallest : String → List String → String
unfolding text_le
smallest ip [] = ip
smallest ip (j ∷ ips) = smallest (if text_le (codes ip) (codes j) then ip else j) ips

-- What a recipe makes of options and parameters, and the links that are made for it.
abbrev pub Fetched : Type 0 → Type 0
Fetched J = (Dict (Value J) × Dict (Param J)) × List (String × String)

module _ {J : Type 0} where
  -- `options[new] = parameter_dict.pop(old)` where the key is there
  abbrev pub take_key :
      String × String → Dict (Value J) × Dict (Param J) → Dict (Value J) × Dict (Param J)
  take_key (old, new) (options, parameters) =
      elim (lookup old parameters) as (λ _. Dict (Value J) × Dict (Param J)) [
        | none ↦ (options, parameters)
        | some v ↦ (insert new (parameter v) options, erase old parameters)
      ]

  unfoldable pub take_keys :
      List (String × String) → Dict (Value J) × Dict (Param J) → Dict (Value J) × Dict (Param J)
  unfolding lookup insert erase
  take_keys [] s = s
  take_keys (k ∷ ks) s = take_keys ks (take_key k s)

  -- `options[new] = parameter_dict.pop(old, default)`
  unfoldable pub take_title :
      (old new default : String) → Dict (Value J) × Dict (Param J) → Dict (Value J) × Dict (Param J)
  unfolding lookup insert erase
  take_title old new default (options, parameters) =
      elim (lookup old parameters) as (λ _. Dict (Value J) × Dict (Param J)) [
        | none ↦ (insert new (text default) options, parameters)
        | some v ↦ (insert new (parameter v) options, erase old parameters)
      ]

  -- `option-random` for a set of addresses
  abbrev pub set_random : String → List String → Dict (Value J) → Dict (Value J)
  set_random key [] options = options
  set_random key (ip ∷ ips) options = insert key (text (smallest ip ips)) options

  -- The rest of the keys of the partition's resources.
  unfoldable pub add_resources : Dict J → Dict (Value J) → Dict (Value J)
  unfolding lookup insert
  add_resources [] options = options
  add_resources ((key, value) ∷ items) options =
      add_resources items (if has key options then options else insert key (json value) options)

  -- The addresses of `ip_list`, by kind.
  unfoldable pub addresses :
      System J → List (String × String) → List String × List String → List String × List String
  addresses Y [] sets = sets
  addresses Y ((tap, ip) ∷ ips) (ipv4, ipv6) = addresses Y ips (
      if Y.valid_ipv4 ip
      then (add_address ip ipv4, ipv6)
      else if Y.valid_ipv6 ip
      then (ipv4, add_address ip ipv6)
      else (ipv4, ipv6))

  -- `parameter_dict.pop('ip_list')` for a value that is a list of pairs
  unfoldable pub pop_ip_list : Dict (Param J) → Outcome (List (String × String))
  unfolding lookup
  pop_ip_list parameters =
      elim (lookup "ip_list" parameters) as (λ _. Outcome (List (String × String))) [
        | none ↦ raised key_error
        | some (ip_list ips) ↦ ok ips
        | some (plain_value _) ↦ raised type_error
        | some (full_ip_list _) ↦ raised value_error
      ]

  -- The links to the directories for data: those that are found, and those that are made anew.
  unfoldable pub storage_links :
      System J
      → (storage_home instance_root partition_id : String) → List String
      → Dict String × List (String × String)
  unfolding path_join insert
  storage_links Y storage_home instance_root partition_id [] = ([], [])
  storage_links Y storage_home instance_root partition_id (filename ∷ names) =
      let storage_path = path_join (path_join storage_home filename) partition_id in
      let storage_link = path_join (path_join instance_root "DATA") filename in
      let (links, made) = storage_links Y storage_home instance_root partition_id names in
      if Y.is_directory storage_path
      then (
        (filename, storage_link) ∷ links,
        (if Y.lexists storage_link then made else (storage_path, storage_link) ∷ made),
      )
      else (links, made)

  -- The search for a resource file upwards from a directory, its last component first. The root is
  -- tried only if the search begins there.
  unfoldable pub find_resource : System J → List String → Option (Items J)
  find_resource Y [] = Y.resource []
  find_resource Y (d ∷ []) = Y.resource (d ∷ [])
  find_resource Y (d ∷ e ∷ ds) =
      let above = find_resource Y (e ∷ ds) in
      elim (Y.resource (d ∷ e ∷ ds)) as (λ _. Option (Items J)) [
        | none ↦ above
        | some items ↦ some items
      ]

  abbrev pub with_resources : Option (Items J) → Dict (Value J) → Dict (Value J)
  with_resources none options = options
  with_resources (some items) options = add_resources (flatten_dict items) options

  abbrev pub text_of : System J → Option (Value J) → Outcome String
  text_of Y (some (text t)) = ok t
  text_of Y (some (parameter (plain_value j))) = ok (Y.as_text j)
  text_of Y none = raised missing_option
  text_of Y (some _) = raised type_error

  -- The storage links of `options`, with the links that are made.
  abbrev pub storage_of :
      System J
      → (instance_root : String) → Option String
      → Outcome String
      → Outcome (Dict String × List (String × String))
  storage_of Y instance_root none partition_id = ok ([], [])
  storage_of Y instance_root (some home) partition_id =
      if not (str_eq home "") && Y.is_directory home
      then elim (Y.listdir home) as (λ _. Outcome (Dict String × List (String × String))) [
        | [] ↦ ok ([], [])
        | name ∷ names ↦
            bind partition_id λ p. ok (storage_links Y home instance_root p (name ∷ names))
      ]
      else ok ([], [])

  abbrev pub text_options : Dict String → Dict (Value J)
  text_options [] = []
  text_options ((key, value) ∷ options) = (key, text value) ∷ text_options options

  -- The state, the keys of the partition, the titles and the GUID.
  abbrev pub master_options : Partition J → Dict (Value J) → Dict (Value J) × Dict (Param J)
  master_options master options =
      let (with_titles, parameters) =
        take_title "root_instance_title" "root-instance-title" "UNKNOWN" (
          take_title "instance_title" "instance-title" "UNKNOWN Instance" (
            take_keys his_keys
              (insert "instance-state" (text master.state) options, master.parameters))) in
      (insert "instance-guid" (text master.guid) with_titles, parameters)

  abbrev pub address_options : List String × List String → Dict (Value J) → Dict (Value J)
  address_options (ipv4, ipv6) options = set_random "ipv6-random" ipv6 (
      set_random "ipv4-random" ipv4
        (insert "ipv6" (address_set ipv6) (insert "ipv4" (address_set ipv4) options)))

  -- The lists of addresses that go out of the parameters.
  abbrev pub without_lists : Dict (Param J) → Dict (Param J)
  without_lists parameters =
      erase "full_ip_list" (erase "full_address_list" (erase "ip_list" parameters))

  -- The last part: the addresses, the directories for data and the resources of the partition.
  abbrev pub local_options :
      System J
      → (instance_root : String) → (home : List String) → Option String
      → List String × List String
      → Dict (Value J) × Dict (Param J)
      → Outcome (Fetched J)
  local_options Y instance_root home storage_home sets (options, parameters) =
      let with_addresses = address_options sets options in
      bind
        (storage_of Y instance_root storage_home
          (text_of Y (lookup "slap-computer-partition-id" with_addresses)))
        λ x. ok (
          (
            with_resources (find_resource Y home)
                (insert "storage-dict" (storage x.0) with_addresses),
            parameters,
          ),
          x.1,
        )

-- The two methods that the recipes replace.
pub record Methods (J : Type 0) : Type 0 where
  pub validate : Dict (Value J) → Dict (Param J) → Outcome (Dict (Value J) × Dict (Param J))
  pub expand : Dict (Value J) → Dict (Param J) → Dict (Value J) × Dict (Param J)

module _ {J : Type 0} where
  abbrev pub expanded : Methods J → Fetched J → Fetched J
  expanded M ((options, parameters), made) = (M.expand options parameters, made)

  -- `fetch_parameter_dict`; `home` is `instance_root` by its components, the last one first.
  unfoldable pub fetch_parameter_dict :
      System J
      → Methods J
      → (String × String × String → Outcome (Partition J))
      → (instance_root : String) → (home : List String) → Dict String
      → Outcome (Fetched J)
  unfolding connection take_keys take_title pop_ip_list addresses smallest storage_links
      find_resource add_resources
  fetch_parameter_dict Y M register instance_root home options = bind (connection options) λ c.
      bind (register c) λ master.
        let (taken, parameters) = master_options master (text_options options) in
        bind (pop_ip_list parameters) λ ips.
          bind (M.validate taken (without_lists parameters)) λ valid.
            bind
              (local_options Y instance_root home (lookup "storage-home" options)
                (addresses Y ips ([], [])) valid)
              λ x. ok (expanded M x)

  -- The methods of `Recipe` itself.
  abbrev pub recipe_methods : Methods J
  recipe_methods = record {
    validate = λ options parameters. ok (options, parameters);
    expand = λ options parameters.
        (insert "configuration" (configuration parameters) options, parameters);
  }

  -- `Recipe.__init__` after `fetch_parameter_dict`: an option for each parameter whose name
  -- `OPTCRE` does not match.
  unfoldable pub configuration_options :
      (optcre : String → Bool) → Dict (Param J) → Dict (Value J) → Dict (Value J)
  unfolding insert
  configuration_options optcre [] options = options
  configuration_options optcre ((key, value) ∷ parameters) options =
      configuration_options optcre parameters
        (if optcre key then options else insert ("configuration." <> key) (parameter value) options)
