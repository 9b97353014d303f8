-- ===== src/SlapConfiguration/Schema.antt =====
-- slapos/recipe/slapconfiguration.py: the recipe that checks the parameters of an instance, and of
-- its shared instances, by a JSON schema, and adds the defaults of the schema.
pub mod Defaults
use slapos_abilian_edge.Base.{ℕ, ◌/◌, ◌%◌, String, Bool, true, false, ◌&&◌, ◌||◌, Option, none}
use slapos_abilian_edge.Base.{some, List, [], ◌∷◌, ◌++◌, str_eq, ◌==◌, if◌then◌else◌}
use slapos_abilian_edge.Base.Dict.{Dict, lookup, insert, erase, has}
use slapos_abilian_edge.Base.Py.{key_error, user_error, plain, Outcome, ok, raised, bind}
use slapos_abilian_edge.Base.Text.{Text, codes, text_eq, starts}

-- `accepted.index(value)`
abbrev pub accepted_index : String → Option ℕ
accepted_index value =
    if str_eq value "none"
    then some 0
    else if str_eq value "main"
    then some 1
    else if str_eq value "shared"
    then some 2
    else if str_eq value "all"
    then some 3
    else none

-- `index & 1, index & 2`, as conditions
abbrev pub both_bits : Option ℕ → Outcome (Bool × Bool)
both_bits none = raised user_error
both_bits (some index) = ok (index % 2 == 1, index / 2 % 2 == 1)

-- `_parseOption`
unfoldable pub parse_option : Dict String → String → (default : String) → Outcome (Bool × Bool)
unfolding lookup
parse_option options key default =
    both_bits (accepted_index (elim (lookup key options) [ none ↦ default | some v ↦ v ]))

-- `path[:-5] if path.endswith('.json') else path`
unfoldable pub without_json : Text → Text
unfolding text_eq
without_json [] = []
without_json (c ∷ s) =
    let rest = without_json s in if text_eq (c ∷ s) (codes ".json") then [] else c ∷ rest

-- `_schema`: the address of the schema.
unfoldable pub schema_path : Text → Text
unfolding without_json starts
schema_path path =
    without_json (if starts path (codes "file://") then path else codes "file://" ++ path)

-- A software type of the JSON file of a release.
pub record SoftwareType : Type 0 where
  pub software_type : String
  pub shared : Bool
  pub request : String

-- `_getSharedSchema`: the request of the schema for shared instances.
unfoldable pub shared_request : String → List SoftwareType → Option String
shared_request t [] = none
shared_request t (d ∷ types) =
    let rest = shared_request t types in
    if str_eq d.software_type t && d.shared then some d.request else rest

module _ {J : Type 0} (differ : J → J → Bool) where
  -- `any(d != default for d in it)`
  unfoldable pub any_differs : J → List J → Bool
  any_differs d [] = false
  any_differs d (e ∷ es) = differ e d || any_differs d es

  -- A default for a key, unless it is there. For conflicting defaults the message of the exception
  -- names a variable that is not defined: NameError.
  abbrev pub apply_default : String → List J → Dict J → Outcome (Dict J)
  apply_default key [] instance_data =
      if has key instance_data then ok instance_data else raised (plain "StopIteration")
  apply_default key (d ∷ ds) instance_data =
      if has key instance_data
      then ok instance_data
      else if any_differs d ds
      then raised (plain "NameError")
      else ok (insert key d instance_data)

  -- The loop over the defaults that were collected for an object.
  unfoldable pub apply_defaults : Dict (List J) → Dict J → Outcome (Dict J)
  unfolding any_differs lookup insert
  apply_defaults [] instance_data = ok instance_data
  apply_defaults ((key, ds) ∷ defaults) instance_data =
      bind (apply_default key ds instance_data) (apply_defaults defaults)

-- What jsonschema does with a schema: the errors of an instance, and the defaults that the
-- extended validator collects for it.
pub record Validator (J E : Type 0) : Type 0 where
  pub errors : Dict J → List E
  pub collected : Dict J → Dict (List J)

-- A shared instance of the lists that are published: its reference, its parameters, its errors.
pub record SharedItem (J E : Type 0) : Type 0 where
  pub reference : J
  pub parameters : Dict J
  pub errors_found : List E

abbrev pub Lists : Type 0 → Type 0 → Type 0
Lists J E = List (SharedItem J E) × List (SharedItem J E)

module _ {J E : Type 0} (differ : J → J → Bool) where
  -- `BasicValidator.validate`, and `DefaultValidator.validate` for an instance without objects in
  -- it: the errors, and the instance with its defaults.
  unfoldable pub validate :
      (set_default : Bool) → Validator J E → Dict J → Outcome (List E × Dict J)
  unfolding apply_defaults
  validate false V instance_data = ok (V.errors instance_data, instance_data)
  validate true V instance_data =
      elim (V.errors instance_data) as (λ _. Outcome (List E × Dict J)) [
        | e ∷ es ↦ ok (e ∷ es, instance_data)
        | [] ↦
            bind (apply_defaults differ (V.collected instance_data) instance_data)
              (λ filled. ok (V.errors filled, filled))
      ]

  abbrev pub instance_or_error : List E × Dict J → Outcome (Dict J)
  instance_or_error ([], filled) = ok filled
  instance_or_error (e ∷ es, filled) = raised user_error

  -- `_parseParameterDict`
  unfoldable pub parse_parameter_dict :
      (set_main : Bool) → Validator J E → Dict J → Outcome (Dict J)
  unfolding validate
  parse_parameter_dict set_main V parameters =
      bind (validate set_main V parameters) instance_or_error

  -- `except UserError as e: errors = list(e.args)`
  abbrev pub errors_of :
      (args : List E) → Dict J → Outcome (List E × Dict J) → Outcome (List E × Dict J)
  errors_of args instance_data (ok r) = ok r
  errors_of args instance_data (raised user_error) = ok (args, instance_data)
  errors_of args instance_data (raised e) = raised e

  abbrev pub shared_item : J → List E × Dict J → (SharedItem J E)
  shared_item reference (errors, filled) = record {
    reference = reference;
    parameters = filled;
    errors_found = errors;
  }

  -- A round of the loop: the item for a shared instance.
  unfoldable pub check_shared :
      (set_shared : Bool) → Validator J E → List E → Dict J → Outcome (SharedItem J E)
  unfolding validate lookup erase
  check_shared set_shared V args instance_data =
      elim (lookup "slave_reference" instance_data) as (λ _. Outcome (SharedItem J E)) [
        | none ↦ raised key_error
        | some reference ↦
            let parameters = erase "slave_reference" instance_data in
            bind (errors_of args parameters (validate set_shared V parameters))
              (λ r. ok (shared_item reference r))
      ]

  abbrev pub is_empty : List E → Bool
  is_empty [] = true
  is_empty (e ∷ es) = false

  abbrev pub sorted_in : SharedItem J E → Lists J E → Lists J E
  sorted_in s (valid, invalid) =
      if is_empty s.errors_found then (s ∷ valid, invalid) else (valid, s ∷ invalid)

  -- The loop of `_parseSharedParameterDict`: the valid instances and the invalid ones.
  unfoldable pub sort_shared :
      (set_shared : Bool) → Validator J E → List E → List (Dict J) → Outcome (Lists J E)
  unfolding check_shared
  sort_shared set_shared V args [] = ok ([], [])
  sort_shared set_shared V args (s ∷ shared_list) =
      bind (check_shared set_shared V args s) λ checked.
        bind (sort_shared set_shared V args shared_list) (λ lists. ok (sorted_in checked lists))

  -- `_parseSharedParameterDict`, where `none` says that the options are not set.
  unfoldable pub parse_shared :
      (set_shared : Bool) → Validator J E → List E → List (Dict J) → Outcome (Option (Lists J E))
  unfolding sort_shared
  parse_shared set_shared V args [] = ok none
  parse_shared set_shared V args (s ∷ shared_list) =
      bind (sort_shared set_shared V args (s ∷ shared_list)) (λ lists. ok (some lists))

  -- `_validateParameterDict`, on the text options and the list of shared instances.
  unfoldable pub validate_parameters :
      Validator J E
      → Validator J E
      → List E
      → Dict String
      → List (Dict J)
      → Dict J
      → Outcome (Dict J × Option (Lists J E))
  unfolding parse_option parse_parameter_dict parse_shared
  validate_parameters main shared args options shared_list parameters =
      bind (parse_option options "set-default" "none") λ (set_main, set_shared).
        bind (parse_option options "validate-parameters" "all") λ (validate_main, validate_shared).
          bind
            (if validate_shared then parse_shared set_shared shared args shared_list else ok none)
            λ lists.
              bind
                (if validate_main
                  then parse_parameter_dict set_main main parameters
                  else ok parameters)
                λ filled. ok (filled, lists)
