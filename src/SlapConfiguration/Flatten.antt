-- ===== src/SlapConfiguration/Flatten.antt =====
-- slapos/recipe/slapconfiguration.py: flatten_dict, which gives the resources of a partition as
-- options with joined names.
use Prim.Native.Char.{Char, code}
use slapos_abilian_edge.Base.{String, ◌<>◌, [], ◌∷◌, ◌++◌, ◌==◌, if◌then◌else◌}
use slapos_abilian_edge.Base.Dict.{Dict, insert, update}

-- A value of a JSON file: an object, or anything else.
mutual
  pub data Tree (J : Type 0) : Type 0 where
    leaf : J → Tree J
    folded : Items J → Tree J

  pub data Items (J : Type 0) : Type 0 where
    no_item : Items J
    item : (key : String) (value : Tree J) → Items J → Items J

-- `key.replace("_", "-")`
unfoldable pub dashes : String → String
dashes String.[] = String.[]
dashes (String.◌∷◌ c s) =
    let dash : Char = "-" in String.◌∷◌ (if code c == b'_' then dash else c) (dashes s)

module _ {J : Type 0} where
  unfoldable mutual
    -- `flatten_dict` on the items that are left, with the output so far.
    pub flatten_from : (key_prefix : String) → Items J → Dict J → Dict J
    flatten_from key_prefix no_item output = output
    flatten_from key_prefix (item key value items) output =
        flatten_from key_prefix items (flatten_value (key_prefix <> dashes key) value output)

    pub flatten_value : (prefixed_key : String) → Tree J → Dict J → Dict J
    flatten_value prefixed_key (leaf v) output = insert prefixed_key v output
    flatten_value prefixed_key (folded items) output =
        update output (flatten_from (prefixed_key <> "-") items [])

  -- `flatten_dict`
  unfoldable pub flatten_dict : Items J → Dict J
  unfolding flatten_from
  flatten_dict data_items = flatten_from "" data_items []

  unfoldable mutual
    -- The leaves in the order of the file, with the joined names of the keys above them.
    pub leaves : String → Items J → Dict J
    leaves key_prefix no_item = []
    leaves key_prefix (item key value items) =
        leaves_of (key_prefix <> dashes key) value ++ leaves key_prefix items

    pub leaves_of : String → Tree J → Dict J
    leaves_of name (leaf v) = (name, v) ∷ []
    leaves_of name (folded items) = leaves (name <> "-") items
