-- ===== src/Config.antt =====
-- utils/config.py: how values are found in the layers of a configuration, and how they are loaded
-- under an interface. An object is a leaf of type `V` or has named attributes; `lower` is
-- `str.lower`. An interface lists its names without the private ones; whether a type is a leaf and
-- what `check_type` answers for it stand in the interface. A loaded configuration is a dictionary
-- from key paths, and `none` in it is the object `_MISSING`.
pub mod Settled
use mathlib.Core.List.{reverse}
use Prim.Native.String.{◌++◌ as ◌<+>◌}
use data_lineup.Base.{
  String, Bool, true, false, Option, none, some, List, [], ◌∷◌, ◌++◌, string_eq, ◌==◌,
  if◌then◌else◌, or_else,
}
use data_lineup.Dict.{Dict, has_key, insert}

mutual
  pub data Value (V : Type 0) : Type 0 where
    leaf : V → Value V
    object : Attributes V → Value V

  pub data Attributes (V : Type 0) : Type 0 where
    nothing : Attributes V
    attribute : String → Value V → Attributes V → Attributes V

pub data Interface (V : Type 0) : Type 0 where
  complete : Interface V
  -- A leaf: its type, the value the interface has for it, and its dataclass default.
  key :
      (name : String) (check : Value V → Bool) (value default : Option (Value V))
      → Interface V
      → Interface V
  nested : (name : String) → Interface V → Interface V → Interface V

abbrev pub Settings : Type 0 → Type 0
Settings V = Dict String (Option (Value V))

pub data Loaded (V : Type 0) : Type 0 where
  loaded : Settings V → Loaded V
  missing_key invalid_type : (key_path : String) → Loaded V

-- `f"{path}.{name}" if path else name`
abbrev pub key_path : (path name : String) → String
key_path path name = if path == "" then name else path <+> ("." <+> name)

module _ {V : Type 0} (lower : String → String) where
  -- The last key of this name, in lower case, by `ikey_map`.
  abbrev pub find_attribute : String → Attributes V → Option (Value V)
  find_attribute name nothing = none
  find_attribute name (attribute k v rest) =
      let later = find_attribute name rest in
      or_else later (if lower k == name then some v else none)

  abbrev pub get_attr : Value V → String → Option (Value V)
  get_attr (leaf v) name = none
  get_attr (object attributes) name = find_attribute name attributes

  -- The loop of `get_config_value` up to its `break`.
  abbrev pub first_attr : List (Value V) → String → Option (Value V)
  first_attr [] name = none
  first_attr (source ∷ sources) name = or_else (get_attr source name) (first_attr sources name)

  unfoldable pub get_config_value : List (Value V) → String → Option (Value V) → Option (Value V)
  get_config_value layers name default = or_else (first_attr (reverse layers) name) default

  abbrev pub sublayers : List (Value V) → String → List (Value V)
  sublayers [] name = []
  sublayers (layer ∷ layers) name = elim (get_attr layer name) [
    | none ↦ sublayers layers name
    | some s ↦ s ∷ sublayers layers name
  ]

  -- `place` is where the configuration stands, with names in lower case.
  unfoldable pub load_config_interface :
      Interface V → List (Value V) → (path place : String) → Settings V → Loaded V
  unfolding get_config_value
  load_config_interface complete layers path place config = loaded config
  load_config_interface (key name check value default rest) layers path place config =
      let here = key_path place (lower name) in
      elim (or_else (get_config_value layers name value) default) [
        | none ↦
            if has_key (key_path place name) config
            then load_config_interface rest layers path place (insert here none config)
            else missing_key (key_path path name)
        | some v ↦
            if check v
            then load_config_interface rest layers path place (insert here (some v) config)
            else invalid_type (key_path path name)
      ]
  load_config_interface (nested name inner rest) layers path place config =
      elim (load_config_interface inner (sublayers layers name) (key_path path name)
        (key_path place (lower name)) config) [
          | loaded config' ↦ load_config_interface rest layers path place config'
          | missing_key k ↦ missing_key k
          | invalid_type k ↦ invalid_type k
        ]

  -- `interfaces.items()`, in order.
  unfoldable pub load_config : Dict String (Interface V) → List (Value V) → Settings V → Loaded V
  unfolding load_config_interface
  load_config [] layers config = loaded config
  load_config ((namespace, interface) ∷ interfaces) layers config =
      let layers' = if namespace == "" then layers else sublayers layers namespace in
      elim (load_config_interface interface layers' "" (lower namespace) config) [
        | loaded config' ↦ load_config interfaces layers config'
        | missing_key k ↦ missing_key k
        | invalid_type k ↦ invalid_type k
      ]

-- `LazyConfig`: its layers, where another `LazyConfig` stands for its own.
pub data ConfigObject (V : Type 0) : Type 0 where
  plain : Value V → ConfigObject V
  lazy : List (Value V) → ConfigObject V

module _ {V : Type 0} where
  abbrev pub objects_to_layers : List (ConfigObject V) → List (Value V)
  objects_to_layers [] = []
  objects_to_layers (plain v ∷ objects) = v ∷ objects_to_layers objects
  objects_to_layers (lazy layers ∷ objects) = layers ++ objects_to_layers objects

  abbrev pub load_objects : List (ConfigObject V) → List (Value V) → List (Value V)
  load_objects objects layers = layers ++ objects_to_layers objects
