-- ===== src/Topology.antt =====
-- utils/dict.py, and how worker_manager/config/declarative.py patches and groups the objects of the
-- declarative configuration. A value of YAML is a text that stands for any scalar or list, or a
-- dictionary; the objects are given with their kind, their name and their data.
pub mod Merged
pub mod Grouped
use data_lineup.Base.{
  String, Bool, true, false, not, ◌&&◌, Option, none, some, List, [], ◌∷◌, string_eq, ◌==◌,
  if◌then◌else◌,
}
use data_lineup.Dict.{Dict, lookup, has_key, insert}

mutual
  pub data Value : Type 0 where
    scalar : String → Value
    object : Fields → Value

  -- A dictionary, in insertion order.
  pub data Fields : Type 0 where
    end : Fields
    field : (key : String) → Value → Fields → Fields

-- d.get(key), d[key] = value
abbrev pub get_field : String → Fields → Option Value
get_field k end = none
get_field k (field j v d) = if j == k then some v else get_field k d

abbrev pub put_field : String → Value → Fields → Fields
put_field k v end = field k v end
put_field k v (field j w d) = if j == k then field j v d else field j w (put_field k v d)

mutual
  -- `deep_merge`, where `result` is what is merged so far.
  pub deep_merge : Fields → Fields → Fields
  deep_merge result end = result
  deep_merge result (field key value b) =
      deep_merge (put_field key (merge_value (get_field key result) value) result) b

  -- What a key of `b` is set to, by the value that it has.
  pub merge_value : Option Value → Value → Value
  merge_value (some (object a)) (object b) = object (deep_merge a b)
  merge_value none (object b) = object b
  merge_value (some (scalar s)) (object b) = object b
  merge_value old (scalar s) = scalar s

pub record UncompiledObject : Type 0 where
  pub kind : String
  pub name : String
  pub fields : Fields

pub record TopologyPatch : Type 0 where
  pub kind : String
  pub name : String
  pub fields : Fields

abbrev pub is_named : (kind name : String) → UncompiledObject → Bool
is_named kind name u = (u.kind == kind) && (u.name == name)

abbrev pub has_object : (kind name : String) → List UncompiledObject → Bool
has_object kind name [] = false
has_object kind name (u ∷ us) =
    let rest = has_object kind name us in if is_named kind name u then true else rest

-- The dictionary by kind and name holds the last object of each; it is changed in place.
unfoldable pub apply_patch : TopologyPatch → List UncompiledObject → List UncompiledObject
unfolding deep_merge
apply_patch p [] = []
apply_patch p (u ∷ us) =
    let rest = apply_patch p us in
    if is_named p.kind p.name u && not (has_object p.kind p.name us)
    then record u { fields = deep_merge u.fields p.fields } ∷ us
    else u ∷ rest

-- A patch for which there is no object is passed over.
abbrev pub merge_with_patches : List UncompiledObject → List TopologyPatch → List UncompiledObject
merge_with_patches objects [] = objects
merge_with_patches objects (p ∷ ps) = merge_with_patches (apply_patch p objects) ps

-- `objects_by_kind[kind]`, of a `defaultdict`.
abbrev pub of_kind :
    String → Dict String (Dict String UncompiledObject) → Dict String UncompiledObject
of_kind kind by_kind = elim (lookup kind by_kind) [ none ↦ [] | some d ↦ d ]

-- `objects_by_kind`; `none` is the exception for an object that exists already.
unfoldable pub group_by_kind :
    List UncompiledObject
    → Dict String (Dict String UncompiledObject)
    → Option (Dict String (Dict String UncompiledObject))
group_by_kind [] by_kind = some by_kind
group_by_kind (u ∷ us) by_kind =
    let named = of_kind u.kind by_kind in
    let rest = group_by_kind us (insert u.kind (insert u.name u named) by_kind) in
    if has_key u.name named then none else rest
