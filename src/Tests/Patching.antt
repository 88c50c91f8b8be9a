-- ===== src/Tests/Patching.antt =====
-- A patch that sets the concurrency of a resource and leaves its type, and two objects of a kind.
use data_lineup.Base.{some, [], ◌∷◌, string_eq, ◌≡◌, refl}
use data_lineup.Topology.{scalar, object, Fields, end, field, deep_merge}
use data_lineup.Topology.Merged.{IsValue, IsFields, at_path, at_path-deep_merge}

abbrev resource : Fields
resource =
    field "spec" (object (field "type" (scalar "api") (field "concurrency" (scalar "1") end))) end

abbrev patch : Fields
patch = field "spec" (object (field "concurrency" (scalar "4") end)) end

patch-IsFields : IsFields patch
unfolding IsValue IsFields
patch-IsFields = (refl, (refl, tt, tt), tt)

at_path-deep_merge_example :
    at_path ("spec" ∷ "concurrency" ∷ []) (object (deep_merge resource patch)) ≡ some (scalar "4")
at_path-deep_merge_example =
    (at_path-deep_merge ("spec" ∷ "concurrency" ∷ []) resource patch patch-IsFields).0 "4" refl
