-- ===== src/Resources.antt =====
-- worker/resources/manager.py: `ExclusiveResources`, the pool of the resources of one type.
-- `ResourceData` compares by identity (`eq=False`), so a set of resources is a dictionary from
-- handles, which stand for `id(resource)`; its order stands for the order of `set.pop`, which
-- Python leaves open. `condition.notify` wakes a waiter and changes no other state.
pub mod Invariant
pub mod Moves
pub mod Pool
use data_lineup.Base.{
  ℕ, String, Bool, true, false, not, Option, none, some, List, [], ◌∷◌, ◌==◌, string_eq, nat_eq,
  if◌then◌else◌,
}
use data_lineup.Dict.{Dict, lookup, has_key, insert, remove}

pub record ResourceData : Type 0 where
  pub handle : ℕ
  pub name : String
  pub rate_limit : Option String  -- the strategy of its `ResourceRateLimit`
  pub default_delay : ℕ

pub data Error : Type 0 where
  value_error resource_unavailable key_error : Error

pub data Result (A : Type 0) : Type 0 where
  ok : A → Result A
  raise : Error → Result A

-- A limiter is named by its strategy.
pub record ExclusiveResources : Type 0 where
  pub availables : Dict ℕ ResourceData
  pub used : Dict ℕ ResourceData
  pub resources : Dict String ResourceData
  pub limiters : Dict String String

abbrev pub empty : ExclusiveResources
empty = record { availables = []; used = []; resources = []; limiters = [] }

-- `strategies` tells which keys the table `STRATEGIES` of the limits library has.
unfoldable pub build_rate_limiter :
    (strategies : String → Bool)
    → String
    → String
    → ExclusiveResources
    → Result (Unit {0}) × ExclusiveResources
build_rate_limiter strategies resource_name strategy s =
    if strategies strategy
    then (ok tt, record s { limiters = insert resource_name strategy s.limiters })
    else (raise value_error, s)

unfoldable pub add :
    (strategies : String → Bool)
    → ResourceData
    → ExclusiveResources
    → Result (Unit {0}) × ExclusiveResources
unfolding build_rate_limiter
add strategies r s =
    if has_key r.name s.resources
    then (raise value_error, s)
    else (let s' = record s {
      availables = insert r.handle r s.availables;
      resources = insert r.name r s.resources;
    } in
        elim r.rate_limit [
          | none ↦ (ok tt, s')
          | some strategy ↦ build_rate_limiter strategies r.name strategy s'
        ])

unfoldable pub remove_resource : String → ExclusiveResources → ExclusiveResources
remove_resource name s = elim (lookup name s.resources) [
  | none ↦ s
  | some r ↦ record {
    availables = remove r.handle s.availables;
    used = remove r.handle s.used;
    resources = remove name s.resources;
    limiters = remove r.name s.limiters;
  }
]

unfoldable pub try_acquire : ExclusiveResources → Option ResourceData × ExclusiveResources
try_acquire s = elim s.availables [
  | [] ↦ (none, s)
  | (h, r) ∷ rest ↦ (some r, record s { availables = rest; used = insert r.handle r s.used })
]

-- `acquire(wait=False)`
unfoldable pub acquire_nowait : ExclusiveResources → Result ResourceData × ExclusiveResources
unfolding try_acquire
acquire_nowait s =
    let (found, s') = try_acquire s in
    (elim found [ none ↦ raise resource_unavailable | some r ↦ ok r ], s')

unfoldable pub release : ResourceData → ExclusiveResources → ExclusiveResources
release r s =
    if has_key r.handle s.used
    then record s { used = remove r.handle s.used; availables = insert r.handle r s.availables }
    else s
