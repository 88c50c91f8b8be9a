-- ===== src/ResourcesManager.antt =====
-- worker/resources/manager.py: the contexts in which resources are held, and `ResourcesManager`,
-- with a pool for each type. Times are whole seconds. The clock and what a rate limiter answers
-- for the limits of a resource, as pairs of a reset time and a remaining count, are arguments. A
-- release that is delayed goes to a list, with its time. An acquisition that waits is not modelled.
pub mod Pools
pub mod Atomic
use data_lineup.Base.{
  ℕ, zero, suc, ◌+◌, ◌-◌, String, Bool, true, false, not, ◌&&◌, Option, none, some, List, [], ◌∷◌,
  ◌++◌, string_eq, leb, ltb, eqb, max, if◌then◌else◌, is_some,
}
use data_lineup.Dict.{Dict, lookup, insert}
use data_lineup.Resources.{
  ResourceData, ExclusiveResources, Error, resource_unavailable, value_error, Result, ok, raise,
  empty, add, remove_resource, acquire_nowait, release,
}

pub record ResourceContext : Type 0 where
  pub resource : Option ResourceData
  pub rate_limiter : Option String
  pub release_at : Option ℕ

pub record DelayedRelease : Type 0 where
  pub resource_type : String
  pub resource : ResourceData
  pub release_at : ℕ

pub record ResourcesManager : Type 0 where
  pub resources : Dict String ExclusiveResources
  pub delayed : List DelayedRelease

-- `if self.release_at:` holds of a time other than 0.
abbrev pub is_later : Option ℕ → Option ℕ
is_later none = none
is_later (some t) = if eqb t 0 then none else some t

abbrev pub make_context : ResourceData → ExclusiveResources → ResourceContext
make_context r s = record {
  resource = some r;
  rate_limiter = lookup r.name s.limiters;
  release_at = none;
}

abbrev pub release_later : ℕ → ResourceContext → ResourceContext
release_later t c = record c { release_at = some t }

-- The largest reset time of a limit of which the last request is used up.
abbrev pub last_reset : List (ℕ × ℕ) → Option ℕ
last_reset [] = none
last_reset ((reset_time, remaining) ∷ stats) =
    let rest = last_reset stats in
    if leb remaining 1
    then some (elim rest [ none ↦ reset_time | some t ↦ max reset_time t ])
    else rest

unfoldable pub apply_rate_limit : (stats : List (ℕ × ℕ)) → ResourceContext → ResourceContext
apply_rate_limit stats c =
    if is_some c.rate_limiter && is_some c.resource
    then (elim (last_reset stats) [
      | none ↦ c
      | some t ↦ elim (is_later c.release_at) [
        | none ↦ release_later t c
        | some old ↦ if ltb old t then release_later t c else c
      ]
    ])
    else c

-- `__aenter__`
unfoldable pub enter_context :
    (now : ℕ) → (stats : ResourceData → List (ℕ × ℕ)) → ResourceContext → Result ResourceContext
unfolding apply_rate_limit
enter_context now stats c = elim c.resource [
  | none ↦ raise value_error
  | some r ↦
      let c' = if eqb r.default_delay 0 then c else release_later (now + r.default_delay) c in
      ok (
        if is_some c'.rate_limiter && is_some r.rate_limit
        then apply_rate_limit (stats r) c'
        else c')
]

abbrev pub pool : String → ResourcesManager → ExclusiveResources
pool t m = elim (lookup t m.resources) [ none ↦ empty | some s ↦ s ]

abbrev pub set_pool : String → ExclusiveResources → ResourcesManager → ResourcesManager
set_pool t s m = record m { resources = insert t s m.resources }

-- `ResourceContext.release`, of a context of this type.
unfoldable pub release_context : String → ResourceContext → ResourcesManager → ResourcesManager
release_context t c m = elim c.resource [
  | none ↦ m
  | some r ↦ elim (is_later c.release_at) [
    | some when ↦ record m {
      delayed = record { resource_type = t; resource = r; release_at = when } ∷ m.delayed;
    }
    | none ↦ set_pool t (release r (pool t m)) m
  ]
]

-- `_delayed_release` after its sleep.
abbrev pub finish_delayed : DelayedRelease → ResourcesManager → ResourcesManager
finish_delayed d m = set_pool d.resource_type (release d.resource (pool d.resource_type m)) m

abbrev pub Held : Type 0
Held = List (String × ResourceContext)

-- The exit stack releases the context that was entered last first.
abbrev pub release_all : Held → ResourcesManager → ResourcesManager
release_all [] m = m
release_all ((t, c) ∷ held) m = release_all held (release_context t c m)

-- The loop of `acquire_many` with its exit stack, for `wait=False`.
unfoldable pub acquire_all :
    (now : ℕ)
    → (stats : ResourceData → List (ℕ × ℕ)) → List String
    → Held
    → ResourcesManager
    → Result Held × ResourcesManager
unfolding enter_context release_context
acquire_all now stats [] held m = (ok held, m)
acquire_all now stats (t ∷ ts) held m =
    let (found, s) = acquire_nowait (pool t m) in
    let m' = set_pool t s m in
    elim found [
      | raise e ↦ (raise e, release_all held m')
      | ok r ↦ elim (enter_context now stats (make_context r s)) [
        | raise e ↦ (raise e, release_all held m')
        | ok c ↦ acquire_all now stats ts ((t, c) ∷ held) m'
      ]
    ]

unfoldable pub acquire_many :
    (sorted : List String → List String)
    → (now : ℕ) → (stats : ResourceData → List (ℕ × ℕ)) → List String
    → ResourcesManager
    → Result Held × ResourcesManager
unfolding acquire_all
acquire_many sorted now stats types m = acquire_all now stats (sorted types) [] m

abbrev pub add_resource :
    (strategies : String → Bool)
    → String
    → ResourceData
    → ResourcesManager
    → Result (Unit {0}) × ResourcesManager
add_resource strategies t r m =
    let (done, s) = add strategies r (pool t m) in (done, set_pool t s m)

abbrev pub remove_from : (type name : String) → ResourcesManager → ResourcesManager
remove_from t name m = set_pool t (remove_resource name (pool t m)) m
