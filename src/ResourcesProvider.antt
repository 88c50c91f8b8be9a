-- ===== src/ResourcesProvider.antt =====
-- worker/resources/provider.py: `ResourcesProvider`, `PeriodicSyncProvider` and
-- `StaticResourcesProvider`, which put resources into the manager and keep the set of the names
-- they manage. `next` is the handle of the next `ResourceData`, which is a new object. The items of
-- a sync are an argument; the task that polls and its sleep are not modelled.
pub mod Names
pub mod Sync
use data_lineup.Base.{
  ℕ, suc, String, Bool, not, Option, List, [], ◌∷◌, map, keep, string_eq, if◌then◌else◌,
}
use data_lineup.Dict.{elem, discard}
use data_lineup.Dict as Dict
use data_lineup.Resources.{ResourceData, Error, Result, ok, raise}
use data_lineup.ResourcesManager.{ResourcesManager, add_resource, remove_from}

-- `rate_limit` is the strategy of its `ProvidedResourceRateLimit`.
pub record ProvidedResource : Type 0 where
  pub name : String
  pub default_delay : ℕ
  pub rate_limit : Option String

pub record ResourcesProvider : Type 0 where
  pub resource_type : String
  pub managed : List String
  pub manager : ResourcesManager
  pub next : ℕ

abbrev pub provided_data : ℕ → ProvidedResource → ResourceData
provided_data handle item = record {
  handle = handle;
  name = item.name;
  rate_limit = item.rate_limit;
  default_delay = item.default_delay;
}

-- The name is managed before the manager is asked, which may raise.
unfoldable pub provide :
    (strategies : String → Bool)
    → ProvidedResource
    → ResourcesProvider
    → Result (Unit {0}) × ResourcesProvider
provide strategies item p =
    if elem item.name p.managed
    then (ok tt, p)
    else (let (done, m) =
          add_resource strategies p.resource_type (provided_data p.next item) p.manager in
        (done, record p { managed = Dict.add item.name p.managed; manager = m; next = suc p.next }))

unfoldable pub withdraw : String → ResourcesProvider → ResourcesProvider
withdraw name p = record p {
  managed = discard name p.managed;
  manager = remove_from p.resource_type name p.manager;
}

-- The loop of `StaticResourcesProvider.open`, and the first one of `update`.
abbrev pub provide_all :
    (strategies : String → Bool)
    → List ProvidedResource
    → ResourcesProvider
    → Result (Unit {0}) × ResourcesProvider
provide_all strategies [] p = (ok tt, p)
provide_all strategies (item ∷ items) p =
    let (done, p') = provide strategies item p in
    elim done [ raise e ↦ (raise e, p') | ok _ ↦ provide_all strategies items p' ]

abbrev pub withdraw_all : List String → ResourcesProvider → ResourcesProvider
withdraw_all [] p = p
withdraw_all (name ∷ names) p = withdraw_all names (withdraw name p)

abbrev pub names_of : List ProvidedResource → List String
names_of items = map (λ item. item.name) items

unfoldable pub update :
    (strategies : String → Bool)
    → List ProvidedResource
    → ResourcesProvider
    → Result (Unit {0}) × ResourcesProvider
update strategies items p =
    let (done, p') = provide_all strategies items p in
    elim done [
      | raise e ↦ (raise e, p')
      | ok _ ↦ (ok tt, withdraw_all (keep (λ n. not (elem n (names_of items))) p'.managed) p')
    ]

-- A round of `poller`, which logs what `update` raises and goes on.
abbrev pub poll :
    (strategies : String → Bool) → List ProvidedResource → ResourcesProvider → ResourcesProvider
poll strategies items p = (update strategies items p).1

-- `_close`
abbrev pub close : ResourcesProvider → ResourcesProvider
close p = withdraw_all p.managed p
