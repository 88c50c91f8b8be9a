-- ===== src/ResourcesProvider/Names.antt =====
-- The names in the pool of a provider, after `add` and `remove` of the manager.
use data_lineup.Base.{
  String, Bool, true, false, some, ◌==◌, ==_iff, ==_self, string_eq, if◌then◌else◌, ◌≡◌, refl,
  arith, Option-cases, inl, inr,
}
use data_lineup.Dict.{
  lookup, has_key, insert, remove, Distinct, elem, remove-Distinct, lookup-remove, has_key-lookup,
}
use data_lineup.Resources.{
  ResourceData, ExclusiveResources, ok, add, remove_resource, build_rate_limiter,
}
use data_lineup.ResourcesManager.{pool, set_pool}
use data_lineup.ResourcesManager.Pools.{pool-set_pool}
use data_lineup.ResourcesProvider.{ProvidedResource, ResourcesProvider}

-- The pool of the provider's type.
abbrev pub pool_of : ResourcesProvider → ExclusiveResources
pool_of p = pool p.resource_type p.manager

abbrev pub has_name : String → ResourcesProvider → Bool
has_name n p = has_key n (pool_of p).resources

-- An item without a rate limit, or with one whose strategy exists.
abbrev pub IsKnown : (String → Bool) → ProvidedResource → Type 0
IsKnown strategies item = (s : String) → item.rate_limit ≡ some s → strategies s ≡ true

pub add-known :
    (strategies : String → Bool) (r : ResourceData) (s : ExclusiveResources)
    → ((l : String) → r.rate_limit ≡ some l → strategies l ≡ true)
    → has_key r.name s.resources ≡ false
    → ((add strategies r s).0 ≡ ok tt)
      × ((add strategies r s).1.resources ≡ insert r.name r s.resources)
unfolding add build_rate_limiter
add-known strategies r s known free = elim (Option-cases r.rate_limit) [
  | inl e ↦ ground (arith, free, e)
  | inr (l, e) ↦ ground (arith, free, e, known l e)
]

module _ (name n : String) (s : ExclusiveResources) (d : Distinct s.resources) where
  pub has_key-remove_resource :
      has_key n (remove_resource name s).resources
      ≡ (if name == n then false else has_key n s.resources)
  unfolding remove_resource
  has_key-remove_resource = ground (
    arith,
    has_key-lookup n s.resources,
    has_key-lookup n (remove name s.resources),
    lookup-remove name n s.resources d,
    ==_iff name n,
  )

pub remove_resource-Distinct :
    (name : String) (s : ExclusiveResources)
    → Distinct s.resources
    → Distinct (remove_resource name s).resources
unfolding remove_resource
remove_resource-Distinct name s d = elim (Option-cases (lookup name s.resources)) [
  | inl e ↦ rw (remove_resource, e) d
  | inr (r, e) ↦ rw (remove_resource, e) (remove-Distinct name s.resources d)
]

-- What the provider relies on: the names of its pool are distinct, and those it manages are there.
pub record IsSynced (p : ResourcesProvider) : Type 0 where
  pub distinct : Distinct (pool_of p).resources
  pub held : (n : String) → elem n p.managed ≡ true → has_name n p ≡ true

pub pool_of-set :
    (p : ResourcesProvider) (s : ExclusiveResources)
    → pool p.resource_type (set_pool p.resource_type s p.manager) ≡ s
pool_of-set p s =
    rw (pool-set_pool p.resource_type p.resource_type s p.manager, ==_self p.resource_type) refl
