-- ===== src/Tests/Acquiring.antt =====
-- A manager with a pool of one resource, and a provider that syncs into it.
use data_lineup.Base.{
  ℕ, String, Bool, true, none, List, [], ◌∷◌, string_eq, nat_eq, ◌==◌, ==_iff, ◌≡◌, refl, arith,
}
use data_lineup.Resources.{ResourceData, ExclusiveResources, empty, add}
use data_lineup.ResourcesManager.{ResourcesManager, set_pool}
use data_lineup.ResourcesProvider.{ProvidedResource, ResourcesProvider, names_of}
use data_lineup.ResourcesProvider.Names.{IsSynced, has_name}
use data_lineup.ResourcesProvider.Sync.{Free}

abbrev strategies : String → Bool
strategies s = s == "fixed-window"

abbrev token : ResourceData
token = record { handle = 1; name = "token"; rate_limit = none; default_delay = 0 }

abbrev one_token : ExclusiveResources
one_token = (add strategies token empty).1

abbrev no_pools : ResourcesManager
no_pools = record { resources = []; delayed = [] }

abbrev manager : ResourcesManager
manager = set_pool "api" one_token no_pools

abbrev unlimited : ResourceData → List (ℕ × ℕ)
unlimited r = []

abbrev as_given : List String → List String
as_given types = types

abbrev provider : ResourcesProvider
provider = record { resource_type = "api"; managed = "token" ∷ []; manager = manager; next = 2 }

provider-IsSynced : IsSynced provider
unfolding add
provider-IsSynced = record { distinct = (refl, tt); held = λ n e. ground (arith, e) }

abbrev key : ProvidedResource
key = record { name = "key"; default_delay = 0; rate_limit = none }

key-Free : Free (names_of (key ∷ [])) provider
unfolding add
key-Free n e f = ground (arith, e, f, ==_iff "key" n, ==_iff "token" n)

abbrev other_provider : ResourcesProvider
other_provider = record provider { managed = [] }

other_provider-IsSynced : IsSynced other_provider
other_provider-IsSynced = record {
  distinct = (provider-IsSynced).distinct;
  held = λ n e. absurd (cc e);
}

abbrev again : ProvidedResource
again = record { name = "token"; default_delay = 0; rate_limit = none }

token_there : has_name "token" other_provider ≡ true
unfolding add
token_there = refl
