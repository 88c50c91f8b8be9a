-- ===== src/Tests/Loading.antt =====
-- A logger that needs the metrics, which come after it, and a service that needs what is not there.
use data_lineup.Base.{true, some, List, [], ◌∷◌, string_eq, ◌≡◌, ◌↔◌, refl}
use data_lineup.Services.{
  ServiceClass, ServicesManager, init, load_service, load_round, build, built, load_deferred,
}
use data_lineup.Services.Deferred.{build-two_rounds}
use data_lineup.Services.Ordered.{Loads, build-Loads}

abbrev metrics : ServiceClass
metrics = record { id = 1; name = "metrics"; needs = []; options_valid = true; constructs = true }

abbrev logger : ServiceClass
logger = record {
  id = 2;
  name = "logger";
  needs = "metrics" ∷ [];
  options_valid = true;
  constructs = true;
}

abbrev lonely : ServiceClass
lonely = record {
  id = 3;
  name = "lonely";
  needs = "nothing" ∷ [];
  options_valid = true;
  constructs = true;
}

abbrev with_metrics : ServicesManager
with_metrics = record init { services = "metrics" ∷ init.services; loaded_services = metrics ∷ [] }

abbrev with_both : ServicesManager
with_both = record init {
  services = "logger" ∷ "metrics" ∷ init.services;
  loaded_services = metrics ∷ logger ∷ [];
}

build-two_rounds_example : (build 9 (logger ∷ metrics ∷ []) ≡ built with_both) ↔ (
    (deferred : List ServiceClass) × (first : ServicesManager) × (load_round
        (logger ∷ metrics ∷ [])
        init
      ≡ some (deferred, first))
    × (load_round deferred first ≡ some ([], with_both)))
build-two_rounds_example = build-two_rounds 9 (logger ∷ metrics ∷ []) with_both

build-Loads_example : Loads with_both.loaded_services with_both.services
unfolding build load_round load_deferred load_service
build-Loads_example = (build-Loads 9 (logger ∷ metrics ∷ []) with_both refl).0
