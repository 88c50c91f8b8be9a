-- ===== src/Tests/Brokering.antt =====
-- A worker with one executor that gets a second one with a queue, and drops the first.
use data_lineup.Base.{
  ℕ, String, Bool, true, false, not, ◌||◌, ◌&&◌, none, [], ◌∷◌, string_eq, ◌≡◌, refl,
}
use data_lineup.Dict.{elem}
use data_lineup.Scheduler as Schedulers
use data_lineup.Resources.{ResourceData, ok, add}
use data_lineup.ResourcesManager.{add_resource, remove_from}
use data_lineup.Broker.{WorkSync, Broker, Provide, synced, apply_sync}
use data_lineup.Broker.Rounds.{running, Fits, apply_sync-running}

abbrev worker : Broker
worker = record {
  executors_manager = record { executors = ("process", Schedulers.init) ∷ []; closed = [] };
  resources_manager = record { resources = []; delayed = [] };
  providers = [];
}

abbrev key : ResourceData
key = record { handle = 2; name = "key"; default_delay = 0; rate_limit = none }

abbrev moves_to_arq : WorkSync
moves_to_arq = record {
  queues = record { add = record { id = 1; executor = "arq" } ∷ []; drop = [] };
  resources = record { add = record { type = "api"; resource = key } ∷ []; drop = [] };
  resources_providers = record { add = "static" ∷ []; drop = [] };
  executors = record { add = "arq" ∷ []; drop = "process" ∷ [] };
}

abbrev any : String → Bool
any name = true

abbrev none_done : ℕ → Bool
none_done task = false

-- The static provider adds a resource.
abbrev token : ResourceData
token = record { handle = 3; name = "token"; default_delay = 0; rate_limit = none }

abbrev adds_token : Provide
adds_token true name m = add_resource any "api" token m
adds_token false name m = (ok tt, remove_from "api" "token" m)

moves_to_arq-Fits : Fits any any any adds_token moves_to_arq worker
unfolding add
moves_to_arq-Fits = record {
  distinct = (refl, tt);
  are_new = ((refl, refl), tt);
  placed = (refl, tt);
  addable = (refl, refl, tt);
  opening = (refl, tt);
  closing = tt;
  are_running = ((refl, refl), tt);
}

apply_sync-running_example :
    (after : Broker) × (apply_sync any any any adds_token none_done moves_to_arq worker
      ≡ synced after)
    × ((n : String)
        → running after n
          ≡ ((running worker n || elem n ("arq" ∷ [])) && not (elem n ("process" ∷ []))))
apply_sync-running_example =
    apply_sync-running any any any adds_token none_done moves_to_arq worker moves_to_arq-Fits
