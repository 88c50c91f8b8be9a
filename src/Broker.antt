-- ===== src/Broker.antt =====
-- worker/broker.py and worker/executors/manager.py: how the broker applies what WorkManager
-- answers to the executors, with a Scheduler for each, and to the ResourcesManager. Providers are
-- given by their names, and what their classes do when they are opened and closed is an argument; `is_done` tells which tasks of the schedulers are done.
pub mod Loops
pub mod Parts
pub mod Rounds
use data_lineup.Base.{
  ℕ, String, Bool, true, false, not, ◌||◌, Option, none, some, List, [], ◌∷◌, string_eq,
  if◌then◌else◌,
}
use data_lineup.Dict.{Dict, lookup, has_key, insert, remove}
use data_lineup.Resources.{ResourceData, Result, ok, raise}
use data_lineup.ResourcesManager.{ResourcesManager, add_resource, remove_from}
use data_lineup.Scheduler.{Scheduler}
use data_lineup.Scheduler as Schedulers
use data_lineup.WorkManager.{ItemsSync}

pub record ExecutableQueue : Type 0 where
  pub id : ℕ
  pub executor : String

-- A resource with its type, and the key by which it is removed.
pub record TypedResource : Type 0 where
  pub type : String
  pub resource : ResourceData

-- `closed` holds the executors whose `close` was called, latest first.
pub record ExecutorsManager : Type 0 where
  pub executors : Dict String Scheduler
  pub closed : List String

-- `none` is an exception.
unfoldable pub add_queue : ExecutableQueue → ExecutorsManager → Option ExecutorsManager
add_queue q m = elim (lookup q.executor m.executors) [
  | none ↦ none
  | some w ↦ some (record m { executors = insert q.executor (Schedulers.add q.id w) m.executors })
]

unfoldable pub remove_queue :
    (is_done : ℕ → Bool) → ExecutableQueue → ExecutorsManager → ExecutorsManager
remove_queue is_done q m = elim (lookup q.executor m.executors) [
  | none ↦ m
  | some w ↦ record m {
    executors = insert q.executor (Schedulers.remove_item is_done q.id w) m.executors;
  }
]

-- `builds` tells for which definitions `build_executor` returns.
unfoldable pub add_executor :
    (builds : String → Bool) → String → ExecutorsManager → Option ExecutorsManager
add_executor builds name m =
    if has_key name m.executors || not (builds name)
    then none
    else some (record m { executors = insert name Schedulers.init m.executors })

-- `closes` tells for which executors `close` returns; an executor whose `close` raises is gone all
-- the same. The first part is whether the whole returns.
unfoldable pub remove_executor :
    (closes : String → Bool) → String → ExecutorsManager → Bool × ExecutorsManager
remove_executor closes name m = elim (lookup name m.executors) [
  | none ↦ (false, m)
  | some w ↦ (closes name, record { executors = remove name m.executors; closed = name ∷ m.closed })
]

pub record WorkSync : Type 0 where
  pub queues : ItemsSync ExecutableQueue
  pub resources : ItemsSync TypedResource
  pub resources_providers : ItemsSync String
  pub executors : ItemsSync String

-- `providers` is the log of the calls of `_open` (`true`) and `_close`, latest first.
pub record Broker : Type 0 where
  pub executors_manager : ExecutorsManager
  pub resources_manager : ResourcesManager
  pub providers : List (String × Bool)

-- A round of `run_sync`, or a part of it; an exception is fatal to the broker.
pub data Round : Type 0 where
  synced fatal : Broker → Round

infixl 5 ◌>>=◌
abbrev pub ◌>>=◌ : Round → (Broker → Round) → Round
synced b >>= f = f b
fatal b >>= f = fatal b

-- A `for` loop.
abbrev pub each {ℓ} : {A : Type ℓ} → (A → Broker → Round) → List A → Broker → Round
each f [] b = synced b
each f (x ∷ xs) b = f x b >>= each f xs

abbrev pub with_executors : Broker → Option ExecutorsManager → Round
with_executors b none = fatal b
with_executors b (some m) = synced (record b { executors_manager = m })

abbrev pub call_add_executor : (builds : String → Bool) → String → Broker → Round
call_add_executor builds name b = with_executors b (add_executor builds name b.executors_manager)

abbrev pub call_add_queue : ExecutableQueue → Broker → Round
call_add_queue q b = with_executors b (add_queue q b.executors_manager)

abbrev pub call_remove_executor : (closes : String → Bool) → String → Broker → Round
call_remove_executor closes name b =
    let (returns, m) = remove_executor closes name b.executors_manager in
    let b' : Broker = record b { executors_manager = m } in if returns then synced b' else fatal b'

abbrev pub call_remove_queue : (is_done : ℕ → Bool) → ExecutableQueue → Broker → Round
call_remove_queue is_done q b =
    synced (record b { executors_manager = remove_queue is_done q b.executors_manager })

-- What `open` (`true`) and `close` of a provider do to the resources, and whether they raise.
abbrev pub Provide : Type 0
Provide = Bool → String → ResourcesManager → Result (Unit {0}) × ResourcesManager

abbrev pub call_provider : Provide → Bool → String → Broker → Round
call_provider provide opens name b =
    let (done, m) = provide opens name b.resources_manager in
    let b' : Broker = record b { resources_manager = m; providers = (name, opens) ∷ b.providers } in
    elim done [ ok _ ↦ synced b' | raise _ ↦ fatal b' ]

abbrev pub call_add_resource : (strategies : String → Bool) → TypedResource → Broker → Round
call_add_resource strategies r b =
    let (done, m) = add_resource strategies r.type r.resource b.resources_manager in
    let b' : Broker = record b { resources_manager = m } in
    elim done [ ok _ ↦ synced b' | raise _ ↦ fatal b' ]

abbrev pub call_remove_resource : TypedResource → Broker → Round
call_remove_resource r b =
    synced (record b { resources_manager = remove_from r.type r.resource.name b.resources_manager })

-- What `run_sync` does with the answer of `sync`.
unfoldable pub apply_sync :
    (builds closes strategies : String → Bool)
    → Provide
    → (is_done : ℕ → Bool) → WorkSync
    → Broker
    → Round
apply_sync builds closes strategies provide is_done sync b =
    each (call_add_executor builds) sync.executors.add b
    >>= each call_add_queue sync.queues.add
    >>= each (call_add_resource strategies) sync.resources.add
    >>= each (call_provider provide true) sync.resources_providers.add
    >>= each (call_provider provide false) sync.resources_providers.drop
    >>= each call_remove_resource sync.resources.drop
    >>= each (call_remove_queue is_done) sync.queues.drop
    >>= each (call_remove_executor closes) sync.executors.drop
