-- ===== src/Tests/Following.antt =====
-- A worker that follows a response, and a lock on a small database.
use data_lineup.Base.{
  String, true, false, none, some, [], ◌∷◌, string_eq, ◌≡◌, ◌≤◌, refl, length, All, if◌then◌else◌,
  ◌==◌,
}
use data_lineup.Dict.{lookup}
use data_lineup.WorkManager
use data_lineup.WorkManager.{Kinds, load, by_name, sync}
use data_lineup.WorkManager.Follow.{sync-follows}
use data_lineup.Stores.{Queue, Job, Database, Env}
use data_lineup.Lock.{StaticDefinitions, LockInput, lock_jobs, is_excluded, resource_item}
use data_lineup.Lock.Bound.{IsRunnable, length-lock_jobs-le, lock_jobs-IsRunnable}

-- Everything is its own name, and the queue "broken" cannot be built.
abbrev names : Kinds
names = record {
  QueueItem = String;
  ExecutableQueue = String;
  ResourceItem = String;
  ResourceData = String;
  ResourcesProviderItem = String;
  ResourcesProvider = String;
  ComponentDefinition = String;
  queue_name = λ n. n;
  resource_name = λ n. n;
  provider_name = λ n. n;
  executor_name = λ n. n;
  build_queue = λ n. if n == "broken" then none else some n;
  build_resource_data = λ n. n;
  build_resources_provider = λ n. n;
}

abbrev answer : WorkManager.LockResponse names
answer = record {
  items = "orders" ∷ "broken" ∷ "users" ∷ [];
  resources = "token" ∷ [];
  resources_providers = [];
  executors = "threads" ∷ [];
}

abbrev worker : WorkManager.WorkManager names
worker = record {
  worker_items = ("users", "users") ∷ ("old", "old") ∷ [];
  worker_resources = [];
  worker_resources_providers = ("pool", "pool") ∷ [];
  worker_executors = [];
}

sync-follows_example :
    (lookup "orders" (sync names answer worker).1.worker_items ≡ some "orders")
    × (lookup "orders" (sync names answer worker).1.worker_resources ≡ none)
    × (lookup "orders" (sync names answer worker).1.worker_resources_providers ≡ none)
    × (lookup "orders" (sync names answer worker).1.worker_executors ≡ none)
sync-follows_example = sync-follows names answer worker "orders" (refl, (refl, tt)) tt (refl, tt) tt

abbrev env : Env
env = record {
  regexp_match = λ text pattern. true;
  order_by_name = λ qs. qs;
  sorted = λ A key xs. xs;
}

abbrev free_queue : String → Queue
free_queue name = record { name = name; assigned_at = none; assigned_to = none; enabled = true }

abbrev job_for : String → Job
job_for name = record {
  name = name;
  cursor = none;
  completed_at = none;
  started_at = 100;
  queue_name = name;
  error = none;
  job_definition_name = none;
}

abbrev database : Database
database = record {
  queues = ("orders", free_queue "orders") ∷ ("users", free_queue "users") ∷ [];
  jobs = ("orders", job_for "orders") ∷ ("users", job_for "users") ∷ [];
}

abbrev definitions : StaticDefinitions
definitions = record {
  jobs =
      ("orders", record { name = "orders"; executor = "threads"; resources = "token" ∷ [] })
      ∷ ("users", record { name = "users"; executor = "threads"; resources = [] })
      ∷ [];
  job_definitions = [];
  executors = ("threads", record { name = "threads" }) ∷ [];
  resources_by_type = ("token", resource_item "token-1" ∷ []) ∷ [];
}

abbrev request : LockInput
request = record { worker_id = "w1"; selector = none; executors = none }

abbrev no_repr : Queue → String
no_repr q = "error"

length-lock_jobs-le_example :
    length (lock_jobs env no_repr definitions request 1 2000 2001 database).0.items ≤ 1
length-lock_jobs-le_example =
    length-lock_jobs-le env no_repr definitions request 1 2000 2001 database refl

lock_jobs-IsRunnable_example :
    All
      (λ item. (is_excluded none item.item.executor ≡ false) × IsRunnable definitions item)
      (lock_jobs env no_repr definitions request 1 2000 2001 database).0.items
lock_jobs-IsRunnable_example =
    lock_jobs-IsRunnable env no_repr definitions request 1 2000 2001 database
