-- ===== src/Tests/Starting.antt =====
-- One static job and one job definition, of which an earlier job failed.
use Prim.Native.String
use data_lineup.Base.{
  ℕ, String, ◌+◌, true, false, Option, none, some, [], ◌∷◌, string_eq, ◌==◌, ◌≡◌, refl,
  if◌then◌else◌,
}
use data_lineup.Dict.{lookup}
use data_lineup.Stores.{Queue, Job, Database}
use data_lineup.Lock.{QueueItem, StaticDefinitions, join_definitions}
use data_lineup.Start.{start, started, JobDefinition, sync_static, sync_definitions}
use data_lineup.Start.Due.{IsLast, Decision}
use data_lineup.Start.Static.{fresh_job, start-static_job}
use data_lineup.Start.Synced.{lookup-sync_definitions}

abbrev orders : QueueItem
orders = record { name = "orders"; executor = "threads"; resources = [] }

abbrev definitions : StaticDefinitions
definitions = record {
  jobs = ("orders", orders) ∷ [];
  job_definitions = [];
  executors = [];
  resources_by_type = [];
}

-- The clock stands still.
abbrev stamp : String → ℕ → String
stamp name now = String.◌++◌ name "-1700"

abbrev next_run : String → ℕ → ℕ
next_run interval started_at = started_at + 60

abbrev failed_job : Job
failed_job = record {
  name = "users-1600";
  cursor = some "42";
  completed_at = some 1650;
  started_at = 1600;
  queue_name = "users-1600";
  error = some "boom";
  job_definition_name = some "users";
}

abbrev database : Database
database = record {
  queues =
      (
        "users-1600",
        record { name = "users-1600"; assigned_at = none; assigned_to = none; enabled = false },
      )
      ∷ [];
  jobs = ("users-1600", failed_job) ∷ [];
}

abbrev users : JobDefinition
users = record { name = "users"; minimal_interval = "@hourly" }

start-static_job_example :
    (db' : Database) × (queue : Queue) × (start stamp
        (record { name = some "orders"; job_definition_name = none })
        definitions
        database
        false
        1700
      ≡ started "orders-1700" db')
    × (lookup "orders-1700" db'.queues ≡ some queue)
    × (lookup "orders-1700" db'.jobs ≡ some (fresh_job "orders-1700" none 1700))
    × (join_definitions definitions db' queue ≡ none)
start-static_job_example =
    start-static_job stamp definitions database 1700 false "orders" orders refl refl refl refl refl
      refl

abbrev with_orders : Database
with_orders = record {
  queues =
      (
        "users-1600",
        record { name = "users-1600"; assigned_at = none; assigned_to = none; enabled = false },
      )
      ∷ (
        "orders",
        record { name = "orders"; assigned_at = none; assigned_to = none; enabled = true },
      )
      ∷ [];
  jobs = ("users-1600", failed_job) ∷ ("orders", fresh_job "orders" none 1700) ∷ [];
}

orders_created : sync_static ("orders" ∷ []) 1700 database ≡ some with_orders
unfolding sync_static
orders_created = refl

lookup-sync_definitions_example :
    (last : Option Job) × (decision : Option (Option String)) × IsLast "users"
      (failed_job ∷ [])
      last
    × Decision next_run users 1700 last decision
    × ((k : String)
        → lookup k (sync_definitions stamp next_run (users ∷ []) 1700 database database).jobs
          ≡ elim decision as (λ _. Option Job) [
            | none ↦ lookup k database.jobs
            | some cursor ↦
                if "users-1700" == k
                then some (record (fresh_job "users-1700" (some "users") 1700) { cursor = cursor })
                else lookup k database.jobs
          ])
lookup-sync_definitions_example = lookup-sync_definitions stamp next_run 1700 users database
