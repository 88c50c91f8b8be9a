-- ===== src/Stores.antt =====
-- models/queue.py, models/job.py, stores/queues_store.py and stores/jobs_store.py: the two tables as
-- dictionaries from primary keys, and the statements that the stores run on them. A time is a
-- number of seconds. A pattern match, the database's `ORDER BY name` and Python's `sorted` are
-- operations of `Env`.
use data_lineup.Base.{
  ℕ, String, Bool, true, false, ◌&&◌, Option, none, some, List, [], ◌∷◌, ◌==◌, string_eq, eqb, leb,
  ltb, keep, take, if◌then◌else◌, or_else,
}
use data_lineup.Dict.{Dict, lookup, has_key, insert, values}
use data_lineup.Inventory.{truthy}

pub record Queue : Type 0 where
  pub name : String
  pub assigned_at : Option ℕ
  pub assigned_to : Option String
  pub enabled : Bool

pub record Job : Type 0 where
  pub name : String
  pub cursor : Option String
  pub completed_at : Option ℕ
  pub started_at : ℕ
  pub queue_name : String
  pub error : Option String
  pub job_definition_name : Option String

pub record Database : Type 0 where
  pub queues : Dict String Queue
  pub jobs : Dict String Job

pub record Env : Type 1 where
  pub regexp_match : (text pattern : String) → Bool
  pub order_by_name : List Queue → List Queue
  pub sorted : (A : Type 0) → (A → String) → List A → List A

abbrev pub is_value : Option String → String → Bool
is_value none w = false
is_value (some v) w = v == w

-- `Queue.assigned_at >= cutoff`; a comparison with NULL does not hold.
abbrev pub is_since : Option ℕ → ℕ → Bool
is_since none cutoff = false
is_since (some t) cutoff = leb cutoff t

-- `or_(Queue.assigned_at.is_(None), Queue.assigned_at < cutoff)`
abbrev pub is_free : Option ℕ → ℕ → Bool
is_free none cutoff = true
is_free (some t) cutoff = ltb t cutoff

module _ (env : Env) where
  abbrev pub is_selected : Option String → Queue → Bool
  is_selected selector q = elim (truthy selector) [
    | none ↦ true
    | some pattern ↦ env.regexp_match q.name pattern
  ]

  unfoldable pub get_assigned_queues : Database → String → ℕ → Option String → List Queue
  get_assigned_queues db worker_id assigned_after selector = env.order_by_name (
      keep
        (λ q.
          q.enabled
          && (is_value q.assigned_to worker_id
              && (is_since q.assigned_at assigned_after && is_selected selector q)))
        (values db.queues))

  unfoldable pub get_unassigned_queues : Database → ℕ → Option String → Option ℕ → List Queue
  get_unassigned_queues db assigned_before selector limit =
      let found =
        keep (λ q. q.enabled && (is_free q.assigned_at assigned_before && is_selected selector q))
          (values db.queues) in
      elim limit [ none ↦ found | some n ↦ if eqb n 0 then found else take n found ]

-- A row whose key is taken is refused by the database (`none`), when the session is flushed.
unfoldable pub create_queue : String → Database → Option Database
create_queue name db =
    let queue : Queue = record {
      name = name;
      assigned_at = none;
      assigned_to = none;
      enabled = true;
    } in
    if has_key name db.queues
    then none
    else some (record db { queues = insert name queue db.queues })

unfoldable pub disable_queue : String → Database → Database
disable_queue name db = elim (lookup name db.queues) [
  | none ↦ db
  | some q ↦ record db { queues = insert name (record q { enabled = false }) db.queues }
]

unfoldable pub create_job :
    (name queue_name : String) → Option String → ℕ → Database → Option Database
create_job name queue_name job_definition_name now db =
    let job : Job = record {
      name = name;
      cursor = none;
      completed_at = none;
      started_at = now;
      queue_name = queue_name;
      error = none;
      job_definition_name = job_definition_name;
    } in
    if has_key name db.jobs then none else some (record db { jobs = insert name job db.jobs })

abbrev pub get_job : String → Database → Option Job
get_job name db = lookup name db.jobs

-- The job with the latest start among those of a definition; the first of several.
abbrev pub latest : Option Job → List Job → Option Job
latest best [] = best
latest none (j ∷ js) = latest (some j) js
latest (some b) (j ∷ js) = latest (some (if ltb b.started_at j.started_at then j else b)) js

unfoldable pub get_last_job : String → Database → Option Job
get_last_job job_definition_name db =
    latest none (keep (λ j. is_value j.job_definition_name job_definition_name) (values db.jobs))

-- The values of an `UPDATE`: an argument that is falsy leaves its column.
abbrev pub updated_job : Option String → Option ℕ → Option String → Job → Job
updated_job cursor completed_at error j = record j {
  cursor = or_else (truthy cursor) j.cursor;
  completed_at = or_else completed_at j.completed_at;
  error = or_else (truthy error) j.error;
}

-- `none` is the raised "Updating unknown job".
unfoldable pub update_job :
    String
    → (cursor : Option String) → (completed_at : Option ℕ) → (error : Option String) → Database
    → Option Database
unfolding disable_queue
update_job name cursor completed_at error db =
    let write = λ (d : Database) (j : Job). record d {
      jobs = insert name (updated_job cursor completed_at error j) d.jobs;
    } in
    elim completed_at [
      | none ↦ elim (get_job name db) [ none ↦ some db | some j ↦ some (write db j) ]
      | some _ ↦ elim (get_job name db) [
        | none ↦ none
        | some j ↦ some (write (disable_queue j.queue_name db) j)
      ]
    ]

unfoldable pub set_failed : (name error : String) → (now : ℕ) → Database → Option Database
unfolding update_job
set_failed name error now db = update_job name none (some now) (some error) db
