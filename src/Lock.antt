-- ===== src/Lock.antt =====
-- worker_manager/services/lock.py: `lock_jobs` assigns queues to a worker; with it
-- `Queue.join_definitions` of models/queue.py and the part of `StaticDefinitions` that it reads.
-- The two calls of `datetime.now()` are arguments, and `now` is at least the 15 minutes that are
-- taken off. A queue of the session is a row value; the rows of the database are written by name.
pub mod Bound
use data_lineup.Base.{
  ℕ, ◌-◌, String, Bool, true, false, ◌&&◌, not, Option, none, some, List, [], ◌∷◌, ◌++◌, map, ◌==◌,
  string_eq, ltb, length, take, drop, if◌then◌else◌,
}
use data_lineup.Dict.{Dict, lookup, has_key, insert, update, values, elem}
use data_lineup.Inventory.{truthy}
use data_lineup.Stores.{
  Queue, Job, Database, Env, get_assigned_queues, get_unassigned_queues, set_failed,
}

-- Of an executor only its name is read.
pub record ComponentDefinition : Type 0 where
  pub name : String

-- An entry of `resources_by_type`: a `ResourceItem` or a `ResourcesProviderItem`, by name.
pub data ResourceEntry : Type 0 where
  resource_item : String → ResourceEntry
  provider_item : String → ResourceEntry

-- `resources` holds the values of `pipeline.info.resources`.
pub record QueueItem : Type 0 where
  pub name : String
  pub executor : String
  pub resources : List String

pub record QueueItemState : Type 0 where
  pub cursor : Option String
  pub started_at : ℕ

pub record QueueItemWithState : Type 0 where
  pub item : QueueItem
  pub state : QueueItemState

pub record StaticDefinitions : Type 0 where
  pub jobs : Dict String QueueItem
  pub job_definitions : Dict String QueueItem  -- the `template` of each
  pub executors : Dict String ComponentDefinition
  pub resources_by_type : Dict String (List ResourceEntry)

pub record LockInput : Type 0 where
  pub worker_id : String
  pub selector : Option String
  pub executors : Option (List String)

pub record LockResponse : Type 0 where
  pub items : List QueueItemWithState
  pub resources : List String
  pub resources_providers : List String
  pub executors : List ComponentDefinition

-- `Queue.job`: the job whose foreign key is the queue.
abbrev pub job_of : String → List Job → Option Job
job_of queue_name [] = none
job_of queue_name (j ∷ js) = if j.queue_name == queue_name then some j else job_of queue_name js

-- `none` where `join_definitions` raises: no job, or a name without a definition.
unfoldable pub join_definitions : StaticDefinitions → Database → Queue → Option QueueItemWithState
join_definitions defs db q = elim (job_of q.name (values db.jobs)) [
  | none ↦ none
  | some job ↦
      let state : QueueItemState = record {
        cursor = truthy job.cursor;
        started_at = job.started_at;
      } in
      elim (elim job.job_definition_name as (λ _. Option QueueItem) [
        | none ↦ lookup job.name defs.jobs
        | some definition ↦ lookup definition defs.job_definitions
      ]) [
        | none ↦ none
        | some template ↦ some (record { item = record template { name = q.name }; state = state })
      ]
]

-- A write to a row through its object, at the next flush.
abbrev pub write_queue : (Queue → Queue) → String → Database → Database
write_queue f name db = elim (lookup name db.queues) [
  | none ↦ db
  | some q ↦ record db { queues = insert name (f q) db.queues }
]

abbrev pub unassign_queue : Queue → Queue
unassign_queue q = record q { assigned_at = none; assigned_to = none }

abbrev pub assign_queue : String → ℕ → Queue → Queue
assign_queue worker_id now q = record q { assigned_at = some now; assigned_to = some worker_id }

abbrev pub write_all : (Queue → Queue) → List Queue → Database → Database
write_all f [] db = db
write_all f (q ∷ qs) db = write_all f qs (write_queue f q.name db)

-- `lock_input.executors` is given and not empty, and lacks the executor.
abbrev pub is_excluded : Option (List String) → String → Bool
is_excluded none executor = false
is_excluded (some []) executor = false
is_excluded (some (e ∷ es)) executor = not (elem executor (e ∷ es))

abbrev pub has_executors : Option (List String) → Bool
has_executors (some (_ ∷ _)) = true
has_executors _ = false

abbrev pub Joined : Type 0
Joined = Queue × QueueItemWithState

-- `repr` of what `join_definitions` raised for a queue is an argument. A failure of `set_failed`,
-- which would end the call, is passed over: the job was just read.
abbrev pub fail_job : (repr : Queue → String) → ℕ → Queue → Database → Database
fail_job repr now q db = elim (job_of q.name (values db.jobs)) [
  | none ↦ db
  | some job ↦ elim (set_failed job.name (repr q) now db) [ none ↦ db | some db' ↦ db' ]
]

-- The loop that joins the definitions and filters by executor.
unfoldable pub join_all :
    StaticDefinitions
    → (repr : Queue → String) → ℕ
    → Option (List String)
    → List Queue
    → Database
    → List Joined × Database
unfolding join_definitions
join_all defs repr now executors [] db = ([], db)
join_all defs repr now executors (q ∷ qs) db = elim (join_definitions defs db q) [
  | none ↦ join_all defs repr now executors qs (fail_job repr now q db)
  | some item ↦
      let (rest, db') = join_all defs repr now executors qs db in
      ((if is_excluded executors item.item.executor then rest else (q, item) ∷ rest), db')
]

pub record Collected : Type 0 where
  pub kept : List Joined
  pub resources : Dict String String
  pub resources_providers : Dict String String
  pub executors : Dict String ComponentDefinition

-- The resources and the providers of one type, added to those of the item; `none` where the type
-- has no entry.
abbrev pub collect_entries :
    List ResourceEntry
    → Dict String String × Dict String String
    → Dict String String × Dict String String
collect_entries [] found = found
collect_entries (resource_item n ∷ es) (rs, ps) = collect_entries es (insert n n rs, ps)
collect_entries (provider_item n ∷ es) (rs, ps) = collect_entries es (rs, insert n n ps)

unfoldable pub collect_types :
    StaticDefinitions
    → List String
    → Dict String String × Dict String String
    → Option (Dict String String × Dict String String)
collect_types defs [] found = some found
collect_types defs (t ∷ ts) found = elim (lookup t defs.resources_by_type) [
  | none ↦ none
  | some [] ↦ none
  | some (e ∷ es) ↦ collect_types defs ts (collect_entries (e ∷ es) found)
]

-- The body of the loop that drops items with a missing resource or executor. An item without an
-- executor leaves its resources in the response.
unfoldable pub collect_one : StaticDefinitions → Joined → Collected → Collected
unfolding collect_types
collect_one defs (q, item) c = elim (collect_types defs item.item.resources ([], [])) [
  | none ↦ c
  | some (rs, ps) ↦
      let c' = record c {
        resources = update c.resources rs;
        resources_providers = update c.resources_providers ps;
      } in
      elim (lookup item.item.executor defs.executors) [
        | none ↦ c'
        | some e ↦ record c' {
          kept = c'.kept ++ (q, item) ∷ [];
          executors =
              if has_key e.name c'.executors then c'.executors else insert e.name e c'.executors;
        }
      ]
]

unfoldable pub collect : StaticDefinitions → List Joined → Collected → Collected
unfolding collect_one
collect defs [] c = c
collect defs (j ∷ js) c = collect defs js (collect_one defs j c)

module _ (env : Env) (repr : Queue → String) (defs : StaticDefinitions) where
  abbrev pub cutoff : ℕ → ℕ
  cutoff now = now - 900

  -- The queues to try, and the database after the extra ones are unassigned.
  unfoldable pub candidates : LockInput → ℕ → ℕ → Database → List Queue × Database
  unfolding get_assigned_queues get_unassigned_queues
  candidates input max_assigned_items now db =
      let already = get_assigned_queues env db input.worker_id (cutoff now) input.selector in
      let db' = write_all unassign_queue (drop max_assigned_items already) db in
      let assigned = take max_assigned_items already in
      let limit : Option ℕ =
        if has_executors input.executors
        then none
        else some (max_assigned_items - length assigned) in
      let more = get_unassigned_queues env db' (cutoff now) input.selector limit in
      ((if ltb (length assigned) max_assigned_items then assigned ++ more else assigned), db')

  unfoldable pub lock_jobs :
      LockInput → (max_assigned_items now new_assigned_at : ℕ) → Database → LockResponse × Database
  unfolding candidates join_all collect
  lock_jobs input max_assigned_items now new_assigned_at db =
      let (queues, db₁) = candidates input max_assigned_items now db in
      let (joined, db₂) = join_all defs repr now input.executors queues db₁ in
      let c =
        collect defs joined
          (record { kept = []; resources = []; resources_providers = []; executors = [] }) in
      (
        record {
          items = map (λ j. j.1) c.kept;
          resources = env.sorted String (λ n. n) (values c.resources);
          resources_providers = env.sorted String (λ n. n) (values c.resources_providers);
          executors = env.sorted ComponentDefinition (λ e. e.name) (values c.executors);
        },
        write_all (assign_queue input.worker_id new_assigned_at) (map (λ j. j.0) c.kept) db₂,
      )
