-- ===== src/Start.antt =====
-- `start` of stores/jobs_store.py and worker_manager/services/sync.py: how jobs come to be. The
-- f-string `{name}-{int(time.time())}`, the schedule of croniter and the clock are arguments. The
-- check of `_SYNC_LOCK` around `_sync_jobs` is not modelled. Where the database refuses a key at a
-- flush, SQLAlchemy's session refuses every later statement, and what was committed last remains.
pub mod Due
pub mod Static
pub mod Synced
use data_lineup.Base.{
  ℕ, String, Bool, true, false, not, ◌&&◌, Option, none, some, List, [], ◌∷◌, string_eq, leb,
  if◌then◌else◌, or_else, is_some,
}
use data_lineup.Dict.{lookup, insert}
use data_lineup.Inventory.{truthy}
use data_lineup.Stores.{Job, Database, create_queue, create_job, get_job, get_last_job, update_job}
use data_lineup.Lock.{QueueItem, StaticDefinitions}

pub record StartJobInput : Type 0 where
  pub name : Option String
  pub job_definition_name : Option String

-- `refused` is the error of the database where a key is taken.
pub data Started : Type 0 where
  started : (name : String) → Database → Started
  job_not_found already_started refused : Started

-- What `start` has found before its checks.
pub record Found : Type 0 where
  pub queue_item : Option QueueItem
  pub job_definition_name : Option String
  pub job : Option Job

abbrev pub find_by_name : StaticDefinitions → StartJobInput → Database → Found
find_by_name defs input db =
    let nothing : Found = record {
      queue_item = none;
      job_definition_name = input.job_definition_name;
      job = none;
    } in
    elim (truthy input.name) [
      | none ↦ nothing
      | some name ↦ elim (lookup name defs.jobs) [
        | some q ↦ record nothing { queue_item = some q }
        | none ↦ elim (get_job name db) [
          | none ↦ nothing
          | some j ↦ record nothing { job_definition_name = j.job_definition_name; job = some j }
        ]
      ]
    ]

abbrev pub find_by_definition : StaticDefinitions → Database → Found → Found
find_by_definition defs db f = elim (truthy f.job_definition_name) [
  | none ↦ f
  | some definition ↦ elim (lookup definition defs.job_definitions) [
    | none ↦ f
    | some template ↦ record f {
      queue_item = some template;
      job = or_else f.job (get_last_job definition db);
    }
  ]
]

abbrev pub is_running : Option Job → Bool
is_running none = false
is_running (some j) = not (is_some j.completed_at)

-- The job that is still running is cancelled.
abbrev pub cancel : ℕ → Option Job → Database → Database
cancel now none db = db
cancel now (some j) db = elim (update_job j.name none (some now) (some "Cancelled") db) [
  | none ↦ db
  | some db' ↦ db'
]

-- A queue and its job, of the same name.
abbrev pub create_both : String → Option String → ℕ → Database → Option Database
create_both name job_definition_name now db = elim (create_queue name db) [
  | none ↦ none
  | some db' ↦ create_job name name job_definition_name now db'
]

module _ (stamp : String → ℕ → String) where
  unfoldable pub start :
      StartJobInput → StaticDefinitions → Database → (restart : Bool) → (now : ℕ) → Started
  unfolding update_job create_queue create_job get_last_job
  start input defs db restart now =
      let f = find_by_definition defs db (find_by_name defs input db) in
      elim f.queue_item [
        | none ↦ job_not_found
        | some q ↦
            if is_running f.job && not restart
            then already_started
            else (let db' = if is_running f.job then cancel now f.job db else db in
                let name = stamp q.name now in
                elim (create_both name f.job_definition_name now db') [
                  | none ↦ refused
                  | some db'' ↦ started name db''
                ])
      ]

-- One round of the first loop; `none` where a key is refused.
unfoldable pub sync_job : String → ℕ → Database → Option Database
unfolding create_queue create_job
sync_job name now db = elim (get_job name db) [
  | some j ↦ some db
  | none ↦ create_both name none now db
]

unfoldable pub sync_static : List String → ℕ → Database → Option Database
unfolding sync_job
sync_static [] now db = some db
sync_static (n ∷ ns) now db = elim (sync_job n now db) [
  | none ↦ none
  | some db' ↦ sync_static ns now db'
]

pub record JobDefinition : Type 0 where
  pub name : String
  pub minimal_interval : String

module _ (stamp : String → ℕ → String) (next_run : (interval : String) → (started_at : ℕ) → ℕ) where
  -- Is a new job of the definition to be created, after this last one?
  abbrev pub is_due : JobDefinition → ℕ → Option Job → Bool
  is_due d now none = true
  is_due d now (some last) =
      is_some last.completed_at
      && (if is_some (truthy last.error)
          then true
          else leb (next_run d.minimal_interval last.started_at) now)

  -- Where the new job resumes: after an error, where the last one was.
  abbrev pub resume_cursor : Option Job → Option String
  resume_cursor none = none
  resume_cursor (some last) = if is_some (truthy last.error) then last.cursor else none

  abbrev set_cursor : String → Option String → Database → Database
  set_cursor name cursor db = elim (lookup name db.jobs) [
    | none ↦ db
    | some j ↦ record db { jobs = insert name (record j { cursor = cursor }) db.jobs }
  ]

  -- The new job of a definition that is due, with the cursor that it resumes at.
  abbrev pub create_due : JobDefinition → ℕ → Option Job → Database → Option Database
  create_due d now last db =
      let name = stamp d.name now in
      elim (create_both name (some d.name) now db) [
        | none ↦ none
        | some db' ↦ some (set_cursor name (resume_cursor last) db')
      ]

  -- The second loop, which commits after each job that it creates. The last two arguments are what
  -- is committed and what the session sees; at the end the session is committed.
  unfoldable pub sync_definitions :
      List JobDefinition → ℕ → (committed session : Database) → Database
  unfolding create_queue create_job get_last_job
  sync_definitions [] now committed db = db
  sync_definitions (d ∷ ds) now committed db =
      let last = get_last_job d.name db in
      elim (is_due d now last) [
        | false ↦ sync_definitions ds now committed db
        | true ↦ elim (create_due d now last db) [
          | none ↦ committed
          | some db' ↦ sync_definitions ds now db' db'
        ]
      ]

  unfoldable pub sync_jobs : List String → List JobDefinition → ℕ → Database → Database
  unfolding sync_static sync_definitions
  sync_jobs names definitions now db = elim (sync_static names now db) [
    | none ↦ db
    | some db' ↦ sync_definitions definitions now db db'
  ]
