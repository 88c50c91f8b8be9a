-- ===== src/StatesSync.antt =====
-- `sync_jobs_states` and `fetch_cursors_states` of stores/jobs_store.py: the states that workers
-- flush, written into the tables and read back. The table of cursor states is a dictionary from
-- job definitions to dictionaries from cursors, of states in `S`. An upsert of several values runs
-- as SQLite does it, where the last value of a key stays.
pub mod Cursors
pub mod Rows
use data_lineup.Base.{
  String, Bool, true, false, ◌||◌, Option, none, some, List, [], ◌∷◌, string_eq, if◌then◌else◌,
  or_else, is_some,
}
use data_lineup.Dict.{Dict, lookup, insert}
use data_lineup.Inventory.{truthy}
use data_lineup.JobState.{JobCompletion, JobState, JobsStates}
use data_lineup.Stores.{Job, Queue, Database}

abbrev pub CursorStates : Type 0 → Type 0
CursorStates S = Dict String (Dict String S)

-- `job_definition_by_name.get(job_id) or job_id`
abbrev pub namespace_of : Database → String → String
namespace_of db job_id = elim (lookup job_id db.jobs) [
  | none ↦ job_id
  | some j ↦ elim (truthy j.job_definition_name) [ none ↦ job_id | some definition ↦ definition ]
]

module _ {S : Type 0} where
  abbrev pub states_of : String → CursorStates S → Dict String S
  states_of namespace table = elim (lookup namespace table) [ none ↦ [] | some states ↦ states ]

  -- `INSERT … ON CONFLICT DO UPDATE` of the states of one job.
  abbrev pub upsert : String → Dict String S → CursorStates S → CursorStates S
  upsert namespace [] table = table
  upsert namespace ((cursor, state) ∷ states) table =
      upsert namespace states
        (insert namespace (insert cursor state (states_of namespace table)) table)

  abbrev pub upsert_all : Database → JobsStates S → CursorStates S → CursorStates S
  upsert_all db [] table = table
  upsert_all db ((job_id, state) ∷ jobs) table =
      upsert_all db jobs (upsert (namespace_of db job_id) state.cursors_states table)

  -- Is there anything to write into the row of the job?
  abbrev pub has_values : JobState S → Bool
  has_values state = is_some (truthy state.cursor) || is_some state.completion

  abbrev pub synced_job : JobState S → Job → Job
  synced_job state j =
      let j' = record j { cursor = or_else (truthy state.cursor) j.cursor } in
      elim state.completion [
        | none ↦ j'
        | some done ↦ record j' {
          completed_at = some done.completed_at;
          error = or_else done.error j.error;
        }
      ]

  -- `bulk_update_mappings` by primary key; `none` where a row is missing.
  abbrev pub update_jobs : JobsStates S → Dict String Job → Option (Dict String Job)
  update_jobs [] rows = some rows
  update_jobs ((job_id, state) ∷ jobs) rows =
      if has_values state
      then (elim (lookup job_id rows) [
        | none ↦ none
        | some j ↦ update_jobs jobs (insert job_id (synced_job state j) rows)
      ])
      else update_jobs jobs rows

  -- The queue of a job that has completed goes by the name of the job.
  abbrev pub disable_queues : JobsStates S → Dict String Queue → Option (Dict String Queue)
  disable_queues [] rows = some rows
  disable_queues ((job_id, state) ∷ jobs) rows =
      if is_some state.completion
      then (elim (lookup job_id rows) [
        | none ↦ none
        | some q ↦ disable_queues jobs (insert job_id (record q { enabled = false }) rows)
      ])
      else disable_queues jobs rows

  unfoldable pub sync_jobs_states :
      JobsStates S → Database → CursorStates S → Option (Database × CursorStates S)
  sync_jobs_states jobs db table =
      let table' = upsert_all db jobs table in
      elim (update_jobs jobs db.jobs) [
        | none ↦ none
        | some rows ↦ elim (disable_queues jobs db.queues) [
          | none ↦ none
          | some queues ↦ some (record { queues = queues; jobs = rows }, table')
        ]
      ]

  -- Every cursor asked for, with its row's state, or `None`.
  abbrev pub fetch_cursors : List String → Dict String S → Dict String (Option S)
  fetch_cursors [] states = []
  fetch_cursors (c ∷ cs) states = insert c (lookup c states) (fetch_cursors cs states)

  unfoldable pub fetch_cursors_states :
      Dict String (List String) → Database → CursorStates S → Dict String (Dict String (Option S))
  fetch_cursors_states [] db table = []
  fetch_cursors_states ((job, cursors) ∷ query) db table =
      (job, fetch_cursors cursors (states_of (namespace_of db job) table))
      ∷ fetch_cursors_states query db table
