-- ===== src/StatesSync/Rows.antt =====
-- The rows of jobs and queues after a sync.
use data_lineup.Base.{
  String, false, Option, none, some, [], ◌∷◌, string_eq, ==_iff, if◌then◌else◌, ◌≡◌, arith,
  Option-cases, Bool-cases, inl, inr, is_some,
}
use data_lineup.Dict.{Dict, lookup, insert, Distinct, lookup-insert, has_key-lookup}
use data_lineup.JobState.{JobState, JobsStates}
use data_lineup.Stores.{Job, Queue, Database}
use data_lineup.StatesSync.{
  CursorStates, has_values, synced_job, update_jobs, disable_queues, sync_jobs_states,
}

module _ {S : Type 0} where
  -- The row of a job after the batch.
  abbrev pub row_after : Option (JobState S) → Option Job → Option Job
  row_after none o = o
  row_after (some state) none = none
  row_after (some state) (some j) = some (synced_job state j)

  abbrev pub queue_after : Option (JobState S) → Option Queue → Option Queue
  queue_after none o = o
  queue_after (some state) none = none
  queue_after (some state) (some q) =
      some (if is_some state.completion then record q { enabled = false } else q)

  lookup-update_jobs :
      (k : String) (jobs : JobsStates S) (rows rows' : Dict String Job)
      → Distinct jobs
      → update_jobs jobs rows ≡ some rows'
      → lookup k rows' ≡ row_after (lookup k jobs) (lookup k rows)
  lookup-update_jobs k [] rows rows' d e = ground arith
  lookup-update_jobs k ((i, state) ∷ jobs) rows rows' d e = elim (Bool-cases (has_values state)) [
    | inr idle ↦ ground (
      arith,
      idle,
      lookup-update_jobs k jobs rows rows' d.1,
      ==_iff i k,
      has_key-lookup k jobs,
      Option-cases (lookup k rows),
    )
    | inl busy ↦ elim (Option-cases (lookup i rows)) [
      | inl absent ↦ absurd (ground (arith, busy, absent))
      | inr (j, found) ↦
          let next = insert i (synced_job state j) rows in
          ground (
            arith,
            busy,
            found,
            lookup-update_jobs k jobs next rows' d.1 (ground (arith, busy, found)),
            lookup-insert i k (synced_job state j) rows,
            ==_iff i k,
            has_key-lookup k jobs,
          )
    ]
  ]

  lookup-disable_queues :
      (k : String) (jobs : JobsStates S) (rows rows' : Dict String Queue)
      → Distinct jobs
      → disable_queues jobs rows ≡ some rows'
      → lookup k rows' ≡ queue_after (lookup k jobs) (lookup k rows)
  lookup-disable_queues k [] rows rows' d e = ground arith
  lookup-disable_queues k ((i, state) ∷ jobs) rows rows' d e =
      elim (Bool-cases (is_some state.completion)) [
        | inr idle ↦ ground (
          arith,
          idle,
          lookup-disable_queues k jobs rows rows' d.1,
          ==_iff i k,
          has_key-lookup k jobs,
          Option-cases (lookup k rows),
        )
        | inl busy ↦ elim (Option-cases (lookup i rows)) [
          | inl absent ↦ absurd (ground (arith, busy, absent))
          | inr (q, found) ↦
              let next = insert i (record q { enabled = false }) rows in
              ground (
                arith,
                busy,
                found,
                lookup-disable_queues k jobs next rows' d.1 (ground (arith, busy, found)),
                lookup-insert i k (record q { enabled = false }) rows,
                ==_iff i k,
                has_key-lookup k jobs,
              )
        ]
      ]

  -- After a sync the row of every job in the batch has the cursor of the batch, unless that is
  -- empty, and its completion, unless there is none, with the error if it has one; its queue is
  -- disabled if the job has completed; and all other rows are as they were. Given that the sync
  -- returns and that no job stands twice in the batch.
  pub lookup-sync_jobs_states :
      (k : String) (jobs : JobsStates S) (db db' : Database) (table table' : CursorStates S)
      → Distinct jobs
      → sync_jobs_states jobs db table ≡ some (db', table')
      → (lookup k db'.jobs ≡ row_after (lookup k jobs) (lookup k db.jobs))
        × (lookup k db'.queues ≡ queue_after (lookup k jobs) (lookup k db.queues))
  unfolding sync_jobs_states
  lookup-sync_jobs_states k jobs db db' table table' d e =
      elim (Option-cases (update_jobs jobs db.jobs)) [
        | inl f ↦ absurd (ground (arith, f))
        | inr (rows, f) ↦ elim (Option-cases (disable_queues jobs db.queues)) [
          | inl g ↦ absurd (ground (arith, f, g))
          | inr (queues, g) ↦ (
            ground (arith, f, g, lookup-update_jobs k jobs db.jobs rows d f),
            ground (arith, f, g, lookup-disable_queues k jobs db.queues queues d g),
          )
        ]
      ]
