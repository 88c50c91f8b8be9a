-- ===== src/Tests/Syncing.antt =====
-- A batch for two jobs of one definition, of which one has completed.
use data_lineup.Base.{ℕ, String, true, false, none, some, [], ◌∷◌, string_eq, ◌≡◌, refl}
use data_lineup.JobState.{JobsStates}
use data_lineup.Stores.{Job, Queue, Database}
use data_lineup.StatesSync.{CursorStates, sync_jobs_states}

abbrev job_for : String → Job
job_for name = record {
  name = name;
  cursor = some "1";
  completed_at = none;
  started_at = 100;
  queue_name = name;
  error = none;
  job_definition_name = some "users";
}

abbrev queue_for : String → Queue
queue_for name = record { name = name; assigned_at = none; assigned_to = none; enabled = true }

abbrev database : Database
database = record {
  queues = ("users-1", queue_for "users-1") ∷ ("users-2", queue_for "users-2") ∷ [];
  jobs = ("users-1", job_for "users-1") ∷ ("users-2", job_for "users-2") ∷ [];
}

abbrev batch : JobsStates ℕ
batch =
    (
      "users-1",
      record {
        cursor = some "7";
        cursors_states = ("a", 10) ∷ ("b", 20) ∷ [];
        completion = some (record { completed_at = 200; error = some "boom" });
      },
    )
    ∷ ("users-2", record { cursor = none; cursors_states = ("a", 11) ∷ []; completion = none })
    ∷ []

abbrev table : CursorStates ℕ
table = ("users", ("c", 30) ∷ []) ∷ []

abbrev synced : Database
synced = record {
  queues =
      ("users-1", record (queue_for "users-1") { enabled = false })
      ∷ ("users-2", queue_for "users-2")
      ∷ [];
  jobs =
      (
        "users-1",
        record (job_for "users-1") {
          cursor = some "7";
          completed_at = some 200;
          error = some "boom";
        },
      )
      ∷ ("users-2", job_for "users-2")
      ∷ [];
}

abbrev synced_table : CursorStates ℕ
synced_table = ("users", ("c", 30) ∷ ("a", 11) ∷ ("b", 20) ∷ []) ∷ []

ran_batch : sync_jobs_states batch database table ≡ some (synced, synced_table)
unfolding sync_jobs_states
ran_batch = refl
