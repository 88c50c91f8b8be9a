-- ===== src/Tests/Jobs.antt =====
-- A worker's writes to two jobs around a flush that fails.
use data_lineup.Base.{ℕ, none, some, List, [], ◌∷◌, string_eq, ◌≡◌, refl}
use data_lineup.JobState.{
  JobsStates, Write, set_job_cursor, set_job_failed, set_job_cursor_state, JobsStatesSyncStore,
  begin_flush, fail_flush,
}
use data_lineup.JobState.Jobs.{IsWellFormed}
use data_lineup.JobState.Merge.{SameJobs}
use data_lineup.JobState.Flush.{write_all, fail_flush-write_all}

abbrev old_jobs : JobsStates ℕ
old_jobs =
    ("import", record { cursor = some "7"; cursors_states = ("7", 70) ∷ []; completion = none })
    ∷ ("export", record { cursor = none; cursors_states = []; completion = none })
    ∷ []

abbrev new_jobs : JobsStates ℕ
new_jobs =
    ("import", record { cursor = some "8"; cursors_states = ("8", 80) ∷ []; completion = none })
    ∷ []

abbrev idle : JobsStatesSyncStore ℕ
idle = record { current_state = old_jobs; flushing_state = none }

abbrev busy : JobsStatesSyncStore ℕ
busy = record { current_state = new_jobs; flushing_state = some old_jobs }

abbrev writes : List (Write ℕ)
writes =
    set_job_cursor "import" "9"
    ∷ set_job_cursor_state "import" "9" 90
    ∷ set_job_failed "export" "boom" 5
    ∷ []

fail_flush-write_all_example :
    SameJobs
      (fail_flush (write_all writes (begin_flush idle))).current_state
      (write_all writes idle).current_state
    × IsWellFormed (fail_flush (write_all writes (begin_flush idle))).current_state
    × ((fail_flush (write_all writes (begin_flush idle))).flushing_state ≡ none)
fail_flush-write_all_example =
    fail_flush-write_all writes idle (refl, (tt, (tt, tt))) (refl, (refl, tt), (refl, tt, tt))
