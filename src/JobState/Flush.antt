-- ===== src/JobState/Flush.antt =====
-- A flush that fails: nothing written before it or during it is lost.
use data_lineup.Base.{none, List, [], ◌∷◌, string_eq, ◌≡◌, refl, All}
use data_lineup.Dict.{lookup}
use data_lineup.JobState.{
  JobsStates, merge, Write, write_jobs, JobsStatesSyncStore, write, begin_flush, fail_flush,
}
use data_lineup.JobState.Jobs.{IsWellFormed, write_jobs-IsWellFormed, merge-IsWellFormed}
use data_lineup.JobState.Merge.{
  SameJobs, Same-refl, Same-trans, HasText, merge-write_jobs, write_jobs-SameJobs,
}

module _ {S : Type 0} where
  -- Calls of the store, in order.
  unfoldable pub write_all : List (Write S) → JobsStatesSyncStore S → JobsStatesSyncStore S
  write_all [] s = s
  write_all (w ∷ ws) s = write_all ws (write w s)

  pub write_all_jobs : List (Write S) → JobsStates S → JobsStates S
  write_all_jobs [] jobs = jobs
  write_all_jobs (w ∷ ws) jobs = write_all_jobs ws (write_jobs w jobs)

  pub write_all_lem :
      (ws : List (Write S)) (s : JobsStatesSyncStore S)
      → write_all ws s ≡ record s { current_state = write_all_jobs ws s.current_state }
  unfolding write_all write_all_jobs write
  write_all_lem [] s = refl
  write_all_lem (w ∷ ws) s = write_all_lem ws (write w s)

  pub write_all_jobs-IsWellFormed :
      (ws : List (Write S)) (jobs : JobsStates S)
      → IsWellFormed jobs
      → IsWellFormed (write_all_jobs ws jobs)
  unfolding write_all_jobs
  write_all_jobs-IsWellFormed [] jobs h = h
  write_all_jobs-IsWellFormed (w ∷ ws) jobs h =
      write_all_jobs-IsWellFormed ws (write_jobs w jobs) (write_jobs-IsWellFormed w jobs h)

  write_all_jobs-SameJobs :
      (ws : List (Write S)) (a b : JobsStates S)
      → SameJobs a b
      → SameJobs (write_all_jobs ws a) (write_all_jobs ws b)
  unfolding write_all_jobs
  write_all_jobs-SameJobs [] a b h = h
  write_all_jobs-SameJobs (w ∷ ws) a b h =
      write_all_jobs-SameJobs ws (write_jobs w a) (write_jobs w b) (write_jobs-SameJobs w a b h)

  pub merge-write_all_jobs :
      (ws : List (Write S)) (self new : JobsStates S)
      → All HasText ws
      → IsWellFormed new
      → SameJobs (merge self (write_all_jobs ws new)) (write_all_jobs ws (merge self new))
  unfolding write_all_jobs
  merge-write_all_jobs [] self new h f j = Same-refl (lookup j (merge self new))
  merge-write_all_jobs (w ∷ ws) self new h f j =
      Same-trans (lookup j (merge self (write_all_jobs ws (write_jobs w new))))
        (lookup j (write_all_jobs ws (merge self (write_jobs w new))))
        (lookup j (write_all_jobs ws (write_jobs w (merge self new))))
        (merge-write_all_jobs ws self (write_jobs w new) h.1 (write_jobs-IsWellFormed w new f) j)
        (write_all_jobs-SameJobs ws (merge self (write_jobs w new)) (write_jobs w (merge self new))
          (merge-write_jobs w self new h.0 f) j)

  -- Writes made while a flush runs that then fails: the store reads, for every job, its cursor,
  -- its completion and its state for each cursor, exactly as if the same writes had been made
  -- with no flush, and the state is well formed and no longer flushing. Given that the state was
  -- well formed and no write sets an empty cursor.
  pub fail_flush-write_all :
      (ws : List (Write S)) (s : JobsStatesSyncStore S)
      → All HasText ws
      → IsWellFormed s.current_state
      → SameJobs
          (fail_flush (write_all ws (begin_flush s))).current_state
          (write_all ws s).current_state
        × IsWellFormed (fail_flush (write_all ws (begin_flush s))).current_state
        × ((fail_flush (write_all ws (begin_flush s))).flushing_state ≡ none)
  unfolding begin_flush fail_flush
  fail_flush-write_all ws s h f =
      rw (write_all_lem ws (begin_flush s), write_all_lem ws s)
        (
          merge-write_all_jobs ws s.current_state [] h tt,
          merge-IsWellFormed s.current_state (write_all_jobs ws []) f
              (write_all_jobs-IsWellFormed ws [] tt),
          refl,
        )
