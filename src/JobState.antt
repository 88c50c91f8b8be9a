-- ===== src/JobState.antt =====
-- worker/services/job_state/store.py: the job states that a worker collects between two flushes.
-- A flush is a context manager: `begin_flush` runs before its `yield`, `fail_flush` is its `except`
-- block; when the body succeeds nothing runs. A time is a number, and `S` is the type of the
-- dictionaries that pipelines store for a cursor.
pub mod Jobs
pub mod Merge
pub mod Flush
pub mod Reads
use data_lineup.Base.{
  ℕ, String, Bool, true, false, not, Option, none, some, List, [], ◌∷◌, ◌==◌, string_eq,
  if◌then◌else◌, or_else, keep,
}
use data_lineup.Dict.{Dict, lookup, has_key, insert, update, keys, elem, union}
use data_lineup.Inventory.{truthy}

pub record JobCompletion : Type 0 where
  pub completed_at : ℕ
  pub error : Option String

pub record JobState (S : Type 0) : Type 0 where
  pub cursor : Option String
  pub cursors_states : Dict String S
  pub completion : Option JobCompletion

abbrev pub JobsStates : Type 0 → Type 0
JobsStates S = Dict String (JobState S)

unfoldable pub merge_completion : JobCompletion → JobCompletion → JobCompletion
merge_completion self new = record self { completed_at = new.completed_at; error = new.error }

module _ {S : Type 0} where
  abbrev pub default : JobState S
  default = record { cursor = none; cursors_states = []; completion = none }

  unfoldable pub merge_state : JobState S → JobState S → JobState S
  unfolding merge_completion
  merge_state self new = record {
    cursor = or_else (truthy new.cursor) self.cursor;
    cursors_states = update self.cursors_states new.cursors_states;
    completion = elim new.completion [
      | none ↦ self.completion
      | some n ↦ elim self.completion [ none ↦ some n | some o ↦ some (merge_completion o n) ]
    ];
  }

  -- The loop of `JobsStates.merge` over `new.jobs.items()`.
  unfoldable pub merge : JobsStates S → JobsStates S → JobsStates S
  merge self [] = self
  merge self ((job, state) ∷ new) =
      merge
        (insert job (elim (lookup job self) [ none ↦ state | some old ↦ merge_state old state ])
          self)
        new

  abbrev pub is_jobs_empty : JobsStates S → Bool
  is_jobs_empty [] = true
  is_jobs_empty (_ ∷ _) = false

  -- `{c: states[c] for c in states.keys() & cursors}`
  unfoldable pub get_cursors_states : JobsStates S → String → List String → Dict String S
  get_cursors_states jobs job_name cursors = elim (lookup job_name jobs) [
    | none ↦ []
    | some state ↦ keep (λ p. elem p.0 cursors) state.cursors_states
  ]

  -- `self.jobs[job_name]` on a `defaultdict`
  abbrev pub get_state : JobsStates S → String → JobState S
  get_state jobs job_name = elim (lookup job_name jobs) [ none ↦ default | some state ↦ state ]

-- The calls of the store that write.
pub data Write (S : Type 0) : Type 0 where
  set_job_cursor : (job_name cursor : String) → Write S
  set_job_completed : (job_name : String) (now : ℕ) → Write S
  set_job_failed : (job_name error : String) (now : ℕ) → Write S
  set_job_cursor_state : (job_name cursor : String) → S → Write S

pub record JobsStatesSyncStore (S : Type 0) : Type 0 where
  pub current_state : JobsStates S
  pub flushing_state : Option (JobsStates S)

module _ {S : Type 0} where
  abbrev pub job_of : Write S → String
  job_of (set_job_cursor j _) = j
  job_of (set_job_completed j _) = j
  job_of (set_job_failed j _ _) = j
  job_of (set_job_cursor_state j _ _) = j

  abbrev pub write_state : Write S → JobState S → JobState S
  write_state (set_job_cursor _ cursor) s = record s { cursor = some cursor }
  write_state (set_job_completed _ now) s = record s {
    completion = some (record { completed_at = now; error = none });
  }
  write_state (set_job_failed _ error now) s = record s {
    completion = some (record { completed_at = now; error = some error });
  }
  write_state (set_job_cursor_state _ cursor state) s = record s {
    cursors_states = insert cursor state s.cursors_states;
  }

  unfoldable pub write_jobs : Write S → JobsStates S → JobsStates S
  write_jobs w jobs = insert (job_of w) (write_state w (get_state jobs (job_of w))) jobs

  unfoldable pub write : Write S → JobsStatesSyncStore S → JobsStatesSyncStore S
  unfolding write_jobs
  write w s = record s { current_state = write_jobs w s.current_state }

  unfoldable pub begin_flush : JobsStatesSyncStore S → JobsStatesSyncStore S
  begin_flush s = record { current_state = []; flushing_state = some s.current_state }

  -- Only reached with a flushing state; without one `merge` would raise, and nothing changes here.
  unfoldable pub fail_flush : JobsStatesSyncStore S → JobsStatesSyncStore S
  unfolding merge
  fail_flush s = elim s.flushing_state [
    | none ↦ s
    | some flushing ↦ record {
      current_state = merge flushing s.current_state;
      flushing_state = none;
    }
  ]

  -- `list(set(cursors) - states.keys())`
  abbrev pub missing_cursors : List String → Dict String S → List String
  missing_cursors cursors states = keep (λ c. not (has_key c states)) (union [] cursors)

  unfoldable pub get_local_cursors_states :
      JobsStatesSyncStore S → String → List String → Dict String S
  unfolding get_cursors_states
  get_local_cursors_states s job_name cursors =
      let states = get_cursors_states s.current_state job_name cursors in
      elim (missing_cursors cursors states) [
        | [] ↦ states
        | c ∷ cs ↦ elim s.flushing_state [
          | none ↦ states
          | some flushing ↦ update states (get_cursors_states flushing job_name (c ∷ cs))
        ]
      ]
