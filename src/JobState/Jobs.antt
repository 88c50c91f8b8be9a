-- ===== src/JobState/Jobs.antt =====
-- Job states read through the dictionary: lookups after a write and after a merge.
use data_lineup.Base.{
  String, false, Option, none, some, [], ◌∷◌, ◌==◌, ==_iff, string_eq, if◌then◌else◌, ◌≡◌, refl,
  arith, Option-cases, inl, inr, Bool-cases,
}
use data_lineup.Dict.{
  lookup, has_key, insert, Distinct, lookup-insert, has_key-lookup, insert-Distinct,
  update-Distinct, has_key-insert,
}
use data_lineup.JobState.{
  JobState, JobsStates, merge_state, merge, get_state, Write, set_job_cursor, set_job_completed,
  set_job_failed, set_job_cursor_state, job_of, write_state, write_jobs,
}

module _ {S : Type 0} where
  -- What one job has after a merge.
  abbrev pub merged : Option (JobState S) → Option (JobState S) → Option (JobState S)
  merged o none = o
  merged none (some new) = some new
  merged (some old) (some new) = some (merge_state old new)

  pub lookup-merge :
      (j : String) (self new : JobsStates S)
      → Distinct new
      → lookup j (merge self new) ≡ merged (lookup j self) (lookup j new)
  unfolding merge
  lookup-merge j self [] d = refl
  lookup-merge j self ((k, s) ∷ new) d =
      let entry = elim (lookup k self) as (λ _. JobState S) [
        | none ↦ s
        | some old ↦ merge_state old s
      ] in
      ground (
        arith,
        ==_iff k j,
        lookup-merge j (insert k entry self) new d.1,
        lookup-insert k j entry self,
        has_key-lookup k new,
      )

  pub lookup-write_jobs :
      (j : String) (w : Write S) (jobs : JobsStates S)
      → lookup j (write_jobs w jobs)
        ≡ (if job_of w == j then some (write_state w (get_state jobs j)) else lookup j jobs)
  unfolding write_jobs
  lookup-write_jobs j w jobs = ground (
    arith,
    ==_iff (job_of w) j,
    lookup-insert (job_of w) j (write_state w (get_state jobs (job_of w))) jobs,
  )

  -- No job stands twice, and no cursor stands twice in a job.
  abbrev pub IsWellFormed : JobsStates S → Type 0
  IsWellFormed [] = Unit
  IsWellFormed ((j, s) ∷ jobs) =
      (has_key j jobs ≡ false) × Distinct s.cursors_states × IsWellFormed jobs

  pub Distinct-of_well_formed : (jobs : JobsStates S) → IsWellFormed jobs → Distinct jobs
  Distinct-of_well_formed [] h = tt
  Distinct-of_well_formed ((j, s) ∷ jobs) h = (h.0, Distinct-of_well_formed jobs h.2)

  pub lookup-Distinct :
      (j : String) (jobs : JobsStates S) {s : JobState S}
      → IsWellFormed jobs
      → lookup j jobs ≡ some s
      → Distinct s.cursors_states
  lookup-Distinct j [] h e = cc
  lookup-Distinct j ((k, t) ∷ jobs) {s} h e = elim (Bool-cases (k == j)) [
    | inl p ↦ let q : t ≡ s = ground arith in rw q at (h.1)
    | inr p ↦ lookup-Distinct j jobs h.2 (rw p at e)
  ]

  pub get_state-Distinct :
      (j : String) (jobs : JobsStates S)
      → IsWellFormed jobs
      → Distinct (get_state jobs j).cursors_states
  get_state-Distinct j jobs h = elim (Option-cases (lookup j jobs)) [
    | inl e ↦ rw (e, Distinct) tt
    | inr (s, e) ↦ rw (e, Distinct) (lookup-Distinct j jobs h e)
  ]

  insert-IsWellFormed :
      (j : String) (s : JobState S) (jobs : JobsStates S)
      → Distinct s.cursors_states
      → IsWellFormed jobs
      → IsWellFormed (insert j s jobs)
  insert-IsWellFormed j s [] d h = (refl, d, tt)
  insert-IsWellFormed j s ((k, t) ∷ jobs) d h =
      ground (
        arith,
        ==_iff k j,
        ==_iff j k,
        has_key-insert j k s jobs,
        insert-IsWellFormed j s jobs d h.2,
      )

  write_state-Distinct :
      (w : Write S) (s : JobState S)
      → Distinct s.cursors_states
      → Distinct (write_state w s).cursors_states
  write_state-Distinct (set_job_cursor_state j c v) s d = insert-Distinct c v s.cursors_states d
  write_state-Distinct (set_job_cursor j c) s d = d
  write_state-Distinct (set_job_completed j t) s d = d
  write_state-Distinct (set_job_failed j e t) s d = d

  -- A write keeps the dictionaries well formed.
  pub write_jobs-IsWellFormed :
      (w : Write S) (jobs : JobsStates S) → IsWellFormed jobs → IsWellFormed (write_jobs w jobs)
  unfolding write_jobs
  write_jobs-IsWellFormed w jobs h =
      insert-IsWellFormed (job_of w) (write_state w (get_state jobs (job_of w))) jobs
        (write_state-Distinct w (get_state jobs (job_of w)) (get_state-Distinct (job_of w) jobs h))
        h

  merge_state-Distinct :
      (s t : JobState S) → Distinct s.cursors_states → Distinct (merge_state s t).cursors_states
  unfolding merge_state
  merge_state-Distinct s t d = update-Distinct s.cursors_states t.cursors_states d

  -- So does a merge.
  pub merge-IsWellFormed :
      (self new : JobsStates S)
      → IsWellFormed self
      → IsWellFormed new
      → IsWellFormed (merge self new)
  unfolding merge
  merge-IsWellFormed self [] h k = h
  merge-IsWellFormed self ((j, s) ∷ new) h k = elim (Option-cases (lookup j self)) [
    | inl e ↦
        rw e (merge-IsWellFormed (insert j s self) new (insert-IsWellFormed j s self k.1 h) k.2)
    | inr (old, e) ↦ rw e (
        merge-IsWellFormed (insert j (merge_state old s) self) new
          (insert-IsWellFormed j (merge_state old s) self
            (merge_state-Distinct old s (lookup-Distinct j self h e)) h)
          k.2)
  ]
