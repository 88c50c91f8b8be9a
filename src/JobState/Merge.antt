-- ===== src/JobState/Merge.antt =====
-- Two collections of job states compared by what can be read from them, and how writes and merges
-- act on that.
use data_lineup.Base.{
  String, Option, none, some, ◌==◌, ==_iff, string_eq, ◌≡◌, refl, ◌∙◌, arith, Bool-cases, inl, inr,
}
use data_lineup.Dict.{
  lookup, insert, update, Distinct, lookup-insert, lookup-update, insert-Distinct,
}
use data_lineup.Inventory.{truthy}
use data_lineup.JobState.{
  JobState, JobsStates, default, merge_state, merge, get_state, Write, set_job_cursor,
  set_job_completed, set_job_failed, set_job_cursor_state, job_of, write_state, write_jobs,
}
use data_lineup.JobState.Jobs.{
  merged, lookup-merge, lookup-write_jobs, IsWellFormed, Distinct-of_well_formed,
  get_state-Distinct, write_jobs-IsWellFormed,
}

module _ {S : Type 0} where
  -- The same cursor and completion, and the same state for every cursor.
  abbrev pub SameState : JobState S → JobState S → Type 0
  SameState s t =
      (s.cursor ≡ t.cursor)
      × (s.completion ≡ t.completion)
      × ((c : String) → lookup c s.cursors_states ≡ lookup c t.cursors_states)

  abbrev pub Same : Option (JobState S) → Option (JobState S) → Type 0
  Same none none = Unit
  Same (some s) (some t) = SameState s t
  Same _ _ = ⊥

  -- The same jobs, each with the same state.
  abbrev pub SameJobs : JobsStates S → JobsStates S → Type 0
  SameJobs a b = (j : String) → Same (lookup j a) (lookup j b)

  pub Same-refl : (o : Option (JobState S)) → Same o o
  Same-refl none = tt
  Same-refl (some s) = (refl, refl, λ c. refl)

  pub Same-trans : (o p q : Option (JobState S)) → Same o p → Same p q → Same o q
  Same-trans none none none h k = tt
  Same-trans (some s) (some t) (some u) h k = (h.0 ∙ k.0, h.1 ∙ k.1, λ c. h.2 c ∙ k.2 c)
  Same-trans none none (some u) h k = k
  Same-trans none (some t) q h k = absurd h
  Same-trans (some s) none q h k = absurd h
  Same-trans (some s) (some t) none h k = k

  write_state-SameState :
      (w : Write S) (s t : JobState S)
      → SameState s t
      → SameState (write_state w s) (write_state w t)
  write_state-SameState (set_job_cursor j c) s t h = (refl, h.1, h.2)
  write_state-SameState (set_job_completed j n) s t h = (h.0, refl, h.2)
  write_state-SameState (set_job_failed j e n) s t h = (h.0, refl, h.2)
  write_state-SameState (set_job_cursor_state j c v) s t h = (
    h.0,
    h.1,
    λ d. rw (lookup-insert c d v s.cursors_states, lookup-insert c d v t.cursors_states, h.2 d),
  )

  -- `if new.cursor:` passes over an empty cursor, so a write of one is lost in a merge.
  abbrev pub HasText : Write S → Type 0
  HasText (set_job_cursor _ c) = truthy (some c) ≡ some c
  HasText _ = Unit

  merge_state-write :
      (w : Write S) (s t : JobState S)
      → HasText w
      → Distinct t.cursors_states
      → SameState (merge_state s (write_state w t)) (write_state w (merge_state s t))
  unfolding merge_state
  merge_state-write (set_job_cursor j c) s t h d = (ground arith, refl, λ c. refl)
  merge_state-write (set_job_completed j n) s t h d = (refl, ground arith, λ c. refl)
  merge_state-write (set_job_failed j e n) s t h d = (refl, ground arith, λ c. refl)
  merge_state-write (set_job_cursor_state j c v) s t h d = (
    refl,
    refl,
    λ e. ground (
      arith,
      ==_iff c e,
      lookup-insert c e v t.cursors_states,
      lookup-insert c e v (update s.cursors_states t.cursors_states),
      lookup-update e s.cursors_states (insert c v t.cursors_states)
          (insert-Distinct c v t.cursors_states d),
      lookup-update e s.cursors_states t.cursors_states d,
    ),
  )

  abbrev or_default : Option (JobState S) → JobState S
  or_default o = elim o [ none ↦ default | some s ↦ s ]

  merged-write :
      (w : Write S) (o p : Option (JobState S))
      → HasText w
      → Distinct (or_default p).cursors_states
      → Same
          (merged o (some (write_state w (or_default p))))
          (some (write_state w (or_default (merged o p))))
  merged-write w none none h d = Same-refl (some (write_state w default))
  merged-write w none (some t) h d = Same-refl (some (write_state w t))
  merged-write w (some s) (some t) h d = merge_state-write w s t h d
  merged-write w (some s) none h d =
      Same-trans (some (merge_state s (write_state w default)))
        (some (write_state w (merge_state s default))) (some (write_state w s))
        (merge_state-write w s default h d)
        (write_state-SameState w (merge_state s default) s (merge_default s))
    where
      merge_default : (s : JobState S) → SameState (merge_state s default) s
      merge_default s = unfold merge_state in (refl, refl, λ c. refl)

  -- To merge after a write is, for all that can be read, to write after the merge.
  pub merge-write_jobs :
      (w : Write S) (self new : JobsStates S)
      → HasText w
      → IsWellFormed new
      → SameJobs (merge self (write_jobs w new)) (write_jobs w (merge self new))
  merge-write_jobs w self new h f j =
      rw
        (
          lookup-merge j self (write_jobs w new)
              (Distinct-of_well_formed _ (write_jobs-IsWellFormed w new f)),
          lookup-write_jobs j w new,
          lookup-write_jobs j w (merge self new),
          get_state,
          lookup-merge j self new (Distinct-of_well_formed new f),
        )
        (elim (Bool-cases (job_of w == j)) [
          | inl e ↦
              rw e (merged-write w (lookup j self) (lookup j new) h (get_state-Distinct j new f))
          | inr e ↦ rw e (Same-refl _)
        ])

  Same-write :
      (w : Write S) (o p : Option (JobState S))
      → Same o p
      → Same (some (write_state w (or_default o))) (some (write_state w (or_default p)))
  Same-write w none none h = Same-refl (some (write_state w default))
  Same-write w (some s) (some t) h = write_state-SameState w s t h
  Same-write w none (some t) h = absurd h
  Same-write w (some s) none h = absurd h

  pub write_jobs-SameJobs :
      (w : Write S) (a b : JobsStates S) → SameJobs a b → SameJobs (write_jobs w a) (write_jobs w b)
  write_jobs-SameJobs w a b h j =
      rw (lookup-write_jobs j w a, lookup-write_jobs j w b)
        (elim (Bool-cases (job_of w == j)) [
          | inl e ↦ rw e (Same-write w (lookup j a) (lookup j b) (h j))
          | inr e ↦ rw e (h j)
        ])
