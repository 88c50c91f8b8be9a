-- ===== src/JobState/Reads.antt =====
-- Reads of the local store: `get_local_cursors_states` sees every write, also during a flush.
use data_lineup.Base.{
  String, false, not, ◌&&◌, Option, none, some, List, [], ◌∷◌, ==_iff, string_eq, if◌then◌else◌,
  or_else, ◌≡◌, refl, ◌∙◌, arith, Option-cases, inl, inr, keep, is_some, All,
}
use data_lineup.Dict.{
  Dict, lookup, has_key, update, Distinct, has_key-lookup, lookup-update, elem, union, elem-union,
  elem-keep,
}
use data_lineup.JobState.{
  JobsStates, merge, merge_state, get_state, get_cursors_states, JobsStatesSyncStore,
  missing_cursors, get_local_cursors_states, Write, begin_flush,
}
use data_lineup.JobState.Jobs.{
  lookup-merge, IsWellFormed, Distinct-of_well_formed, get_state-Distinct,
}
use data_lineup.JobState.Merge.{HasText, Same, SameState}
use data_lineup.JobState.Flush.{
  write_all, write_all_jobs, write_all_lem, write_all_jobs-IsWellFormed, merge-write_all_jobs,
}

module _ {S : Type 0} where
  lookup-keep :
      (c : String) (cursors : List String) (states : Dict String S)
      → lookup c (keep (λ p. elem p.0 cursors) states)
        ≡ (if elem c cursors then lookup c states else none)
  lookup-keep c cursors [] = ground arith
  lookup-keep c cursors ((k, v) ∷ states) = ground (arith, ==_iff k c, lookup-keep c cursors states)

  has_key-keep :
      (c : String) (cursors : List String) (states : Dict String S)
      → has_key c states ≡ false
      → has_key c (keep (λ p. elem p.0 cursors) states) ≡ false
  has_key-keep c cursors [] h = refl
  has_key-keep c cursors ((k, v) ∷ states) h = ground (arith, has_key-keep c cursors states)

  keep-Distinct :
      (cursors : List String) (states : Dict String S)
      → Distinct states
      → Distinct (keep (λ p. elem p.0 cursors) states)
  keep-Distinct cursors [] h = tt
  keep-Distinct cursors ((k, v) ∷ states) h =
      ground (arith, has_key-keep k cursors states, keep-Distinct cursors states h.1)

  -- The state of a cursor in a collection of job states.
  abbrev pub state_of : JobsStates S → String → String → Option S
  state_of jobs j c = lookup c (get_state jobs j).cursors_states

  lookup-get_cursors_states :
      (c j : String) (cursors : List String) (jobs : JobsStates S)
      → lookup c (get_cursors_states jobs j cursors)
        ≡ (if elem c cursors then state_of jobs j c else none)
  unfolding get_cursors_states
  lookup-get_cursors_states c j cursors jobs = elim (Option-cases (lookup j jobs)) [
    | inl e ↦ ground arith
    | inr (s, e) ↦ ground (arith, lookup-keep c cursors s.cursors_states)
  ]

  get_cursors_states-Distinct :
      (j : String) (cursors : List String) (jobs : JobsStates S)
      → IsWellFormed jobs
      → Distinct (get_cursors_states jobs j cursors)
  unfolding get_cursors_states
  get_cursors_states-Distinct j cursors jobs f = elim (Option-cases (lookup j jobs)) [
    | inl e ↦ rw (e, Distinct) tt
    | inr (s, e) ↦
        let d : Distinct s.cursors_states = rw (e, get_state) at (get_state-Distinct j jobs f) in
        rw (e, Distinct) (keep-Distinct cursors s.cursors_states d)
  ]

  pub elem-missing_cursors :
      (c : String) (cursors : List String) (states : Dict String S)
      → elem c (missing_cursors cursors states)
        ≡ (not (is_some (lookup c states)) && elem c cursors)
  elem-missing_cursors c cursors states = ground (
    arith,
    elem-keep c (λ d. not (has_key d states)) (union [] cursors),
    has_key-lookup c states,
    elem-union c [] cursors,
  )

  abbrev pub flushing_of : Option (JobsStates S) → JobsStates S
  flushing_of none = []
  flushing_of (some jobs) = jobs

  -- The `states |= …` of `get_local_cursors_states`, where something is missing.
  lookup-merged_reads :
      (s : JobsStatesSyncStore S) (flushing : JobsStates S) (j c : String)
      (cursors ms : List String)
      → IsWellFormed flushing
      → missing_cursors cursors (get_cursors_states s.current_state j cursors) ≡ ms
      → lookup c
          (update (get_cursors_states s.current_state j cursors) (get_cursors_states flushing j ms))
        ≡ (if elem c cursors
            then or_else (state_of s.current_state j c) (state_of flushing j c)
            else none)
  lookup-merged_reads s flushing j c cursors ms f e =
      let states = get_cursors_states s.current_state j cursors in
      let missed : elem c ms ≡ (not (is_some (lookup c states)) && elem c cursors) =
        rw (← e) (elem-missing_cursors c cursors states) in
      rw
        (
          lookup-update c states (get_cursors_states flushing j ms)
              (get_cursors_states-Distinct j ms flushing f),
          lookup-get_cursors_states c j ms flushing,
          missed,
          lookup-get_cursors_states c j cursors s.current_state,
        )
        (ground arith)

  lookup-none_missing :
      (s : JobsStatesSyncStore S) (flushing : JobsStates S) (j c : String) (cursors : List String)
      → missing_cursors cursors (get_cursors_states s.current_state j cursors) ≡ []
      → lookup c (get_cursors_states s.current_state j cursors) ≡ (
          if elem c cursors
          then or_else (state_of s.current_state j c) (state_of flushing j c)
          else none)
  lookup-none_missing s flushing j c cursors e =
      let states = get_cursors_states s.current_state j cursors in
      let missed : false ≡ (not (is_some (lookup c states)) && elem c cursors) =
        rw (← elem-missing_cursors c cursors states, e) in
      ground (arith, lookup-get_cursors_states c j cursors s.current_state)

  -- Only the cursors asked for are returned, each with its state in the current collection, or,
  -- where that has none, in the one that is being flushed. Given that no key of the latter stands
  -- twice.
  pub lookup-get_local :
      (s : JobsStatesSyncStore S) (j c : String) (cursors : List String)
      → IsWellFormed (flushing_of s.flushing_state)
      → lookup c (get_local_cursors_states s j cursors) ≡ (
          if elem c cursors
          then or_else (state_of s.current_state j c) (state_of (flushing_of s.flushing_state) j c)
          else none)
  unfolding get_local_cursors_states
  lookup-get_local s j c cursors f =
      by_cases s.flushing_state
        (missing_cursors cursors (get_cursors_states s.current_state j cursors)) f refl
    where
      by_cases :
          (o : Option (JobsStates S)) (ms : List String)
          → IsWellFormed (flushing_of o)
          → missing_cursors cursors (get_cursors_states s.current_state j cursors) ≡ ms
          → lookup c (elim ms as (λ _. Dict String S) [
            | [] ↦ get_cursors_states s.current_state j cursors
            | m ∷ ms ↦ elim o as (λ _. Dict String S) [
              | none ↦ get_cursors_states s.current_state j cursors
              | some flushing ↦
                  update
                    (get_cursors_states s.current_state j cursors)
                    (get_cursors_states flushing j (m ∷ ms))
            ]
          ])
            ≡ (if elem c cursors
                then or_else (state_of s.current_state j c) (state_of (flushing_of o) j c)
                else none)
      by_cases o [] f e = lookup-none_missing s (flushing_of o) j c cursors e
      by_cases none (m ∷ ms) f e =
          ground (arith, lookup-get_cursors_states c j cursors s.current_state)
      by_cases (some flushing) (m ∷ ms) f e =
          lookup-merged_reads s flushing j c cursors (m ∷ ms) f e

  state_of-merge :
      (self new : JobsStates S) (j c : String)
      → IsWellFormed new
      → state_of (merge self new) j c ≡ or_else (state_of new j c) (state_of self j c)
  unfolding merge_state
  state_of-merge self new j c f = ground (
    arith,
    lookup-merge j self new (Distinct-of_well_formed new f),
    lookup-update c (get_state self j).cursors_states (get_state new j).cursors_states
        (get_state-Distinct j new f),
  )

  state_of-Same :
      (a b : JobsStates S) (j c : String)
      → Same (lookup j a) (lookup j b)
      → state_of a j c ≡ state_of b j c
  state_of-Same a b j c h = elim (Option-cases (lookup j a)) [
    | inl e ↦ elim (Option-cases (lookup j b)) [
      | inl e' ↦ rw (e, e', get_state)
      | inr (t, e') ↦ absurd (rw (e, e') at h)
    ]
    | inr (s, e) ↦ elim (Option-cases (lookup j b)) [
      | inl e' ↦ absurd (rw (e, e') at h)
      | inr (t, e') ↦ let same : SameState s t = rw (e, e') at h in rw (e, e', get_state) (same.2 c)
    ]
  ]

  -- While a flush runs, after any writes, the local states read for any cursors are those that
  -- would be read had the flush not begun. Given a well-formed state with no earlier flush, and no
  -- write of an empty cursor.
  pub get_local-begin_flush :
      (ws : List (Write S)) (s : JobsStatesSyncStore S) (j c : String) (cursors : List String)
      → All HasText ws
      → IsWellFormed s.current_state
      → s.flushing_state ≡ none
      → lookup c (get_local_cursors_states (write_all ws (begin_flush s)) j cursors)
        ≡ lookup c (get_local_cursors_states (write_all ws s) j cursors)
  unfolding begin_flush merge
  get_local-begin_flush ws s j c cursors h f e =
      let new = write_all_jobs ws [] in
      let same : state_of (merge s.current_state new) j c
          ≡ state_of (write_all_jobs ws s.current_state) j c =
        state_of-Same (merge s.current_state new) (write_all_jobs ws s.current_state) j c
          (merge-write_all_jobs ws s.current_state [] h tt j) in
      let during = record s { current_state = new; flushing_state = some s.current_state } in
      let without = record s { current_state = write_all_jobs ws s.current_state } in
      rw (write_all_lem ws (begin_flush s), write_all_lem ws s)
        (lookup-get_local during j c cursors f
          ∙ ground (
            arith,
            same,
            state_of-merge s.current_state new j c (write_all_jobs-IsWellFormed ws [] tt),
            lookup-get_local without j c cursors (rw e tt),
          ))
