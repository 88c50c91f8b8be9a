-- ===== src/JobStateService/Flushed.antt =====
-- A flush into the tables of the worker manager, and what another worker then fetches.
use data_lineup.Base.{
  String, Bool, true, false, none, some, [], ◌∷◌, ◌==◌, ==_iff, string_eq, or_else, ◌≡◌, refl, ◌∙◌,
  ap, arith, Bool-cases, Option-cases, List-cases, ◌⊎◌, inl, inr,
}
use data_lineup.Dict.{
  Dict, lookup, insert, has_key, Distinct, lookup-insert, has_key-lookup, insert-Distinct,
}
use data_lineup.JobState.{JobsStates, JobsStatesSyncStore, begin_flush, fail_flush, merge}
use data_lineup.JobState.Jobs.{IsWellFormed}
use data_lineup.StatesSync.{CursorStates, namespace_of, sync_jobs_states}
use data_lineup.StatesSync.Cursors.{
  written, HasDistinctCursors, lookup-upsert_all, table-sync_jobs_states,
  namespace_of-sync_jobs_states,
}
use data_lineup.Stores.{Database}
use data_lineup.JobStateService.{CursorFormat, format, format_states, prepare_jobs_states, flush}
use data_lineup.JobStateService.Fetch.{stored}

module _ {S : Type 0} where
  -- `post_sync_jobs_states` of the worker manager: a sync that raises changes nothing.
  abbrev pub sync_tables :
      JobsStates S → Database × CursorStates S → Bool × (Database × CursorStates S)
  sync_tables jobs (db, table) = elim (sync_jobs_states jobs db table) [
    | none ↦ (false, (db, table))
    | some after ↦ (true, after)
  ]

  -- No other cursor of the states has the key of this one.
  abbrev pub IsOwnKey : (String → String) → String → Dict String S → Type 0
  IsOwnKey f c states = (k : String) → has_key k states ≡ true → f k ≡ f c → k ≡ c

  abbrev pub HasOwnKey : (String → String) → String → JobsStates S → Type 0
  HasOwnKey f c [] = Unit
  HasOwnKey f c ((_, state) ∷ jobs) = IsOwnKey f c state.cursors_states × HasOwnKey f c jobs

  module _ (f : String → String) where
    lookup-format_states :
        (c : String) (states formatted : Dict String S)
        → Distinct states
        → IsOwnKey f c states
        → lookup (f c) (format_states f states formatted)
          ≡ or_else (lookup c states) (lookup (f c) formatted)
    lookup-format_states c [] formatted d own = refl
    lookup-format_states c ((k, v) ∷ states) formatted d own =
        let rest : IsOwnKey f c states = λ j e. own j (ground (arith, e)) in
        let same : f k ≡ f c → k ≡ c = own k (ground (arith, ==_iff k k)) in
        elim (Bool-cases (k == c)) [
          | inl e ↦
              let here : k ≡ c = (==_iff k c).0 e in
              ground (
                arith,
                e,
                here,
                ap f here,
                lookup-format_states c states (insert (f k) v formatted) d.1 rest,
                lookup-insert (f k) (f c) v formatted,
                ==_iff (f k) (f c),
                has_key-lookup k states,
                d.0,
              )
          | inr e ↦ ground (
            arith,
            e,
            lookup-format_states c states (insert (f k) v formatted) d.1 rest,
            lookup-insert (f k) (f c) v formatted,
            ==_iff (f k) (f c),
            ==_iff k c,
            same,
          )
        ]

    format_states-Distinct :
        (states formatted : Dict String S)
        → Distinct formatted
        → Distinct (format_states f states formatted)
    format_states-Distinct [] formatted d = d
    format_states-Distinct ((k, v) ∷ states) formatted d =
        format_states-Distinct states (insert (f k) v formatted)
          (insert-Distinct (f k) v formatted d)

    has_key-prepare_jobs_states :
        (j : String) (jobs : JobsStates S) → has_key j (prepare_jobs_states f jobs) ≡ has_key j jobs
    has_key-prepare_jobs_states j [] = refl
    has_key-prepare_jobs_states j ((k, s) ∷ jobs) =
        ground (arith, has_key-prepare_jobs_states j jobs)

    prepare_jobs_states-Distinct :
        (jobs : JobsStates S) → IsWellFormed jobs → Distinct (prepare_jobs_states f jobs)
    prepare_jobs_states-Distinct [] w = tt
    prepare_jobs_states-Distinct ((j, s) ∷ jobs) w =
        (has_key-prepare_jobs_states j jobs ∙ w.0, prepare_jobs_states-Distinct jobs w.2)

    prepare_jobs_states-HasDistinctCursors :
        (jobs : JobsStates S) → HasDistinctCursors (prepare_jobs_states f jobs)
    prepare_jobs_states-HasDistinctCursors [] = tt
    prepare_jobs_states-HasDistinctCursors ((j, s) ∷ jobs) =
        (format_states-Distinct s.cursors_states [] tt, prepare_jobs_states-HasDistinctCursors jobs)

    written-prepare_jobs_states :
        (db : Database) (jobs : JobsStates S) (m c : String)
        → IsWellFormed jobs
        → HasOwnKey f c jobs
        → written db (prepare_jobs_states f jobs) m (f c) ≡ written db jobs m c
    written-prepare_jobs_states db [] m c w own = refl
    written-prepare_jobs_states db ((j, s) ∷ jobs) m c w own = ground (
      arith,
      written-prepare_jobs_states db jobs m c w.2 own.1,
      lookup-format_states c s.cursors_states [] w.1 own.0,
    )

  module _ (hexdigest : String → String) (form : CursorFormat) (store : JobsStatesSyncStore S)
      (db : Database) (table : CursorStates S) (job c : String) where
    abbrev flushed : Bool × (JobsStatesSyncStore S × (Database × CursorStates S))
    flushed = flush sync_tables (format hexdigest form) store (db, table)

    abbrev prepared : JobsStates S
    prepared = prepare_jobs_states (format hexdigest form) store.current_state

    -- A flush that returns leaves for every cursor the state that the flushed collection has for it
    -- under the job's definition, or else the one that the tables had; and the worker collects
    -- anew. A flush that fails leaves the tables and the collection as they were. Given that no key
    -- of the collection stands twice and that no other cursor in it has the key of this one.
    pub flush-stored :
        IsWellFormed store.current_state
        → HasOwnKey (format hexdigest form) c store.current_state
        → ((flushed.0 ≡ true)
            × (flushed.1.0.current_state ≡ [])
            × (stored hexdigest form flushed.1.1.0 flushed.1.1.1 job c
                ≡ or_else
                    (written db store.current_state (namespace_of db job) c)
                    (stored hexdigest form db table job c)))
          ⊎ ((flushed.0 ≡ false)
              × (flushed.1.0 ≡ record store { flushing_state = none })
              × (flushed.1.1 ≡ (db, table)))
    unfolding flush begin_flush fail_flush merge
    flush-stored w own = elim (List-cases store.current_state) [
      | inl e ↦ inl (ground (arith, e), ground (arith, e), ground (arith, e))
      | inr (p, rest, e) ↦ elim (Option-cases (sync_jobs_states prepared db table)) [
        | inl failed ↦
            inr (ground (arith, e, failed), ground (arith, e, failed), ground (arith, e, failed))
        | inr ((db', table'), done) ↦
            let n = namespace_of db job in
            let f = format hexdigest form in
            let world : flushed.1.1 ≡ (db', table') = ground (arith, e, done) in
            let d = prepare_jobs_states-Distinct f store.current_state w in
            inl (
              ground (arith, e, done),
              ground (arith, e, done),
              ap (λ (p : Database × CursorStates S). stored hexdigest form p.0 p.1 job c) world
                  ∙ rw
                      (
                        namespace_of-sync_jobs_states job prepared db db' table table' d done,
                        table-sync_jobs_states prepared db db' table table' done,
                        lookup-upsert_all db n (f c) prepared table
                            (prepare_jobs_states-HasDistinctCursors f store.current_state),
                        written-prepare_jobs_states f db store.current_state n c w own,
                      )
                      refl,
            )
      ]
    ]
