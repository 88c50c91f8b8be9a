-- ===== src/StatesSync/Cursors.antt =====
-- The cursor states that are fetched after a sync.
use data_lineup.Base.{
  String, Option, none, some, List, [], ◌∷◌, string_eq, ◌==◌, ==_iff, if◌then◌else◌, or_else, ◌≡◌,
  refl, arith, ◌∙◌, Option-cases, inl, inr,
}
use data_lineup.Dict.{Dict, lookup, insert, Distinct, lookup-insert, has_key-lookup, elem}
use data_lineup.JobState.{JobsStates}
use data_lineup.Stores.{Database}
use data_lineup.StatesSync.{
  CursorStates, states_of, namespace_of, upsert, upsert_all, sync_jobs_states, fetch_cursors,
  fetch_cursors_states, update_jobs, disable_queues,
}
use data_lineup.StatesSync.Rows.{lookup-sync_jobs_states}

module _ {S : Type 0} where
  lookup-upsert :
      (n m c : String) (states : Dict String S) (table : CursorStates S)
      → Distinct states
      → lookup c (states_of m (upsert n states table)) ≡ (
          if n == m
          then or_else (lookup c states) (lookup c (states_of m table))
          else lookup c (states_of m table))
  lookup-upsert n m c [] table d = ground arith
  lookup-upsert n m c ((k, v) ∷ states) table d =
      let inner = insert k v (states_of n table) in
      ground (
        arith,
        lookup-upsert n m c states (insert n inner table) d.1,
        lookup-insert n m inner table,
        lookup-insert k c v (states_of n table),
        ==_iff n m,
        ==_iff k c,
        has_key-lookup c states,
      )

  -- The state that a batch writes for a cursor of a namespace: that of the last job that has one.
  abbrev pub written : Database → JobsStates S → String → String → Option S
  written db [] m c = none
  written db ((job_id, state) ∷ jobs) m c =
      let later = written db jobs m c in
      or_else later (if namespace_of db job_id == m then lookup c state.cursors_states else none)

  -- Within each job of a batch no cursor stands twice.
  abbrev pub HasDistinctCursors : JobsStates S → Type 0
  HasDistinctCursors [] = Unit
  HasDistinctCursors ((_, state) ∷ jobs) = Distinct state.cursors_states × HasDistinctCursors jobs

  pub lookup-upsert_all :
      (db : Database) (m c : String) (jobs : JobsStates S) (table : CursorStates S)
      → HasDistinctCursors jobs
      → lookup c (states_of m (upsert_all db jobs table))
        ≡ or_else (written db jobs m c) (lookup c (states_of m table))
  lookup-upsert_all db m c [] table h = refl
  lookup-upsert_all db m c ((j, s) ∷ jobs) table h =
      let n = namespace_of db j in
      ground (
        arith,
        lookup-upsert_all db m c jobs (upsert n s.cursors_states table) h.1,
        lookup-upsert n m c s.cursors_states table h.0,
      )

  pub lookup-fetch_cursors :
      (c : String) (cursors : List String) (states : Dict String S)
      → lookup c (fetch_cursors cursors states)
        ≡ (if elem c cursors then some (lookup c states) else none)
  lookup-fetch_cursors c [] states = refl
  lookup-fetch_cursors c (k ∷ cursors) states = ground (
    arith,
    lookup-insert k c (lookup k states) (fetch_cursors cursors states),
    lookup-fetch_cursors c cursors states,
    ==_iff k c,
  )

  lookup-fetch_cursors_states :
      (j : String) (query : Dict String (List String)) (db : Database) (table : CursorStates S)
      → lookup j (fetch_cursors_states query db table)
        ≡ elim (lookup j query) as (λ _. Option (Dict String (Option S))) [
          | none ↦ none
          | some cursors ↦ some (fetch_cursors cursors (states_of (namespace_of db j) table))
        ]
  unfolding fetch_cursors_states
  lookup-fetch_cursors_states j [] db table = refl
  lookup-fetch_cursors_states j ((k, cursors) ∷ query) db table =
      ground (arith, lookup-fetch_cursors_states j query db table, ==_iff k j)

  pub table-sync_jobs_states :
      (jobs : JobsStates S) (db db' : Database) (table table' : CursorStates S)
      → sync_jobs_states jobs db table ≡ some (db', table')
      → table' ≡ upsert_all db jobs table
  unfolding sync_jobs_states
  table-sync_jobs_states jobs db db' table table' e =
      elim (Option-cases (update_jobs jobs db.jobs)) [
        | inl f ↦ absurd (ground (arith, f))
        | inr (rows, f) ↦ elim (Option-cases (disable_queues jobs db.queues)) [
          | inl g ↦ absurd (ground (arith, f, g))
          | inr (queues, g) ↦ ground (arith, f, g)
        ]
      ]

  pub namespace_of-sync_jobs_states :
      (j : String) (jobs : JobsStates S) (db db' : Database) (table table' : CursorStates S)
      → Distinct jobs
      → sync_jobs_states jobs db table ≡ some (db', table')
      → namespace_of db' j ≡ namespace_of db j
  namespace_of-sync_jobs_states j jobs db db' table table' d e =
      let (row, _) = lookup-sync_jobs_states j jobs db db' table table' d e in ground (arith, row)

  -- After a sync, a fetch returns for every cursor asked for the state that the batch wrote for it
  -- under the job's definition (or, without a definition, under its name), the last one where
  -- several jobs did; and otherwise what the table had before, or `None`. A cursor that was not
  -- asked for is not returned. Given that the sync returns, that no job stands twice in the batch
  -- and within each job no cursor, and that the fetch asks for the job.
  pub fetch_cursors_states-sync_jobs_states :
      (jobs : JobsStates S) (db db' : Database) (table table' : CursorStates S)
      (query : Dict String (List String)) (j c : String) (cursors : List String)
      → Distinct jobs
      → HasDistinctCursors jobs
      → sync_jobs_states jobs db table ≡ some (db', table')
      → lookup j query ≡ some cursors
      → (fetched : Dict String (Option S)) × (lookup j (fetch_cursors_states query db' table')
          ≡ some fetched)
        × (lookup c fetched ≡ (
            if elem c cursors
            then some (
                or_else
                  (written db jobs (namespace_of db j) c)
                  (lookup c (states_of (namespace_of db j) table)))
            else none))
  fetch_cursors_states-sync_jobs_states jobs db db' table table' query j c cursors d h e asked =
      let n = namespace_of db j in
      let fetched = fetch_cursors cursors (states_of n table') in
      (
        fetched,
        ground (
          arith,
          lookup-fetch_cursors_states j query db' table',
          asked,
          namespace_of-sync_jobs_states j jobs db db' table table' d e,
        ),
        lookup-fetch_cursors c cursors (states_of n table')
            ∙ rw (
              table-sync_jobs_states jobs db db' table table' e,
              lookup-upsert_all db n c jobs table h,
            ),
      )
