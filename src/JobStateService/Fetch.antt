-- ===== src/JobStateService/Fetch.antt =====
-- `fetch_cursors_states` of a worker, answered by the tables of the worker manager.
use data_lineup.Base.{
  String, true, false, not, ◌&&◌, Option, none, some, List, [], ◌∷◌, ==_self, string_eq,
  if◌then◌else◌, or_else, ◌≡◌, ◌≢◌, refl, ◌∙◌, arith, Option-cases, List-cases, inl, inr, is_some,
}
use data_lineup.Dict.{
  Dict, lookup, insert, update, elem, union, Distinct, lookup-update, insert-Distinct, elem-union,
}
use data_lineup.JobState.{JobsStatesSyncStore, get_local_cursors_states, missing_cursors}
use data_lineup.JobState.Reads.{elem-missing_cursors, lookup-get_local, flushing_of, state_of}
use data_lineup.JobState.Jobs.{IsWellFormed}
use data_lineup.StatesSync.{CursorStates, states_of, namespace_of, fetch_cursors}
use data_lineup.StatesSync as Tables
use data_lineup.StatesSync.Cursors.{lookup-fetch_cursors}
use data_lineup.Stores.{Database}
use data_lineup.JobStateService.{
  CursorFormat, format, FormattedRequest, all_cursors, map_key, map_states, States, Queries,
  add_query, do_fetch, fetch, fetch_cursors_states,
}
use data_lineup.JobStateService.Requests.{
  IsInjectiveOn, request, elem-all_cursors, lookup-map_states,
}

module _ {S : Type 0} where
  fetch_cursors-Distinct :
      (cursors : List String) (states : Dict String S) → Distinct (fetch_cursors cursors states)
  fetch_cursors-Distinct [] states = tt
  fetch_cursors-Distinct (c ∷ cursors) states =
      insert-Distinct c (lookup c states) (fetch_cursors cursors states)
        (fetch_cursors-Distinct cursors states)

  map_states-Distinct :
      (r : FormattedRequest) (states : States S) (mapped : Dict String S)
      → Distinct mapped
      → Distinct (map_states r states mapped)
  map_states-Distinct r [] mapped d = d
  map_states-Distinct r ((k, none) ∷ states) mapped d = map_states-Distinct r states mapped d
  map_states-Distinct r ((k, some v) ∷ states) mapped d = elim (Option-cases (map_key r k)) [
    | inl e ↦ rw e (map_states-Distinct r states mapped d)
    | inr (c, e) ↦
        rw e (map_states-Distinct r states (insert c v mapped) (insert-Distinct c v mapped d))
  ]

  module _ (hexdigest : String → String) (form : CursorFormat) (db : Database)
      (table : CursorStates S) (job : String) where
    -- The worker manager's answer to a request.
    abbrev pub serve : Queries → Option (Dict String (States S))
    serve queries = some (Tables.fetch_cursors_states queries db table)

    -- The state of a cursor in the tables, under the job's namespace.
    abbrev pub stored : String → Option S
    stored c = lookup (format hexdigest form c) (states_of (namespace_of db job) table)

    -- What a fetch returns when these are all the cursors asked for.
    abbrev fetched : List String → Dict String S
    fetched all =
        let r = request hexdigest form all in
        map_states r (fetch_cursors (all_cursors r) (states_of (namespace_of db job) table)) []

    lookup-fetched :
        (all : List String) (c : String)
        → IsInjectiveOn all (format hexdigest form)
        → lookup c (fetched all) ≡ (if elem c all then stored c else none)
    lookup-fetched all c inj =
        let r = request hexdigest form all in
        let states = states_of (namespace_of db job) table in
        ground (
          arith,
          lookup-map_states hexdigest form all inj c (fetch_cursors (all_cursors r) states) []
              (fetch_cursors-Distinct (all_cursors r) states),
          lookup-fetch_cursors (format hexdigest form c) (all_cursors r) states,
          elem-all_cursors hexdigest form all c,
        )

    fetched-Distinct : (all : List String) → Distinct (fetched all)
    fetched-Distinct all =
        let r = request hexdigest form all in
        map_states-Distinct r
          (fetch_cursors (all_cursors r) (states_of (namespace_of db job) table)) [] tt

    add_query_lem :
        (cursors others : List String)
        → add_query job cursors ((job, others) ∷ []) ≡ (job, union others cursors) ∷ []
    add_query_lem cursors others = rw (==_self job) refl

    do_fetch_lem :
        (all : List String)
        → do_fetch hexdigest serve (form ∷ []) ((job, all) ∷ []) ≡ some ((job, fetched all) ∷ [])
    unfolding do_fetch Tables.fetch_cursors_states
    do_fetch_lem all = ground (arith, ==_self job)

    fetch_lem :
        (cursors others : List String)
        → fetch hexdigest serve (form ∷ []) job cursors ((job, others) ∷ [])
          ≡ some (fetched (union others cursors))
    unfolding fetch
    fetch_lem cursors others =
        ground
          (arith, add_query_lem cursors others, do_fetch_lem (union others cursors), ==_self job)

    -- Without another query the fetch is for the cursors alone.
    fetch-alone :
        (cursors : List String)
        → fetch hexdigest serve (form ∷ []) job cursors [] ≡ some (fetched (union [] cursors))
    unfolding fetch
    fetch-alone cursors = ground (arith, do_fetch_lem (union [] cursors), ==_self job)

    module _ (store : JobsStatesSyncStore S) (cursors : List String) where
      abbrev local : Dict String S
      local = get_local_cursors_states store job cursors

      elem-missing :
          (c : String)
          → elem c (union [] (missing_cursors cursors local))
            ≡ (not (is_some (lookup c local)) && elem c cursors)
      elem-missing c =
          elem-union c [] (missing_cursors cursors local)
          ∙ ground (arith, elem-missing_cursors c cursors local)

      missing-IsInjectiveOn :
          IsInjectiveOn cursors (format hexdigest form)
          → IsInjectiveOn (union [] (missing_cursors cursors local)) (format hexdigest form)
      missing-IsInjectiveOn inj a b e f =
          inj a b (ground (arith, elem-missing a, e)) (ground (arith, elem-missing b, f))

      -- A batch that finds some cursors missing takes what the fetch returns over its own states.
      fetch_cursors_states_lem :
          (c : String) (cs : List String) (pending : Queries) (found : Dict String S)
          → missing_cursors cursors local ≡ c ∷ cs
          → fetch hexdigest serve (form ∷ []) job (c ∷ cs) pending ≡ some found
          → fetch_cursors_states hexdigest serve (form ∷ []) job cursors pending store
            ≡ some (update local found)
      unfolding fetch_cursors_states
      fetch_cursors_states_lem c cs pending found e f = ground (arith, e, f)

      fetch_cursors_states-local :
          (pending : Queries)
          → missing_cursors cursors local ≡ []
          → fetch_cursors_states hexdigest serve (form ∷ []) job cursors pending store ≡ some local
      unfolding fetch_cursors_states
      fetch_cursors_states-local pending e = ground (arith, e)

      -- A batch of cursors is answered: each has the state of the worker's current collection, or
      -- else that of the one being flushed, or else that of the tables under its key; cursors that
      -- were not asked for have none. Given that no other query waits, that no key of the flushed
      -- collection stands twice and that the cursors have different keys.
      pub fetch_cursors_states-answers :
          IsWellFormed (flushing_of store.flushing_state)
          → IsInjectiveOn cursors (format hexdigest form)
          → (states : Dict String S) × (fetch_cursors_states hexdigest serve
                (form ∷ [])
                job
                cursors
                []
                store
              ≡ some states)
            × ((c : String)
                → lookup c states ≡ (
                    if elem c cursors
                    then or_else
                        (state_of store.current_state job c)
                        (or_else (state_of (flushing_of store.flushing_state) job c) (stored c))
                    else none))
      fetch_cursors_states-answers f inj = elim (List-cases (missing_cursors cursors local)) [
        | inl e ↦ (
          local,
          fetch_cursors_states-local [] e,
          λ c.
              let missed : false ≡ (not (is_some (lookup c local)) && elem c cursors) =
                rw (← elem-missing_cursors c cursors local, e) in
              ground (arith, lookup-get_local store job c cursors f, missed),
        )
        | inr (m, ms, e) ↦
            let all = union [] (m ∷ ms) in
            (
              update local (fetched all),
              fetch_cursors_states_lem m ms [] (fetched all) e (fetch-alone (m ∷ ms)),
              λ c.
                  let asked : elem c all ≡ (not (is_some (lookup c local)) && elem c cursors) =
                    rw e at elem-missing c in
                  lookup-update c local (fetched all) (fetched-Distinct all)
                  ∙ ground (
                    arith,
                    lookup-get_local store job c cursors f,
                    asked,
                    lookup-fetched all c (rw e at missing-IsInjectiveOn inj),
                  ),
            )
      ]

      -- A cursor that another call asked for, whose query still waits, is answered with the state
      -- of the tables, whether or not the worker has a later one of its own. Given that the tables
      -- have one, that something of this batch is missing and that the cursors have different keys.
      pub fetch_cursors_states-stale :
          (c : String) (others : List String) (old : S)
          → missing_cursors cursors local ≢ []
          → IsInjectiveOn (union others (missing_cursors cursors local)) (format hexdigest form)
          → elem c others ≡ true
          → stored c ≡ some old
          → (states : Dict String S) × (fetch_cursors_states hexdigest serve
                (form ∷ [])
                job
                cursors
                ((job, others) ∷ [])
                store
              ≡ some states)
            × (lookup c states ≡ some old)
      fetch_cursors_states-stale c others old some_missing inj asked there =
          elim (List-cases (missing_cursors cursors local)) [
            | inl e ↦ absurd (some_missing e)
            | inr (m, ms, e) ↦
                let found = fetched (union others (m ∷ ms)) in
                (
                  update local found,
                  fetch_cursors_states_lem m ms ((job, others) ∷ []) found e
                      (fetch_lem (m ∷ ms) others),
                  lookup-update c local found (fetched-Distinct (union others (m ∷ ms)))
                      ∙ ground (
                        arith,
                        there,
                        asked,
                        elem-union c others (m ∷ ms),
                        lookup-fetched (union others (m ∷ ms)) c (rw e at inj),
                      ),
                )
          ]
