-- ===== src/JobStateService.antt =====
-- worker/services/job_state/service.py: `CursorFormat`, `FormattedRequest`, `CursorsStatesFetcher`
-- and `JobStateService`, which answers a batch of items with the states of their cursors and writes
-- the states that pipelines emit. The digest of a string and the answer of the api's client, `none`
-- where it raises, are arguments. A fetch runs with the queries that wait by then; the throttle
-- that joins the calls is modelled on its own, in Throttle.
pub mod Requests
pub mod Fetch
pub mod Flushed
pub mod Batches
pub mod Answered
use Prim.Native.String.{◌++◌ as ◌<+>◌}
use data_lineup.Base.{
  ℕ, String, Bool, true, false, Option, none, some, List, [], ◌∷◌, map, string_eq, if◌then◌else◌,
  or_else,
}
use data_lineup.Dict.{Dict, lookup, insert, update, keys, union}
use data_lineup.Inventory.{truthy}
use data_lineup.JobState.{
  JobState, JobsStates, JobsStatesSyncStore, set_job_cursor_state, write, get_local_cursors_states,
  missing_cursors, begin_flush, fail_flush, is_jobs_empty,
}

pub data CursorFormat : Type 0 where
  raw sha256 : CursorFormat

abbrev pub format : (hexdigest : String → String) → CursorFormat → String → String
format hexdigest raw cursor = cursor
format hexdigest sha256 cursor = "sha256:" <+> hexdigest cursor

pub record FormattedRequest : Type 0 where
  pub by_cursor : Dict String (List String)
  pub by_formatted : Dict String String

-- The loop of `from_cursors`, from the tables so far.
abbrev pub extend_request :
    (hexdigest : String → String)
    → List CursorFormat
    → List String
    → FormattedRequest
    → FormattedRequest
extend_request hexdigest formats [] r = r
extend_request hexdigest formats (cursor ∷ cursors) r =
    let formatted = map (λ f. format hexdigest f cursor) formats in
    extend_request hexdigest formats cursors (record {
      by_cursor = insert cursor formatted r.by_cursor;
      by_formatted = update r.by_formatted (map (λ k. (k, cursor)) formatted);
    })

abbrev pub from_cursors :
    (hexdigest : String → String) → List CursorFormat → List String → FormattedRequest
from_cursors hexdigest formats cursors =
    extend_request hexdigest formats cursors (record { by_cursor = []; by_formatted = [] })

abbrev pub all_cursors : FormattedRequest → List String
all_cursors r = keys r.by_formatted

abbrev pub map_key : FormattedRequest → String → Option String
map_key r key = lookup key r.by_formatted

abbrev pub Queries : Type 0
Queries = Dict String (List String)

abbrev pub format_queries :
    (hexdigest : String → String) → List CursorFormat → Queries → Dict String FormattedRequest
format_queries hexdigest formats [] = []
format_queries hexdigest formats ((job, cursors) ∷ queries) =
    (job, from_cursors hexdigest formats cursors) ∷ format_queries hexdigest formats queries

abbrev pub keys_of : Dict String FormattedRequest → Queries
keys_of [] = []
keys_of ((job, r) ∷ requests) = (job, all_cursors r) ∷ keys_of requests

-- `self.pending_queries[job_name].update(cursors)`
abbrev pub add_query : String → List String → Queries → Queries
add_query job_name cursors pending =
    insert job_name (union (elim (lookup job_name pending) [ none ↦ [] | some old ↦ old ]) cursors)
      pending

abbrev pub States : Type 0 → Type 0
States S = Dict String (Option S)

module _ {S : Type 0} where
  -- The inner comprehension of `_do_fetch`: the states of one job, by their original cursors.
  abbrev pub map_states : FormattedRequest → States S → Dict String S → Dict String S
  map_states r [] mapped = mapped
  map_states r ((key, none) ∷ states) mapped = map_states r states mapped
  map_states r ((key, some v) ∷ states) mapped =
      map_states r states (elim (map_key r key) [ none ↦ mapped | some c ↦ insert c v mapped ])

  -- The loop over the jobs of the response; a job that was not asked for raises.
  abbrev pub map_response :
      Dict String FormattedRequest
      → Dict String (States S)
      → Dict String (Dict String S)
      → Option (Dict String (Dict String S))
  map_response requests [] mapped = some mapped
  map_response requests ((job, states) ∷ response) mapped = elim (lookup job requests) [
    | none ↦ none
    | some r ↦ map_response requests response (insert job (map_states r states []) mapped)
  ]

  module _ (hexdigest : String → String) (client : Queries → Option (Dict String (States S))) where
    -- The queries that were pending are dropped, whatever the client does.
    unfoldable pub do_fetch : List CursorFormat → Queries → Option (Dict String (Dict String S))
    do_fetch formats queries =
        let requests = format_queries hexdigest formats queries in
        elim (client (keys_of requests)) [
          | none ↦ none
          | some response ↦ map_response requests response []
        ]

    -- `CursorsStatesFetcher.fetch`
    unfoldable pub fetch :
        List CursorFormat → String → List String → Queries → Option (Dict String S)
    unfolding do_fetch
    fetch formats job_name cursors pending =
        elim (do_fetch formats (add_query job_name cursors pending)) [
          | none ↦ none
          | some result ↦ some (elim (lookup job_name result) [ none ↦ [] | some states ↦ states ])
        ]

    unfoldable pub fetch_cursors_states :
        List CursorFormat
        → String
        → List String
        → Queries
        → JobsStatesSyncStore S
        → Option (Dict String S)
    unfolding fetch
    fetch_cursors_states formats job_name cursors pending store =
        let states = get_local_cursors_states store job_name cursors in
        elim (missing_cursors cursors states) [
          | [] ↦ some states
          | c ∷ cs ↦ elim (fetch formats job_name (c ∷ cs) pending) [
            | none ↦ none
            | some fetched ↦ some (update states fetched)
          ]
        ]

  -- `_prepare_jobs_states`
  abbrev pub format_states : (String → String) → Dict String S → Dict String S → Dict String S
  format_states f [] formatted = formatted
  format_states f ((k, v) ∷ states) formatted = format_states f states (insert (f k) v formatted)

  abbrev pub prepare_jobs_states : (String → String) → JobsStates S → JobsStates S
  prepare_jobs_states f [] = []
  prepare_jobs_states f ((job, state) ∷ jobs) =
      (job, record state { cursors_states = format_states f state.cursors_states [] })
      ∷ prepare_jobs_states f jobs

  -- `flush`, with what the client's `sync` does to the state of the world `W`, and whether it
  -- returns. An error leaves by the store's `except`, which puts the states back.
  unfoldable pub flush :
      {W : Type 0} (sync : JobsStates S → W → Bool × W) (f : String → String)
      → JobsStatesSyncStore S
      → W
      → Bool × (JobsStatesSyncStore S × W)
  flush sync f store w =
      if is_jobs_empty store.current_state
      then (true, (begin_flush store, w))
      else (let (returned, w') = sync (prepare_jobs_states f store.current_state) w in
          if returned
          then (true, (begin_flush store, w'))
          else (false, (fail_flush (begin_flush store), w')))
