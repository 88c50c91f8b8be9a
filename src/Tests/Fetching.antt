-- ===== src/Tests/Fetching.antt =====
-- A worker that has collected a state, in front of tables with two states.
use Prim.Native.String.{◌++◌ as ◌<+>◌}
use Prim.Native.String.append
use data_lineup.Base.{
  ℕ, String, true, false, none, some, List, [], ◌∷◌, map, string_eq, ◌≡◌, ◌≢◌, refl, or_else, ◌⊎◌,
}
use data_lineup.Dict.{Dict, lookup}
use data_lineup.JobState.{
  JobsStatesSyncStore, JobState, missing_cursors, get_local_cursors_states, get_cursors_states,
}
use data_lineup.JobState.Reads.{state_of, flushing_of}
use data_lineup.Stores.{Database}
use data_lineup.StatesSync.{CursorStates, namespace_of}
use data_lineup.StatesSync.Cursors.{written}
use data_lineup.JobStateService.{sha256, format, fetch_cursors_states, flush}
use data_lineup.JobStateService.Requests.{IsInjectiveOn}
use data_lineup.JobStateService.Fetch.{serve, stored, fetch_cursors_states-stale}
use data_lineup.JobStateService.Batches.{
  BatchItem, Events, last_state, on_items_batched, on_pipeline_events_emitted,
}
use data_lineup.JobStateService.Answered.{given_state, on_items_batched-emitted}
use data_lineup.JobStateService.Flushed.{sync_tables, flush-stored}

-- A digest without collisions.
abbrev hexdigest : String → String
hexdigest c = c

abbrev database : Database
database = record { queues = []; jobs = [] }

abbrev table : CursorStates ℕ
table = ("users", ("sha256:a", 1) ∷ ("sha256:b", 2) ∷ []) ∷ []

abbrev collected : JobState ℕ
collected = record { cursor = none; cursors_states = ("a", 10) ∷ []; completion = none }

abbrev store : JobsStatesSyncStore ℕ
store = record { current_state = ("users", collected) ∷ []; flushing_state = none }

abbrev item : String → BatchItem ℕ
item c = record { cursor = some c; state_cursor = none; cursor_state = none }

abbrev items : List (BatchItem ℕ)
items = item "a" ∷ item "b" ∷ item "c" ∷ []

abbrev events : Events ℕ
events = none ∷ some (some "c", 30) ∷ some (none, 20) ∷ []

append_cancel : (r a b : String) → r <+> a ≡ r <+> b → a ≡ b
append_cancel String.[] a b e = rw (append.nil a, append.nil b) at e
append_cancel (String.◌∷◌ c r) a b e =
    let split : String.◌∷◌ c (r <+> a) ≡ String.◌∷◌ c (r <+> b) =
      rw (append.cons c r a, append.cons c r b) at e in
    append_cancel r a b (cc split)

sha256_injective : (cursors : List String) → IsInjectiveOn cursors (format hexdigest sha256)
sha256_injective cursors a b e f p = append_cancel "sha256:" a b p

on_items_batched-emitted_example :
    on_items_batched hexdigest
      (serve hexdigest sha256 database table "users")
      (sha256 ∷ [])
      "users"
      items
      []
      (on_pipeline_events_emitted "users" (some "b") events store)
    ≡ some (
        map
          (given_state (λ c. or_else (last_state (some "b") events c) (
            or_else (state_of store.current_state "users" c) (
              or_else
                (state_of (flushing_of store.flushing_state) "users" c)
                (stored hexdigest sha256 database table "users" c)))))
          items)
on_items_batched-emitted_example =
    on_items_batched-emitted hexdigest sha256 database table "users" (some "b") events store items
      tt (sha256_injective ("a" ∷ "b" ∷ "c" ∷ []))

b_missing :
    missing_cursors ("a" ∷ "b" ∷ []) (get_local_cursors_states store "users" ("a" ∷ "b" ∷ [])) ≢ []
unfolding get_local_cursors_states get_cursors_states
b_missing e = absurd (cc e)

abbrev a_waits : List String
a_waits = "a" ∷ []

fetch_cursors_states-stale_example :
    (states : Dict String ℕ) × (fetch_cursors_states hexdigest
        (serve hexdigest sha256 database table "users")
        (sha256 ∷ [])
        "users"
        ("a" ∷ "b" ∷ [])
        (("users", a_waits) ∷ [])
        store
      ≡ some states)
    × (lookup "a" states ≡ some 1)
unfolding get_local_cursors_states
fetch_cursors_states-stale_example =
    fetch_cursors_states-stale hexdigest sha256 database table "users" store ("a" ∷ "b" ∷ []) "a"
      a_waits 1 b_missing (sha256_injective ("b" ∷ "a" ∷ [])) refl refl

flush-stored_example :
    let flushed = flush sync_tables (format hexdigest sha256) store (database, table) in
    ((flushed.0 ≡ true)
      × (flushed.1.0.current_state ≡ [])
      × (stored hexdigest sha256 flushed.1.1.0 flushed.1.1.1 "users" "a"
          ≡ or_else
              (written database store.current_state (namespace_of database "users") "a")
              (stored hexdigest sha256 database table "users" "a")))
    ⊎ ((flushed.0 ≡ false)
        × (flushed.1.0 ≡ record store { flushing_state = none })
        × (flushed.1.1 ≡ (database, table)))
flush-stored_example =
    flush-stored hexdigest sha256 store database table "users" "a" (refl, (refl, tt), tt)
      ((λ k e f. append_cancel "sha256:" k "a" f), tt)
