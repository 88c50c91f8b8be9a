-- ===== src/JobStateService/Batches.antt =====
-- The hooks of `JobStateService`: the states that a batch of items gets and the states that
-- pipelines emit. An item's `metadata` is its job's cursor and what `job_state` holds of it.
use data_lineup.Base.{
  String, Option, none, some, List, [], ◌∷◌, map, string_eq, if◌then◌else◌, or_else, ◌==◌,
}
use data_lineup.Dict.{Dict, lookup}
use data_lineup.Inventory.{truthy}
use data_lineup.JobState.{JobsStatesSyncStore, set_job_cursor_state, write}
use data_lineup.JobStateService.{CursorFormat, States, Queries, fetch_cursors_states}

-- `state_cursor` is `none` where the key is missing, `some none` where it is `None`.
pub record BatchItem (S : Type 0) : Type 0 where
  pub cursor : Option String
  pub state_cursor : Option (Option String)
  pub cursor_state : Option S

-- `config["job_state"]["cursors_states_namespace"] or name`
abbrev pub batch_namespace : Option String → String → String
batch_namespace configured name = elim (truthy configured) [ none ↦ name | some n ↦ n ]

module _ {S : Type 0} where
  abbrev pub state_cursor_of : BatchItem S → Option String
  state_cursor_of i = elim i.state_cursor [ none ↦ i.cursor | some c ↦ c ]

  abbrev pub default_state_cursor : BatchItem S → BatchItem S
  default_state_cursor i = record i { state_cursor = some (state_cursor_of i) }

  abbrev pub batch_cursors : List (BatchItem S) → List String
  batch_cursors [] = []
  batch_cursors (i ∷ is) = elim (truthy (state_cursor_of i)) [
    | none ↦ batch_cursors is
    | some c ↦ c ∷ batch_cursors is
  ]

  -- `cursors_states.get(metadata["state_cursor"])`, where `None` is no key.
  abbrev pub with_state : Dict String S → BatchItem S → BatchItem S
  with_state states i = record (default_state_cursor i) {
    cursor_state = elim (state_cursor_of i) [ none ↦ none | some c ↦ lookup c states ];
  }

  unfoldable pub on_items_batched :
      (hexdigest : String → String) (client : Queries → Option (Dict String (States S)))
      → List CursorFormat
      → String
      → List (BatchItem S)
      → Queries
      → JobsStatesSyncStore S
      → Option (List (BatchItem S))
  on_items_batched hexdigest client formats namespace items pending store =
      elim (fetch_cursors_states hexdigest client formats namespace (batch_cursors items) pending
        store) [ none ↦ none | some states ↦ some (map (with_state states) items) ]

-- The cursor that an event is about, for a message with this state cursor.
abbrev pub event_cursor : Option String → Option String → Option String
event_cursor state_cursor cursor = truthy (or_else (truthy cursor) state_cursor)

-- `none` is an event that is no `CursorStateUpdated`; else its cursor and its state.
abbrev pub Events : Type 0 → Type 0
Events S = List (Option (Option String × S))

module _ {S : Type 0} where
  unfoldable pub on_pipeline_events_emitted :
      String → Option String → Events S → JobsStatesSyncStore S → JobsStatesSyncStore S
  on_pipeline_events_emitted namespace state_cursor [] store = store
  on_pipeline_events_emitted namespace state_cursor (none ∷ events) store =
      on_pipeline_events_emitted namespace state_cursor events store
  on_pipeline_events_emitted namespace state_cursor (some (cursor, state) ∷ events) store =
      on_pipeline_events_emitted namespace state_cursor events
        (elim (event_cursor state_cursor cursor) [
          | none ↦ store
          | some c ↦ write (set_job_cursor_state namespace c state) store
        ])

  -- The state of the last event about a cursor.
  abbrev pub last_state : Option String → Events S → String → Option S
  last_state state_cursor [] c = none
  last_state state_cursor (none ∷ events) c = last_state state_cursor events c
  last_state state_cursor (some (cursor, state) ∷ events) c =
      or_else (last_state state_cursor events c) (elim (event_cursor state_cursor cursor) [
        | none ↦ none
        | some d ↦ if d == c then some state else none
      ])
