-- ===== src/JobStateService/Answered.antt =====
-- What a batch of items gets after pipelines have emitted states.
use data_lineup.Base.{
  String, true, false, Option, none, some, List, [], ◌∷◌, map, string_eq, if◌then◌else◌, or_else,
  ◌≡◌, refl, ◌∙◌, ap, arith, ◌==◌, ==_iff, Bool-cases, Option-cases, inl, inr,
}
use data_lineup.Dict.{Dict, lookup, insert, elem, lookup-insert}
use data_lineup.Inventory.{truthy, is_empty}
use data_lineup.JobState.{JobsStatesSyncStore, set_job_cursor_state, write, write_jobs, get_state}
use data_lineup.JobState.Jobs.{IsWellFormed}
use data_lineup.JobState.Reads.{state_of, flushing_of}
use data_lineup.StatesSync.{CursorStates}
use data_lineup.Stores.{Database}
use data_lineup.JobStateService.{CursorFormat, format, States, Queries, fetch_cursors_states}
use data_lineup.JobStateService.Requests.{IsInjectiveOn}
use data_lineup.JobStateService.Fetch.{stored, serve, fetch_cursors_states-answers}
use data_lineup.JobStateService.Batches.{
  BatchItem, state_cursor_of, default_state_cursor, batch_cursors, with_state, on_items_batched,
  Events, event_cursor, on_pipeline_events_emitted, last_state,
}

truthy-some :
    (o : Option String) (c : String) → truthy o ≡ some c → (o ≡ some c) × (is_empty c ≡ false)
truthy-some none c e = absurd (cc e)
truthy-some (some d) c e = elim (Bool-cases (is_empty d)) [
  | inl f ↦ absurd (ground (arith, e, f))
  | inr f ↦ ground (arith, e, f)
]

module _ {S : Type 0} where
  write-state_of :
      (namespace d j c : String) (state : S) (store : JobsStatesSyncStore S)
      → state_of (write (set_job_cursor_state namespace d state) store).current_state j c ≡ (
          if namespace == j
          then (if d == c then some state else state_of store.current_state j c)
          else state_of store.current_state j c)
  unfolding write write_jobs
  write-state_of namespace d j c state store = ground (
    arith,
    lookup-insert namespace j
        (record (get_state store.current_state namespace) {
          cursors_states = insert d state (get_state store.current_state namespace).cursors_states;
        })
        store.current_state,
    lookup-insert d c state (get_state store.current_state namespace).cursors_states,
    ==_iff namespace j,
  )

  state_of-emitted :
      (namespace : String) (state_cursor : Option String) (events : Events S)
      (store : JobsStatesSyncStore S) (j c : String)
      → state_of (on_pipeline_events_emitted namespace state_cursor events store).current_state j c
        ≡ or_else
            (if namespace == j then last_state state_cursor events c else none)
            (state_of store.current_state j c)
  unfolding on_pipeline_events_emitted
  state_of-emitted namespace state_cursor [] store j c = ground arith
  state_of-emitted namespace state_cursor (none ∷ events) store j c =
      state_of-emitted namespace state_cursor events store j c
  state_of-emitted namespace state_cursor (some (cursor, state) ∷ events) store j c =
      elim (Option-cases (event_cursor state_cursor cursor)) [
        | inl e ↦ ground (arith, e, state_of-emitted namespace state_cursor events store j c)
        | inr (d, e) ↦ ground (
          arith,
          e,
          state_of-emitted namespace state_cursor events
              (write (set_job_cursor_state namespace d state) store) j c,
          write-state_of namespace d j c state store,
        )
      ]

  flushing_state-emitted :
      (namespace : String) (state_cursor : Option String) (events : Events S)
      (store : JobsStatesSyncStore S)
      → (on_pipeline_events_emitted namespace state_cursor events store).flushing_state
        ≡ store.flushing_state
  unfolding on_pipeline_events_emitted write
  flushing_state-emitted namespace state_cursor [] store = refl
  flushing_state-emitted namespace state_cursor (none ∷ events) store =
      flushing_state-emitted namespace state_cursor events store
  flushing_state-emitted namespace state_cursor (some (cursor, state) ∷ events) store =
      elim (Option-cases (event_cursor state_cursor cursor)) [
        | inl e ↦
            rw (on_pipeline_events_emitted, e)
              (flushing_state-emitted namespace state_cursor events store)
        | inr (d, e) ↦
            rw (on_pipeline_events_emitted, e)
              (flushing_state-emitted namespace state_cursor events
                (write (set_job_cursor_state namespace d state) store))
      ]

  -- No empty cursor is asked for.
  batch_cursors-text :
      (items : List (BatchItem S)) (c : String)
      → elem c (batch_cursors items) ≡ true
      → is_empty c ≡ false
  batch_cursors-text [] c e = absurd (cc e)
  batch_cursors-text (i ∷ is) c e = elim (Option-cases (truthy (state_cursor_of i))) [
    | inl f ↦ batch_cursors-text is c (ground (arith, f, e))
    | inr (d, f) ↦
        ground
          (arith, f, e, truthy-some (state_cursor_of i) d f, ==_iff d c, batch_cursors-text is c)
  ]

  abbrev pub given_state : (String → Option S) → BatchItem S → BatchItem S
  given_state found i = record (default_state_cursor i) {
    cursor_state = elim (truthy (state_cursor_of i)) [ none ↦ none | some c ↦ found c ];
  }

  asked_later :
      (i : BatchItem S) (is : List (BatchItem S)) (c : String)
      → elem c (batch_cursors is) ≡ true
      → elem c (batch_cursors (i ∷ is)) ≡ true
  asked_later i is c e = ground (arith, e)

  map-with_state :
      (states : Dict String S) (found : String → Option S) (cursors : List String)
      (items : List (BatchItem S))
      → ((c : String) → elem c cursors ≡ true → is_empty c ≡ false)
      → ((c : String) → elem c (batch_cursors items) ≡ true → elem c cursors ≡ true)
      → ((c : String) → lookup c states ≡ (if elem c cursors then found c else none))
      → map (with_state states) items ≡ map (given_state found) items
  map-with_state states found cursors [] text sub reads = refl
  map-with_state states found cursors (i ∷ is) text sub reads =
      let rest =
        map-with_state states found cursors is text (λ c e. sub c (asked_later i is c e)) reads in
      elim (Option-cases (state_cursor_of i)) [
        | inl e ↦ ground (arith, e, rest)
        | inr (c, e) ↦ elim (Bool-cases (is_empty c)) [
          | inl f ↦ ground (arith, e, f, rest, reads c, text c)
          | inr f ↦ ground (arith, e, f, rest, reads c, sub c, ==_iff c c)
        ]
      ]

  on_items_batched_lem :
      (hexdigest : String → String) (client : Queries → Option (Dict String (States S)))
      (formats : List CursorFormat) (namespace : String) (items : List (BatchItem S))
      (store : JobsStatesSyncStore S) (states : Dict String S)
      → fetch_cursors_states hexdigest client formats namespace (batch_cursors items) [] store
        ≡ some states
      → on_items_batched hexdigest client formats namespace items [] store
        ≡ some (map (with_state states) items)
  unfolding on_items_batched
  on_items_batched_lem hexdigest client formats namespace items store states e = ground (arith, e)

  module _ (hexdigest : String → String) (form : CursorFormat) (db : Database)
      (table : CursorStates S) where
    -- A batch after a pipeline has emitted events under the same namespace: every item gets the
    -- state of the last event about its cursor, or else the one that the worker collected before,
    -- or that it is flushing, or that the tables have under the cursor's key; an item without a
    -- cursor gets none. Given that no other query waits, that no key of the flushed collection
    -- stands twice and that the cursors of the batch have different keys.
    pub on_items_batched-emitted :
        (namespace : String) (state_cursor : Option String) (events : Events S)
        (store : JobsStatesSyncStore S) (items : List (BatchItem S))
        → IsWellFormed (flushing_of store.flushing_state)
        → IsInjectiveOn (batch_cursors items) (format hexdigest form)
        → on_items_batched hexdigest
            (serve hexdigest form db table namespace)
            (form ∷ [])
            namespace
            items
            []
            (on_pipeline_events_emitted namespace state_cursor events store)
          ≡ some (
              map
                (given_state (λ c. or_else (last_state state_cursor events c) (
                  or_else (state_of store.current_state namespace c) (
                    or_else
                      (state_of (flushing_of store.flushing_state) namespace c)
                      (stored hexdigest form db table namespace c)))))
                items)
    on_items_batched-emitted namespace state_cursor events store items w inj =
        let store' = on_pipeline_events_emitted namespace state_cursor events store in
        let same = flushing_state-emitted namespace state_cursor events store in
        let (states, answered, reads) =
          fetch_cursors_states-answers hexdigest form db table namespace store'
            (batch_cursors items) (rw same w) inj in
        let found = λ (c : String). or_else (last_state state_cursor events c) (
          or_else (state_of store.current_state namespace c) (
            or_else (state_of (flushing_of store.flushing_state) namespace c)
              (stored hexdigest form db table namespace c))) in
        on_items_batched_lem hexdigest (serve hexdigest form db table namespace) (form ∷ [])
          namespace items store' states answered
        ∙ ap some (
            map-with_state states found (batch_cursors items) items (batch_cursors-text items)
              (λ c e. e)
              (λ c. ground (
                arith,
                reads c,
                state_of-emitted namespace state_cursor events store namespace c,
                same,
                ==_iff namespace namespace,
              )))
