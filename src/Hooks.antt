-- ===== src/Hooks.antt =====
-- utils/hooks.py: handlers of events and of scopes. A handler is named by a number and described
-- by what its call and its generator do; the asynchronous classes run the same code with `await`.
-- An exception is named by a number, its identity. What the error handler is given is kept in the
-- log, in order; the error handler itself returns.
pub mod Finishing
use data_lineup.Base.{
  ℕ, Bool, true, false, Option, none, some, List, [], ◌∷◌, ◌++◌, eqb, if◌then◌else◌, ◌==◌, nat_eq,
}
use mathlib.Core.List.{reverse}

-- `must_yield_once` is the `ValueError` that the emiter makes.
pub data Exception : Type 0 where
  raised : ℕ → Exception
  must_yield_once : Exception

-- What a generator does where it is resumed: it stops, raises, or yields again, and then raises
-- or not where it is closed.
pub data Resumed : Type 0 where
  stops : Resumed
  raises : ℕ → Resumed
  yields : (close : Option ℕ) → Resumed

-- What a handler does where it is called. A generator is then started: it stops, raises or yields.
pub data Called : Type 0 where
  returns fails stops_at_once fails_at_once waits : Called

module _ (A R : Type 0) where
  pub record Handler : Type 0 where
    pub id : ℕ
    pub on_call : A → Called
    pub call_error : A → ℕ  -- what is raised, where `on_call` fails
    pub on_send : R → Resumed
    pub on_throw : ℕ → Resumed

  pub record Hook : Type 0 where
    pub handlers : List Handler
    pub has_error_handler : Bool

  -- The outcome of the scope.
  pub data Outcome : Type 0 where
    result : R → Outcome
    error : ℕ → Outcome

  pub data Event : Type 0 where
    called : ℕ → Event
    resumed : ℕ → Outcome → Event
    handled : Exception → Event

module _ {A R : Type 0} where
  -- `Handlers.register`
  abbrev pub register : Handler A R → Hook A R → Hook A R
  register h hook = record hook { handlers = hook.handlers ++ h ∷ [] }

  -- `list.remove` drops the first; `none` is its `ValueError`.
  abbrev pub remove_first : ℕ → List (Handler A R) → Option (List (Handler A R))
  remove_first i [] = none
  remove_first i (h ∷ hs) =
      let rest = elim (remove_first i hs) as (λ _. Option (List (Handler A R))) [
        | none ↦ none
        | some hs' ↦ some (h ∷ hs')
      ] in
      if h.id == i then some hs else rest

  abbrev pub unregister : ℕ → Hook A R → Option (Hook A R)
  unregister i hook = elim (remove_first i hook.handlers) [
    | none ↦ none
    | some hs ↦ some (record hook { handlers = hs })
  ]

  abbrev pub handle_error : Hook A R → Exception → List (Event A R)
  handle_error hook e = if hook.has_error_handler then handled e ∷ [] else []

  -- `call_handlers`, the `emit` of an `EventHook`: a generator that is returned is not started.
  unfoldable pub call_handlers : Hook A R → A → List (Handler A R) → List (Event A R)
  call_handlers hook arg [] = []
  call_handlers hook arg (h ∷ hs) =
      let rest = call_handlers hook arg hs in
      called h.id
        ∷ (elim (h.on_call arg) [ fails ↦ handle_error hook (raised (h.call_error arg)) | _ ↦ [] ])
      ++ rest

  -- The generators that wait, and the log.
  unfoldable pub on_call : Hook A R → A → List (Handler A R) → List (Handler A R) × List (Event A R)
  on_call hook arg [] = ([], [])
  on_call hook arg (h ∷ hs) =
      let (generators, log) = on_call hook arg hs in
      let failed = handle_error hook (raised (h.call_error arg)) in
      elim (h.on_call arg) [
        | returns ↦ (generators, called h.id ∷ log)
        | fails ↦ (generators, called h.id ∷ failed ++ log)
        | stops_at_once ↦ (generators, called h.id ∷ log)
        | fails_at_once ↦ (generators, called h.id ∷ failed ++ log)
        | waits ↦ (h ∷ generators, called h.id ∷ log)
      ]

  abbrev pub closed : Hook A R → Option ℕ → List (Event A R)
  closed hook none = handle_error hook must_yield_once
  closed hook (some e) = handle_error hook (raised e)

  -- The loop of `on_result`, over the generators in reverse.
  abbrev pub send_all : Hook A R → R → List (Handler A R) → List (Event A R)
  send_all hook r [] = []
  send_all hook r (g ∷ gs) =
      let rest = send_all hook r gs in
      resumed g.id (result r) ∷ (elim (g.on_send r) [
        | stops ↦ []
        | raises e ↦ handle_error hook (raised e)
        | yields close ↦ closed hook close
      ])
      ++ rest

  -- An exception that is the scope's own is not handled again.
  abbrev pub handle_other : Hook A R → ℕ → ℕ → List (Event A R)
  handle_other hook own e = if e == own then [] else handle_error hook (raised e)

  -- The loop of `on_error`.
  abbrev pub throw_all : Hook A R → ℕ → List (Handler A R) → List (Event A R)
  throw_all hook e [] = []
  throw_all hook e (g ∷ gs) =
      let rest = throw_all hook e gs in
      resumed g.id (error e) ∷ (elim (g.on_throw e) [
        | stops ↦ []
        | raises e' ↦ handle_other hook e e'
        | yields none ↦ handle_error hook must_yield_once
        | yields (some e') ↦ handle_other hook e e'
      ])
      ++ rest

  unfoldable pub on_result : Hook A R → List (Handler A R) → R → List (Event A R)
  on_result hook generators r = send_all hook r (reverse generators)

  unfoldable pub on_error : Hook A R → List (Handler A R) → ℕ → List (Event A R)
  on_error hook generators e = throw_all hook e (reverse generators)

  -- `ContextHookEmiter.__call__`
  unfoldable pub emit_context :
      Hook A R → (scope : A → Outcome A R) → A → Outcome A R × List (Event A R)
  unfolding on_call on_result on_error
  emit_context hook scope arg =
      let (generators, log) = on_call hook arg hook.handlers in
      let outcome = scope arg in
      (
        outcome,
        log ++ (elim outcome [
          | result r ↦ on_result hook generators r
          | error e ↦ on_error hook generators e
        ]),
      )
