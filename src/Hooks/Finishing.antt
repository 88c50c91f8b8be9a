-- ===== src/Hooks/Finishing.antt =====
-- A scope's handlers: each is called, in order, and each generator that waits is resumed once, in
-- reverse, with the scope's outcome; no failure of one keeps another from it.
use data_lineup.Base.{ℕ, List, [], ◌∷◌, ◌++◌, map, nat_eq, ◌≡◌, refl, arith}
use data_lineup.Hooks.{
  Exception, waits, Handler, Hook, Outcome, Event, called, resumed, handle_error, call_handlers,
  on_call,
}

module _ {A R : Type 0} where
  -- The handlers that were called, and those resumed with what, in the log's order.
  abbrev pub calls_of : List (Event A R) → List ℕ
  calls_of [] = []
  calls_of (called i ∷ log) = i ∷ calls_of log
  calls_of (_ ∷ log) = calls_of log

  abbrev pub resumptions_of : List (Event A R) → List (ℕ × Outcome A R)
  resumptions_of [] = []
  resumptions_of (resumed i o ∷ log) = (i, o) ∷ resumptions_of log
  resumptions_of (_ ∷ log) = resumptions_of log

  -- The handlers whose generator waits after the call.
  abbrev pub waiting : A → List (Handler A R) → List (Handler A R)
  waiting arg [] = []
  waiting arg (h ∷ hs) =
      let rest = waiting arg hs in elim (h.on_call arg) [ waits ↦ h ∷ rest | _ ↦ rest ]

  abbrev pub ids : List (Handler A R) → List ℕ
  ids = map (λ h. h.id)

  handle_error-silent :
      (hook : Hook A R) (e : Exception) (log : List (Event A R))
      → (calls_of (handle_error hook e ++ log) ≡ calls_of log)
        × (resumptions_of (handle_error hook e ++ log) ≡ resumptions_of log)
  handle_error-silent hook e log = ground arith

  call_handlers-calls :
      (hook : Hook A R) (arg : A) (hs : List (Handler A R))
      → calls_of (call_handlers hook arg hs) ≡ ids hs
  unfolding call_handlers
  call_handlers-calls hook arg [] = refl
  call_handlers-calls hook arg (h ∷ hs) = ground (arith, call_handlers-calls hook arg hs)
