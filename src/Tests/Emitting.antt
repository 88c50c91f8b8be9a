-- ===== src/Tests/Emitting.antt =====
-- A hook with two handlers, of which one is a generator that waits for the scope.
use data_lineup.Base.{ℕ, true, [], ◌∷◌}
use data_lineup.Hooks.{Handler, Hook, Outcome, error, returns, waits, stops, raises}

abbrev logging : Handler ℕ ℕ
logging = record {
  id = 1;
  on_call = λ a. returns;
  call_error = λ a. 0;
  on_send = λ r. stops;
  on_throw = λ e. stops;
}

abbrev timing : Handler ℕ ℕ
timing = record {
  id = 2;
  on_call = λ a. waits;
  call_error = λ a. 0;
  on_send = λ r. raises 9;
  on_throw = λ e. stops;
}

abbrev hook : Hook ℕ ℕ
hook = record { handlers = logging ∷ timing ∷ []; has_error_handler = true }

abbrev failing : ℕ → Outcome ℕ ℕ
failing a = error 5
