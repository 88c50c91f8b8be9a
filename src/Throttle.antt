-- ===== src/Throttle.antt =====
-- `DelayedThrottle` of utils/asyncutils.py: calls that are joined and run after a delay. A future is
-- named by the order of its creation; `succeeded` and `failed` hold those that are set, and `ran`
-- the parameters of the runs, latest first. `fire` is `_delay_call` after its wait, up to the run of
-- the function, and `finish_run` what follows it. `flush` only ends the wait. A task that is
-- cancelled has begun to wait; that to set a future twice raises is left out.
pub mod Served
use data_lineup.Base.{ℕ, ◌+◌, Bool, true, false, Option, none, some, List, [], ◌∷◌, if◌then◌else◌}

-- Where `delayed_task` is; `running` has the future that the run will set.
pub data Phase : Type 0 where
  idle waiting : Phase
  running : Option ℕ → Phase

pub record DelayedThrottle (P : Type 0) : Type 0 where
  pub delayed_params : Option P
  pub phase : Phase
  pub call_fut : Option ℕ
  pub next_fut : ℕ
  pub succeeded : List ℕ
  pub failed : List ℕ
  pub ran : List P

module _ {P : Type 0} where
  abbrev pub init : DelayedThrottle P
  init = record {
    delayed_params = none;
    phase = idle;
    call_fut = none;
    next_fut = 0;
    succeeded = [];
    failed = [];
    ran = [];
  }

  unfoldable pub call_nowait : P → DelayedThrottle P → DelayedThrottle P
  call_nowait p s = record s {
    delayed_params = some p;
    phase = elim s.phase [ idle ↦ waiting | waiting ↦ waiting | running f ↦ running f ];
  }

  -- `__call__`, with the future it returns.
  unfoldable pub call : P → DelayedThrottle P → ℕ × DelayedThrottle P
  unfolding call_nowait
  call p s = elim s.call_fut [
    | none ↦ (
      s.next_fut,
      call_nowait p (record s { call_fut = some s.next_fut; next_fut = s.next_fut + 1 }),
    )
    | some f ↦ (f, call_nowait p s)
  ]

  -- `set_result` or `set_exception`, where there is a future.
  abbrev pub settle : Bool → Option ℕ → DelayedThrottle P → DelayedThrottle P
  settle has_result none s = s
  settle has_result (some f) s =
      if has_result
      then record s { succeeded = f ∷ s.succeeded }
      else record s { failed = f ∷ s.failed }

  -- The last `finally` of `_delay_call`.
  unfoldable pub end_task : DelayedThrottle P → DelayedThrottle P
  unfolding call_nowait
  end_task s = elim s.delayed_params [
    | none ↦ record s { phase = idle }
    | some p ↦ call_nowait p (record s { phase = idle })
  ]

  unfoldable pub fire : DelayedThrottle P → DelayedThrottle P
  unfolding end_task
  fire s = elim s.delayed_params [
    | none ↦ end_task (settle false s.call_fut s)
    | some p ↦ record s {
      delayed_params = none;
      call_fut = none;
      phase = running s.call_fut;
      ran = p ∷ s.ran;
    }
  ]

  unfoldable pub finish_run : (has_result : Bool) → Option ℕ → DelayedThrottle P → DelayedThrottle P
  unfolding end_task
  finish_run has_result f s = end_task (settle has_result f s)

  -- `cancel`, with the end of the task that it cancels.
  unfoldable pub cancel : DelayedThrottle P → DelayedThrottle P
  unfolding end_task
  cancel s =
      let s' = record s { delayed_params = none } in
      elim s.phase [
        | idle ↦ s'
        | waiting ↦ end_task (settle false s.call_fut s')
        | running f ↦ end_task (settle false f s')
      ]
