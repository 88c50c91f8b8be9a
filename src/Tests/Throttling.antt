-- ===== src/Tests/Throttling.antt =====
-- A throttle with one call that waits.
use data_lineup.Base.{ℕ, some, nat_eq, ◌≡◌, refl}
use data_lineup.Throttle.{DelayedThrottle, waiting, call, call_nowait, cancel}
use data_lineup.Throttle as Calls
use data_lineup.Throttle.Served.{start, after_call, IsServed, Reach-IsServed}

abbrev called : DelayedThrottle ℕ
called = (call 5 Calls.init).1

Reach-IsServed_example : IsServed called
Reach-IsServed_example = Reach-IsServed (after_call 5 start)

called_waits : called.phase ≡ waiting
unfolding call call_nowait
called_waits = refl

called_future : called.call_fut ≡ some 0
unfolding call call_nowait
called_future = refl
