-- ===== src/Tests/Polling.antt =====
-- A scheduler with one item whose task is pending.
use data_lineup.Base.{ℕ, Bool, true, false, some, [], ◌∷◌, nat_eq, ◌≡◌, ◌≢◌, refl, arith}
use data_lineup.Dict.{lookup}
use data_lineup.Scheduler.{
  ScheduleSlot, Scheduler, add, remove_item, was_cancelled, process_task, stop_slot,
}
use data_lineup.Scheduler as Polls
use data_lineup.Scheduler.Pending.{IsScheduled}
use data_lineup.Scheduler.Run.{
  Reach, state_after, start, after_add, after_cancel, Reach-IsScheduled, process_task-remove_item,
}

abbrev idle : ℕ → Bool
idle t = false

abbrev polled : Scheduler
polled = add 7 Polls.init

polled_reached : Reach [] polled
polled_reached = after_add 7 start refl (λ t e. absurd (cc e))

abbrev slot : ScheduleSlot
slot = record { task = 0; order = 0; is_running = true }

slot_there : lookup 7 polled.schedule_slots ≡ some slot
unfolding add
slot_there = refl

process_task-remove_item_example :
    let s' = state_after polled (process_task idle 0 was_cancelled (remove_item idle 7 polled)) in
    (lookup 7 s'.schedule_slots ≡ some (record slot { is_running = false }))
    × (s'.resolved ≡ polled.resolved)
    × ((t : ℕ) → lookup t s'.tasks ≢ some 7)
process_task-remove_item_example =
    process_task-remove_item idle polled 7 slot polled_reached slot_there refl

-- Two items; the first one's iterable raises `CancelledError`.
abbrev two_polled : Scheduler
two_polled = add 8 polled

two_polled_reached : Reach [] two_polled
unfolding add
two_polled_reached = after_add 8 polled_reached refl (λ t e. ground (arith, e))

abbrev one_lost : Scheduler
one_lost = state_after two_polled (process_task idle 0 was_cancelled two_polled)

Reach-IsScheduled_example : IsScheduled (7 ∷ []) one_lost
unfolding add
Reach-IsScheduled_example =
    Reach-IsScheduled (after_cancel idle 0 7 slot two_polled_reached refl refl refl)
