-- ===== src/Tests/Closing.antt =====
-- A queue that is closed while a message is pending, which then ends.
use data_lineup.Base.{ℕ, true, false, some, nat_eq, ◌≡◌, ◌≢◌, refl}
use data_lineup.Dict.{lookup}
use data_lineup.Executable.{
  ExecutableQueue, begin_pending, begin_close, mark_processed, message_processed, end_message,
  close_outputs, is_done,
}
use data_lineup.Executable as Queue
use data_lineup.Executable.Pending.{
  Reach, start, after_begin, after_close, after_end, after_outputs, unprocessed, Reach-outputs,
}

abbrev ended : ExecutableQueue
ended = end_message 4 (begin_close (begin_pending 4 Queue.init))

ended_closed : ended.is_closed ≡ true
unfolding begin_pending begin_close mark_processed message_processed
ended_closed = refl

ended_done : is_done ended ≡ true
unfolding begin_pending begin_close mark_processed message_processed
ended_done = refl

abbrev closed : ExecutableQueue
closed = close_outputs ended

closed_reached : Reach closed
closed_reached =
    after_outputs (after_end 4 (after_close (after_begin 4 start refl refl))) ended_closed
      ended_done

Reach-outputs_example :
    (closed.pending_messages_count ≡ unprocessed closed.messages)
    × (closed.outputs_closed ≡ true
        → (closed.is_closed ≡ true) × ((m : ℕ) → lookup m closed.messages ≢ some false))
    × (closed.is_closed ≡ true → unprocessed closed.messages ≡ 0 → is_done closed ≡ true)
Reach-outputs_example = Reach-outputs closed_reached
