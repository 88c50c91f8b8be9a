-- ===== src/Tests/Measuring.antt =====
-- Two messages of one pipeline that enter at 10 and 14, and one message that is polled and
-- scheduled.
use data_lineup.Base.{ℕ, String, true, none, some, [], string_eq, nat_eq, ◌≡◌, refl, arith}
use data_lineup.Dict.{Dict}
use data_lineup.Usage.{
  PipelineState, new_pipeline, flush, enter, collect, ExecutableMessage, Readings, no_stages,
  polling, scheduling, on_message_polled, on_message_scheduled,
}
use data_lineup.Usage.Stopwatch.{
  created, after_enter, Runs, Watches, start_watch, collect-stopwatches,
}
use data_lineup.Usage.Stages.{is_in}
use data_lineup.Usage.Placed.{put, opened, polled, scheduled, Placed-is_in}

abbrev one_message : PipelineState
one_message = enter 10 10 1 (new_pipeline 5 6)

abbrev one_watch : Watches
one_watch = start_watch 10 1 (record { entered = []; spent = 0 })

one_enters : Runs one_message one_watch
one_enters = after_enter 10 10 1 (created 5 6) (omega arith)

flushed_at_10 : one_message.last_flushed_at ≡ 10
unfolding enter flush
flushed_at_10 = refl

abbrev two_messages : PipelineState
two_messages = enter 14 14 2 one_message

two_enter : Runs two_messages (start_watch 14 2 one_watch)
two_enter = after_enter 14 14 2 one_enters (rw flushed_at_10 (omega arith))

collect-stopwatches_example : (collect 20 21 two_messages).0 ≡ some (18, 14)
unfolding enter flush
collect-stopwatches_example = collect-stopwatches 20 21 two_enter (omega arith)

abbrev no_labels : Dict String String → String
no_labels labels = ""

abbrev plain : ℕ → ExecutableMessage
plain m = record { executor = none; labels = []; pipeline = "pipeline" }

abbrev at_5 : Readings
at_5 = record { last_flushed_at = 5; last_collected_at = 5; now = 5; flushed = 5 }

Placed-is_in_example :
    is_in no_labels plain scheduling 1 (
      on_message_scheduled no_labels plain at_5 at_5 1
        (on_message_polled no_labels plain at_5 1 no_stages))
    ≡ true
Placed-is_in_example =
    Placed-is_in {frozenset = no_labels} {message = plain}
      {place = put 1 (some scheduling) (put 1 (some polling) (λ m. none))}
      (scheduled at_5 at_5 1 (polled at_5 1 opened refl) refl) scheduling 1
