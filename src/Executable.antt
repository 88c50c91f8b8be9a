-- ===== src/Executable.antt =====
-- worker/executors/executable.py: how an `ExecutableQueue` counts the messages that are pending
-- and closes. A message is named by a number, and `messages` holds the `processed` of its
-- `pending_context`. `waits` tells whether `close` had to wait for `done`.
pub mod Pending
use data_lineup.Base.{
  ℕ, ◌+◌, ◌-◌, Bool, true, false, not, ◌&&◌, ◌||◌, Option, none, some, [], nat_eq, eqb,
  if◌then◌else◌,
}
use data_lineup.Dict.{Dict, lookup, insert}

pub record ExecutableQueue : Type 0 where
  pub is_closed : Bool
  pub pending_messages_count : ℕ
  pub done : Bool
  pub messages : Dict ℕ Bool
  pub topic_closed : Bool
  pub waits : Bool
  pub outputs_closed : Bool

abbrev pub init : ExecutableQueue
init = record {
  is_closed = false;
  pending_messages_count = 0;
  done = false;
  messages = [];
  topic_closed = false;
  waits = false;
  outputs_closed = false;
}

-- Only called while a message is pending, so that the count is above 0.
unfoldable pub message_processed : ExecutableQueue → ExecutableQueue
message_processed q =
    let count = q.pending_messages_count - 1 in
    record q { pending_messages_count = count; done = q.done || (q.is_closed && eqb count 0) }

-- `pending_context` up to its `yield`.
unfoldable pub begin_pending : ℕ → ExecutableQueue → ExecutableQueue
begin_pending m q = record q {
  pending_messages_count = q.pending_messages_count + 1;
  messages = insert m false q.messages;
}

-- `if not processed: …; processed = True`
unfoldable pub mark_processed : ℕ → ExecutableQueue → ExecutableQueue
unfolding message_processed
mark_processed m q = elim (lookup m q.messages) [
  | none ↦ q
  | some processed ↦
      let q' = if processed then q else message_processed q in
      record q' { messages = insert m true q'.messages }
]

-- The `finally` of `message_context`, when the message's own context ends.
abbrev pub end_message : ℕ → ExecutableQueue → ExecutableQueue
end_message m q = mark_processed m q

-- The `except` of `pending_context`, when the generator gets an exception at its `yield`.
abbrev pub fail_yield : ℕ → ExecutableQueue → ExecutableQueue
fail_yield m q = mark_processed m q

-- `close` up to its wait.
unfoldable pub begin_close : ExecutableQueue → ExecutableQueue
begin_close q = if q.is_closed then q else record q {
  is_closed = true;
  topic_closed = true;
  waits = not (eqb q.pending_messages_count 0);
}

-- May `wait_for_done` return?
abbrev pub is_done : ExecutableQueue → Bool
is_done q = not q.waits || q.done

abbrev pub close_outputs : ExecutableQueue → ExecutableQueue
close_outputs q = record q { outputs_closed = true }
