-- ===== src/Tests/Batches.antt =====
-- Three messages in batches of two: one batch is full, the other one is flushed in the end.
use data_lineup.Base.{ℕ, false}
use data_lineup.Batching.{Options, BatchingTopic, begin, get_message, read_message, end_read}

abbrev pairs : Options
pairs = record { flatten = false; batch_size = 2; flush_timeout = 10 }

abbrev two_read : BatchingTopic ℕ
two_read = get_message pairs 2 (get_message pairs 1 (read_message 8 (read_message 7 (begin 0))))

abbrev three_read : BatchingTopic ℕ
three_read = get_message pairs 3 (end_read (read_message 9 two_read))
