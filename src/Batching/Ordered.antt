-- ===== src/Batching/Ordered.antt =====
-- What a batching topic yields of what it reads.
use data_lineup.Base.{ℕ, ◌<◌, true, List, [], ◌∷◌, ◌++◌, length, All, ◌≡◌}
use data_lineup.Batching.{
  Options, BatchingTopic, begin, get_message, time_out, is_late, read_message, end_read,
}
use data_lineup.Batching.Flushed.{contents, Fits}

module _ {M : Type 0} where
  -- The states of the two tasks, with the messages that were read so far.
  pub data Reach (o : Options) : BatchingTopic M → List M → Type 0 where
    starts : (now : ℕ) → Reach o (begin now) []
    reads :
        {s : BatchingTopic M} {read : List M} (m : M)
        → Reach o s read
        → length s.queue < o.batch_size
        → Reach o (read_message m s) (read ++ (m ∷ []))
    ends : {s : BatchingTopic M} {read : List M} → Reach o s read → Reach o (end_read s) read
    gets :
        {s : BatchingTopic M} {read : List M} (now : ℕ)
        → Reach o s read
        → Reach o (get_message o now s) read
    waits :
        {s : BatchingTopic M} {read : List M} (now : ℕ)
        → Reach o s read
        → is_late o now s ≡ true
        → Reach o (time_out o now s) read

  record IsOrdered (o : Options) (s : BatchingTopic M) (read : List M) : Type 0 where
    ordered : contents s.output ++ (s.batch ++ s.queue) ≡ read
    fits : All (Fits o) s.output
    short : length s.batch < o.batch_size
