-- ===== src/Batching.antt =====
-- worker/topics/batching.py: a topic that joins the messages of another one into batches. Its two
-- tasks are interleaved step by step: one puts what it reads into `queue`, the other takes it from
-- there. Messages are of any type. `output` is what `run` has yielded, in order.
pub mod Flushed
pub mod Ordered
use data_lineup.Base.{
  ℕ, ◌+◌, Bool, true, false, ◌&&◌, List, [], ◌∷◌, ◌++◌, map, leb, if◌then◌else◌, length, take, drop,
}
use data_lineup.ErrorHandling.{is_nil}

pub record Options : Type 0 where
  pub flatten : Bool
  pub batch_size : ℕ
  pub flush_timeout : ℕ

pub data Yielded (M : Type 0) : Type 0 where
  message : M → Yielded M
  batch_message : List M → Yielded M

pub record BatchingTopic (M : Type 0) : Type 0 where
  pub queue : List M
  pub batch : List M
  pub start_time : ℕ
  pub force_done : Bool
  pub output : List (Yielded M)

module _ {M : Type 0} where
  -- `run` up to the first round of `_run_topic_task`.
  abbrev pub begin : (now : ℕ) → BatchingTopic M
  begin now = record { queue = []; batch = []; start_time = now; force_done = false; output = [] }

  unfoldable pub flush : Options → (now : ℕ) → BatchingTopic M → BatchingTopic M
  flush o now s =
      let s' : BatchingTopic M = record s { start_time = now } in
      if is_nil s.batch
      then s'
      else if o.flatten
      then record s' { batch = []; output = s.output ++ map message s.batch }
      else record s' {
        batch = drop o.batch_size s.batch;
        output = s.output ++ (batch_message (take o.batch_size s.batch) ∷ []);
      }

  -- A round of the loop with the next message of the queue, which may have been waited for.
  unfoldable pub get_message : Options → (now : ℕ) → BatchingTopic M → BatchingTopic M
  unfolding flush
  get_message o now s = elim s.queue [
    | [] ↦ s
    | m ∷ ms ↦
        let s' : BatchingTopic M = record s { queue = ms; batch = s.batch ++ (m ∷ []) } in
        if leb o.batch_size (length s'.batch) then flush o now s' else s'
  ]

  -- A round with a `TimeoutError`, and whether there may be one.
  abbrev pub time_out : Options → (now : ℕ) → BatchingTopic M → BatchingTopic M
  time_out o now s = flush o now s

  abbrev pub is_late : Options → (now : ℕ) → BatchingTopic M → Bool
  is_late o now s = is_nil s.queue && leb (s.start_time + o.flush_timeout) now

  abbrev pub is_done : BatchingTopic M → Bool
  is_done s = s.force_done && is_nil s.queue

  -- After the loop.
  abbrev pub last_flush : Options → (now : ℕ) → BatchingTopic M → BatchingTopic M
  last_flush o now s = flush o now s

  -- `await self.queue.put(message)`, once there is room, and the end of `_read_topic`.
  abbrev pub read_message : M → BatchingTopic M → BatchingTopic M
  read_message m s = record s { queue = s.queue ++ (m ∷ []) }

  abbrev pub end_read : BatchingTopic M → BatchingTopic M
  end_read s = record s { force_done = true }

  abbrev pub publish : (subtopic : M → Bool → Bool) → M → Bool → Bool
  publish subtopic m wait = subtopic m wait
