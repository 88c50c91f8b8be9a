-- ===== src/Buffering.antt =====
-- utils/iterators.py: `async_flatten` and `async_buffered`. Its task `next_slice` and its own loop are interleaved step
-- by step. The iterator is the list of what it answers; one that has raised is at its end.
pub mod Sliced
use data_lineup.Base.{
  ℕ, Bool, true, false, ◌&&◌, ◌||◌, Option, none, some, List, [], ◌∷◌, ◌++◌, leb, if◌then◌else◌,
  length,
}
use data_lineup.ErrorHandling.{is_nil}

pub data Answer (A : Type 0) : Type 0 where
  yields : A → Answer A
  raises : Answer A

-- `is_done` tells whether the task is done, and `ended` whether the loop was left; `output` is what
-- was yielded, in order.
pub record Buffered (A : Type 0) : Type 0 where
  pub iterator : List (Answer A)
  pub items : List A
  pub is_done : Bool
  pub output : List (List A)
  pub ended : Bool

module _ {A : Type 0} where
  abbrev pub begin_buffered : List (Answer A) → Buffered A
  begin_buffered iterator = record {
    iterator = iterator;
    items = [];
    is_done = false;
    output = [];
    ended = false;
  }

  abbrev pub is_full : Option ℕ → List A → Bool
  is_full none items = false
  is_full (some size) items = leb size (length items)

  -- A step of `next_slice`. What it raises stays in its task, whose result is never asked for.
  unfoldable pub next_slice : (buffer_size : Option ℕ) → Buffered A → Buffered A
  next_slice buffer_size s = if s.is_done then s else (elim s.iterator [
    | [] ↦ record s { is_done = true }
    | raises ∷ later ↦ record s { iterator = []; is_done = true }
    | yields a ∷ later ↦
        let items = s.items ++ (a ∷ []) in
        record s { iterator = later; items = items; is_done = is_full buffer_size items }
  ])

  -- A round of the loop, when the task is done or the time is over; a task that is done is
  -- followed by a new one.
  unfoldable pub flush_items : Buffered A → Buffered A
  flush_items s =
      if s.ended || (s.is_done && is_nil s.items) then record s { ended = true } else record s {
        items = [];
        is_done = false;
        output = if is_nil s.items then s.output else s.output ++ (s.items ∷ []);
      }

  abbrev pub async_flatten : List (List A) → List A
  async_flatten [] = []
  async_flatten (items ∷ slices) = items ++ async_flatten slices
