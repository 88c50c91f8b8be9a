-- ===== src/Executable/Pending.antt =====
-- The count of pending messages, and when the outputs are closed.
use data_lineup.Base.{
  ℕ, ◌+◌, ◌-◌, Bool, true, false, none, some, [], ◌∷◌, nat_eq, eqb_iff, if◌then◌else◌, ◌≡◌, ◌≢◌,
  refl, sym, subst, ◌∙◌, arith, Bool-cases, Option-cases, inl, inr,
}
use data_lineup.Dict.{Dict, lookup, insert}
use data_lineup.Executable.{
  ExecutableQueue, message_processed, begin_pending, mark_processed, end_message, fail_yield,
  begin_close, is_done, close_outputs,
}
use data_lineup.Executable as Queue

-- How many messages are not processed.
abbrev pub unprocessed : Dict ℕ Bool → ℕ
unprocessed [] = 0
unprocessed ((m, processed) ∷ ms) =
    let rest = unprocessed ms in if processed then rest else rest + 1

unprocessed-new :
    (m : ℕ) (ms : Dict ℕ Bool)
    → lookup m ms ≡ none
    → unprocessed (insert m false ms) ≡ unprocessed ms + 1
unprocessed-new m [] e = refl
unprocessed-new m ((k, p) ∷ ms) e = ground (arith, unprocessed-new m ms)

unprocessed-processed :
    (m : ℕ) (p : Bool) (ms : Dict ℕ Bool)
    → lookup m ms ≡ some p
    → unprocessed ms ≡ unprocessed (insert m true ms) + (if p then 0 else 1)
unprocessed-processed m p [] e = absurd (cc e)
unprocessed-processed m p ((k, q) ∷ ms) e = ground (arith, unprocessed-processed m p ms)

lookup-unprocessed : (m : ℕ) (ms : Dict ℕ Bool) → unprocessed ms ≡ 0 → lookup m ms ≢ some false
lookup-unprocessed m [] e f = absurd (cc f)
lookup-unprocessed m ((k, p) ∷ ms) e f = ground (arith, e, f, lookup-unprocessed m ms)

pub record IsCounted (q : ExecutableQueue) : Type 0 where
  pub counted : q.pending_messages_count ≡ unprocessed q.messages
  pub closed_done : q.done ≡ true → (q.is_closed ≡ true) × (q.pending_messages_count ≡ 0)
  pub closed_waits :
      q.waits ≡ true → (q.is_closed ≡ true) × (q.pending_messages_count ≡ 0 → q.done ≡ true)
  pub closed_idle : q.is_closed ≡ true → q.waits ≡ false → q.pending_messages_count ≡ 0
  pub outputs : q.outputs_closed ≡ true → (q.is_closed ≡ true) × (q.pending_messages_count ≡ 0)

-- The states of a queue. `run` yields a message only before `close`, which is in its `finally`.
pub data Reach : ExecutableQueue → Type 0 where
  start : Reach Queue.init
  after_begin :
      {q : ExecutableQueue} (m : ℕ)
      → Reach q
      → q.is_closed ≡ false
      → lookup m q.messages ≡ none
      → Reach (begin_pending m q)
  after_end : {q : ExecutableQueue} (m : ℕ) → Reach q → Reach (end_message m q)
  after_failure : {q : ExecutableQueue} (m : ℕ) → Reach q → Reach (fail_yield m q)
  after_close : {q : ExecutableQueue} → Reach q → Reach (begin_close q)
  after_outputs :
      {q : ExecutableQueue}
      → Reach q
      → q.is_closed ≡ true
      → is_done q ≡ true
      → Reach (close_outputs q)

mark_processed-IsCounted :
    (q : ExecutableQueue) (m : ℕ) → IsCounted q → IsCounted (mark_processed m q)
unfolding mark_processed message_processed
mark_processed-IsCounted q m v = elim (Option-cases (lookup m q.messages)) [
  | inl e ↦ let same : mark_processed m q ≡ q = ground (arith, e) in subst IsCounted (sym same) v
  | inr (p, e) ↦
      let left = unprocessed-processed m p q.messages e in
      elim (Bool-cases p) [
        | inl f ↦ record {
          counted = ground (arith, e, f, left, v.counted);
          closed_done = ground (arith, e, f, v.closed_done);
          closed_waits = ground (arith, e, f, v.closed_waits);
          closed_idle = ground (arith, e, f, v.closed_idle);
          outputs = ground (arith, e, f, v.outputs);
        }
        | inr f ↦ record {
          counted = ground (arith, e, f, left, v.counted);
          closed_done =
              ground (arith, e, f, v.closed_done, eqb_iff (q.pending_messages_count - 1) 0);
          closed_waits =
              ground (arith, e, f, v.closed_waits, eqb_iff (q.pending_messages_count - 1) 0);
          closed_idle = ground (arith, e, f, v.closed_idle);
          outputs = ground (arith, e, f, v.outputs);
        }
      ]
]

begin_pending-IsCounted :
    (q : ExecutableQueue) (m : ℕ)
    → IsCounted q
    → q.is_closed ≡ false
    → lookup m q.messages ≡ none
    → IsCounted (begin_pending m q)
unfolding begin_pending
begin_pending-IsCounted q m v opened new = record {
  counted = ground (arith, v.counted, unprocessed-new m q.messages new);
  closed_done = λ e. ground (arith, opened, v.closed_done e);
  closed_waits = λ e. ground (arith, opened, v.closed_waits e);
  closed_idle = λ e. ground (arith, opened, e);
  outputs = λ e. ground (arith, opened, v.outputs e);
}

begin_close-IsCounted : (q : ExecutableQueue) → IsCounted q → IsCounted (begin_close q)
unfolding begin_close
begin_close-IsCounted q v = elim (Bool-cases q.is_closed) [
  | inl e ↦ let same : begin_close q ≡ q = ground (arith, e) in subst IsCounted (sym same) v
  | inr e ↦ record {
    counted = ground (arith, e, v.counted);
    closed_done = λ f. absurd (ground (arith, e, f, v.closed_done));
    closed_waits = λ f. (
      ground (arith, e),
      λ g. absurd (ground (arith, e, f, g, eqb_iff q.pending_messages_count 0)),
    );
    closed_idle = λ f g. ground (arith, e, g, eqb_iff q.pending_messages_count 0);
    outputs = λ f. absurd (ground (arith, e, f, v.outputs));
  }
]

pub Reach-IsCounted : {q : ExecutableQueue} → Reach q → IsCounted q
Reach-IsCounted start = record {
  counted = refl;
  closed_done = λ e. absurd (cc e);
  closed_waits = λ e. absurd (cc e);
  closed_idle = λ e. absurd (cc e);
  outputs = λ e. absurd (cc e);
}
Reach-IsCounted (after_begin {q} m r opened new) =
    begin_pending-IsCounted q m (Reach-IsCounted r) opened new
Reach-IsCounted (after_end {q} m r) = mark_processed-IsCounted q m (Reach-IsCounted r)
Reach-IsCounted (after_failure {q} m r) = mark_processed-IsCounted q m (Reach-IsCounted r)
Reach-IsCounted (after_close {q} r) = begin_close-IsCounted q (Reach-IsCounted r)
Reach-IsCounted (after_outputs {q} r closed done) =
    let v = Reach-IsCounted r in
    record {
      counted = v.counted;
      closed_done = v.closed_done;
      closed_waits = v.closed_waits;
      closed_idle = v.closed_idle;
      outputs = λ e. (closed, ground (arith, done, v.closed_done, v.closed_idle closed));
    }

-- In every reachable state the count is that of the messages that are not processed. The outputs
-- are closed only when the queue is closed and every message is processed; and once a closed queue
-- has every message processed, nothing keeps `close` waiting.
pub Reach-outputs :
    {q : ExecutableQueue}
    → Reach q
    → (q.pending_messages_count ≡ unprocessed q.messages)
      × (q.outputs_closed ≡ true
          → (q.is_closed ≡ true) × ((m : ℕ) → lookup m q.messages ≢ some false))
      × (q.is_closed ≡ true → unprocessed q.messages ≡ 0 → is_done q ≡ true)
Reach-outputs {q} r =
    let v = Reach-IsCounted r in
    (
      v.counted,
      λ e.
          ((v.outputs e).0, λ m. lookup-unprocessed m q.messages (sym v.counted ∙ (v.outputs e).1)),
      λ e f. ground (arith, e, f, v.counted, v.closed_waits, v.closed_idle e),
    )
