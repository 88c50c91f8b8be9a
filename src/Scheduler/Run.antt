-- ===== src/Scheduler/Run.antt =====
-- The states that the scheduler reaches.
use data_lineup.Base.{
  ℕ, ◌+◌, Bool, true, false, Option, none, some, List, [], ◌∷◌, if◌then◌else◌, nat_eq, eqb_iff, ◌≡◌,
  ◌≢◌, refl, arith, sym, subst, Option-cases, Bool-cases, inl, inr,
}
use data_lineup.Dict.{
  Dict, lookup, has_key, insert, remove, lookup-insert, lookup-remove, has_key-lookup, Distinct,
  insert-Distinct, remove-Distinct,
}
use data_lineup.Scheduler
use data_lineup.Scheduler.{
  ScheduleSlot, Scheduler, add, stop_slot, remove_item, begin_close, end_close, TaskOutcome,
  was_cancelled, has_result, has_stopped, has_failed, is_fatal, interrupted, Processed,
  unknown_task, done, raised, requeue, process_task, stop_all, process_outcome,
}
use data_lineup.Scheduler.Pending.{
  IsScheduled, init-IsScheduled, add-IsScheduled, dropped-IsScheduled, deleted-IsScheduled,
  lost-IsScheduled, requeued-IsScheduled, put_back-IsScheduled,
}

lookup-stop_all :
    (i : ℕ) (slots : Dict ℕ ScheduleSlot)
    → lookup i (stop_all slots) ≡ elim (lookup i slots) as (λ _. Option ScheduleSlot) [
      | none ↦ none
      | some slot ↦ some (record slot { is_running = false })
    ]
lookup-stop_all i [] = refl
lookup-stop_all i ((j, slot) ∷ slots) = ground (arith, lookup-stop_all i slots)

has_key-stop_all :
    (i : ℕ) (slots : Dict ℕ ScheduleSlot) → has_key i (stop_all slots) ≡ has_key i slots
has_key-stop_all i [] = refl
has_key-stop_all i ((j, slot) ∷ slots) = ground (arith, has_key-stop_all i slots)

stop_all-Distinct : (slots : Dict ℕ ScheduleSlot) → Distinct slots → Distinct (stop_all slots)
stop_all-Distinct [] d = tt
stop_all-Distinct ((j, slot) ∷ slots) d =
    ground (arith, has_key-stop_all j slots, stop_all-Distinct slots d.1)

-- What the scheduler's state is afterwards.
abbrev pub state_after : Scheduler → Processed → Scheduler
state_after s unknown_task = s
state_after s (done yielded s') = s'
state_after s (raised s') = s'

module _ (is_done : ℕ → Bool) (lost : List ℕ) (s : Scheduler) (v : IsScheduled lost s) where
  open v use {distinct_tasks, distinct_slots, used, pending, last}

  remove_item-IsScheduled : (i : ℕ) → IsScheduled lost (remove_item is_done i s)
  unfolding remove_item
  remove_item-IsScheduled i = elim (Option-cases (lookup i s.schedule_slots)) [
    | inl e ↦ rw (e, remove_item) v
    | inr (slot, e) ↦
        let stopped = record slot { is_running = false } in
        rw (e, remove_item)
          (record {
            distinct_tasks = distinct_tasks;
            distinct_slots = insert-Distinct i stopped s.schedule_slots distinct_slots;
            used = used;
            pending = λ j p f r l.
                ground (arith, lookup-insert i j stopped s.schedule_slots, pending j p);
            last = λ t j p f g r.
                ground (arith, lookup-insert i j stopped s.schedule_slots, last t j p);
          })
  ]

  begin_close-IsScheduled : IsScheduled lost (begin_close is_done s)
  unfolding begin_close
  begin_close-IsScheduled = record {
    distinct_tasks = distinct_tasks;
    distinct_slots = distinct_slots;
    used = used;
    pending = pending;
    last = last;
  }

  end_close-IsScheduled : IsScheduled lost (end_close is_done s)
  unfolding end_close
  end_close-IsScheduled = record {
    distinct_tasks = distinct_tasks;
    distinct_slots = stop_all-Distinct s.schedule_slots distinct_slots;
    used = used;
    pending = λ j p f r l. absurd (ground (arith, lookup-stop_all j s.schedule_slots));
    last = λ t j p f g r. absurd (ground (arith, lookup-stop_all j s.schedule_slots));
  }

  module _ (t i : ℕ) (found : lookup t s.tasks ≡ some i) (slot : ScheduleSlot)
      (there : lookup i s.schedule_slots ≡ some slot) where
    requeue-IsScheduled : IsScheduled lost (requeue i (record s { tasks = remove t s.tasks }))
    unfolding requeue
    requeue-IsScheduled =
        let left = remove t s.tasks in
        let slots = remove i s.schedule_slots in
        elim (Bool-cases slot.is_running) [
          | inl r ↦
              let next = record slot { task = s.next_task; order = slot.order + 1 } in
              let e : requeue i (record s { tasks = left }) ≡ record s {
                tasks = insert s.next_task i left;
                group = s.next_task ∷ s.group;
                next_task = s.next_task + 1;
                schedule_slots = insert i next s.schedule_slots;
              } =
                ground (arith, there, r) in
              subst (IsScheduled lost) (sym e)
                (requeued-IsScheduled lost s v t i found slot (s.next_task ∷ s.group) there r)
          | inr r ↦
              let e : requeue i (record s { tasks = left })
                  ≡ record s { tasks = left; schedule_slots = slots; resolved = i ∷ s.resolved } =
                ground (arith, there, r) in
              subst (IsScheduled lost) (sym e) (
                deleted-IsScheduled lost s v t i found slots s.cancelled (i ∷ s.resolved)
                  (remove-Distinct i s.schedule_slots distinct_slots)
                  (λ j. lookup-remove i j s.schedule_slots distinct_slots))
        ]

    -- An item that is removed while its task is processed is deleted.
    stopped-IsScheduled :
        IsScheduled lost (requeue i (remove_item is_done i (record s { tasks = remove t s.tasks })))
    unfolding requeue remove_item
    stopped-IsScheduled =
        let stopped = record slot { is_running = false } in
        let slots = insert i stopped s.schedule_slots in
        let d : Distinct slots = insert-Distinct i stopped s.schedule_slots distinct_slots in
        let again : lookup i slots ≡ some stopped =
          ground (arith, lookup-insert i i stopped s.schedule_slots, eqb_iff i i) in
        let left = remove t s.tasks in
        let cancelled = if is_done slot.task then s.cancelled else slot.task ∷ s.cancelled in
        let e : requeue i (remove_item is_done i (record s { tasks = left })) ≡ record s {
          tasks = left;
          schedule_slots = remove i slots;
          cancelled = cancelled;
          resolved = i ∷ s.resolved;
        } =
          ground (arith, there, again) in
        subst (IsScheduled lost) (sym e) (
          deleted-IsScheduled lost s v t i found (remove i slots) cancelled (i ∷ s.resolved)
            (remove-Distinct i slots d)
            (λ j.
              ground
                (arith, lookup-remove i j slots d, lookup-insert i j stopped s.schedule_slots)))

  -- A task that was cancelled is one of a stopped item.
  process_task-IsScheduled :
      (t : ℕ) (outcome : TaskOutcome)
      → ((i : ℕ) (slot : ScheduleSlot)
          → outcome ≡ was_cancelled
          → lookup t s.tasks ≡ some i
          → lookup i s.schedule_slots ≡ some slot
          → slot.is_running ≡ false)
      → IsScheduled lost (state_after s (process_task is_done t outcome s))
  unfolding process_task
  process_task-IsScheduled t outcome stopped = elim (Option-cases (lookup t s.tasks)) [
    | inl e ↦ rw (e, process_task) v
    | inr (i, found) ↦ elim (Option-cases (lookup i s.schedule_slots)) [
      | inl gone ↦
          rw (found, process_task, has_key-lookup i s.schedule_slots, gone)
            (dropped-IsScheduled lost s v t i found (λ slot e. absurd (ground (arith, gone))))
      | inr (slot, there) ↦
          rw (found, process_task, has_key-lookup i s.schedule_slots, there)
            (by_outcome t i slot outcome found there (stopped i slot))
    ]
  ]
    where
      by_outcome :
          (t i : ℕ) (slot : ScheduleSlot) (o : TaskOutcome)
          → lookup t s.tasks ≡ some i
          → lookup i s.schedule_slots ≡ some slot
          → (o ≡ was_cancelled
              → lookup t s.tasks ≡ some i
              → lookup i s.schedule_slots ≡ some slot
              → slot.is_running ≡ false)
          → IsScheduled lost (state_after s (process_outcome is_done t i o s))
      by_outcome t i slot was_cancelled found there stopped =
          dropped-IsScheduled lost s v t i found (λ p e. ground (arith, stopped refl found there))
      by_outcome t i slot has_result found there stopped = requeue-IsScheduled t i found slot there
      by_outcome t i slot has_stopped found there stopped = stopped-IsScheduled t i found slot there
      by_outcome t i slot has_failed found there stopped = stopped-IsScheduled t i found slot there
      by_outcome t i slot is_fatal found there stopped =
          put_back-IsScheduled lost s v t i found (t ∷ s.group)
      by_outcome t i slot interrupted found there stopped =
          put_back-IsScheduled lost s v t i found (t ∷ s.group)

  -- The task of an item that has a slot was cancelled.
  cancelled-IsScheduled :
      (t i : ℕ) (slot : ScheduleSlot)
      → lookup t s.tasks ≡ some i
      → lookup i s.schedule_slots ≡ some slot
      → IsScheduled (i ∷ lost) (state_after s (process_task is_done t was_cancelled s))
  unfolding process_task process_outcome
  cancelled-IsScheduled t i slot found there =
      rw (found, process_task, has_key-lookup i s.schedule_slots, there)
        (lost-IsScheduled lost s v t i found)

-- The states of the scheduler under its calls and under tasks that end; which tasks are done changes
-- from step to step. An item is added once. The items that run and whose task was cancelled all the
-- same, by what they iterate or by `close`, are listed: they have lost their task.
pub data Reach : (lost : List ℕ) → Scheduler → Type 0 where
  start : Reach [] Scheduler.init
  after_add :
      {lost : List ℕ} {s : Scheduler} (i : ℕ)
      → Reach lost s
      → has_key i s.schedule_slots ≡ false
      → ((t : ℕ) → lookup t s.tasks ≡ some i → ⊥)
      → Reach lost (add i s)
  after_remove :
      {lost : List ℕ} {s : Scheduler} (is_done : ℕ → Bool) (i : ℕ)
      → Reach lost s
      → Reach lost (remove_item is_done i s)
  after_begin_close :
      {lost : List ℕ} {s : Scheduler} (is_done : ℕ → Bool)
      → Reach lost s
      → Reach lost (begin_close is_done s)
  after_end_close :
      {lost : List ℕ} {s : Scheduler} (is_done : ℕ → Bool)
      → Reach lost s
      → Reach lost (end_close is_done s)
  after_task :
      {lost : List ℕ} {s : Scheduler} (is_done : ℕ → Bool) (t : ℕ) (outcome : TaskOutcome)
      → Reach lost s
      → ((i : ℕ) (slot : ScheduleSlot)
          → outcome ≡ was_cancelled
          → lookup t s.tasks ≡ some i
          → lookup i s.schedule_slots ≡ some slot
          → slot.is_running ≡ false)
      → Reach lost (state_after s (process_task is_done t outcome s))
  after_cancel :
      {lost : List ℕ} {s : Scheduler} (is_done : ℕ → Bool) (t i : ℕ) (slot : ScheduleSlot)
      → Reach lost s
      → lookup t s.tasks ≡ some i
      → lookup i s.schedule_slots ≡ some slot
      → slot.is_running ≡ true
      → Reach (i ∷ lost) (state_after s (process_task is_done t was_cancelled s))

-- In every state that calls and tasks reach, a task of an item that runs is the one that the item's
-- slot names, and this one is pending, unless the item is listed: a listed item is one of which a
-- task was processed that had been cancelled while the item ran. The tasks are keyed by distinct
-- names, all older than the next one, and the slots by distinct items.
pub Reach-IsScheduled : {lost : List ℕ} {s : Scheduler} → Reach lost s → IsScheduled lost s
Reach-IsScheduled start = init-IsScheduled
Reach-IsScheduled (after_add {lost} {s} i r new idle) =
    add-IsScheduled lost s (Reach-IsScheduled r) i new idle
Reach-IsScheduled (after_remove {lost} {s} is_done i r) =
    remove_item-IsScheduled is_done lost s (Reach-IsScheduled r) i
Reach-IsScheduled (after_begin_close {lost} {s} is_done r) =
    begin_close-IsScheduled is_done lost s (Reach-IsScheduled r)
Reach-IsScheduled (after_end_close {lost} {s} is_done r) =
    end_close-IsScheduled is_done lost s (Reach-IsScheduled r)
Reach-IsScheduled (after_task {lost} {s} is_done t outcome r stopped) =
    process_task-IsScheduled is_done lost s (Reach-IsScheduled r) t outcome stopped
Reach-IsScheduled (after_cancel {lost} {s} is_done t i slot r found there runs) =
    cancelled-IsScheduled is_done lost s (Reach-IsScheduled r) t i slot found there

-- An item that runs is removed while it waits, so that its task is cancelled. Once that task is
-- processed, the item's slot is still there, its future is not set, and no task of the item is
-- left that could ever delete the one or set the other. Given a state that is reached
-- without an item that lost its task.
pub process_task-remove_item :
    (is_done : ℕ → Bool) (s : Scheduler) (i : ℕ) (slot : ScheduleSlot)
    → Reach [] s
    → lookup i s.schedule_slots ≡ some slot
    → slot.is_running ≡ true
    → let s' =
        state_after s (process_task is_done slot.task was_cancelled (remove_item is_done i s)) in
      (lookup i s'.schedule_slots ≡ some (record slot { is_running = false }))
      × (s'.resolved ≡ s.resolved)
      × ((t : ℕ) → lookup t s'.tasks ≢ some i)
unfolding process_task remove_item
process_task-remove_item is_done s i slot reached there runs =
    let v = Reach-IsScheduled reached in
    let stopped = record slot { is_running = false } in
    let again : lookup i (insert i stopped s.schedule_slots) ≡ some stopped =
      ground (arith, lookup-insert i i stopped s.schedule_slots, eqb_iff i i) in
    let task : lookup slot.task s.tasks ≡ some i = v.pending i slot there runs refl in
    let known = has_key-lookup i (insert i stopped s.schedule_slots) in
    (
      ground (arith, there, again, task, known),
      ground (arith, there, again, task, known),
      λ t e. ground (
        arith,
        there,
        again,
        task,
        known,
        lookup-remove slot.task t s.tasks v.distinct_tasks,
        v.last t i slot,
        eqb_iff slot.task t,
      ),
    )
