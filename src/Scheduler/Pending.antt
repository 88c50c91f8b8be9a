-- ===== src/Scheduler/Pending.antt =====
-- Every item that runs has a task that is pending, so that none is forgotten.
use data_lineup.Base.{
  ℕ, ◌+◌, ◌<◌, true, false, none, some, List, [], ◌∷◌, if◌then◌else◌, ◌==◌, nat_eq, eqb_iff, ◌≡◌,
  arith,
}
use data_lineup.Dict.{
  Dict, lookup, has_key, insert, remove, lookup-insert, lookup-remove, has_key-lookup, Distinct,
  insert-Distinct, remove-Distinct, elem,
}
use data_lineup.Scheduler
use data_lineup.Scheduler.{
  ScheduleSlot, Scheduler, add, stop_slot, remove_item, TaskOutcome, was_cancelled, has_result,
  has_stopped, has_failed, is_fatal, interrupted, Processed, unknown_task, done, raised, requeue,
  process_task, stop_all,
}

-- Task names are used once. A task of an item that runs is the one that its slot names, and that one
-- is pending, unless the item is among those that lost it.
pub record IsScheduled (lost : List ℕ) (s : Scheduler) : Type 0 where
  pub distinct_tasks : Distinct s.tasks
  pub distinct_slots : Distinct s.schedule_slots
  pub used : (t i : ℕ) → lookup t s.tasks ≡ some i → t < s.next_task
  pub pending :
      (i : ℕ) (slot : ScheduleSlot)
      → lookup i s.schedule_slots ≡ some slot
      → slot.is_running ≡ true
      → elem i lost ≡ false
      → lookup slot.task s.tasks ≡ some i
  pub last :
      (t i : ℕ) (slot : ScheduleSlot)
      → lookup t s.tasks ≡ some i
      → lookup i s.schedule_slots ≡ some slot
      → slot.is_running ≡ true
      → t ≡ slot.task

pub init-IsScheduled : IsScheduled [] Scheduler.init
init-IsScheduled = record {
  distinct_tasks = tt;
  distinct_slots = tt;
  used = λ t i e. absurd (cc e);
  pending = λ i slot e r l. absurd (cc e);
  last = λ t i slot e f r. absurd (cc e);
}

module _ (lost : List ℕ) (s : Scheduler) (v : IsScheduled lost s) where
  open v use {distinct_tasks, distinct_slots, used, pending, last}

  -- A new item; one that is added again would keep its old task beside the new one.
  pub add-IsScheduled :
      (i : ℕ)
      → has_key i s.schedule_slots ≡ false
      → ((t : ℕ) → lookup t s.tasks ≡ some i → ⊥)
      → IsScheduled lost (add i s)
  unfolding add
  add-IsScheduled i new idle =
      let slot : ScheduleSlot = record { task = s.next_task; order = 0; is_running = true } in
      record {
        distinct_tasks = insert-Distinct s.next_task i s.tasks distinct_tasks;
        distinct_slots = insert-Distinct i slot s.schedule_slots distinct_slots;
        used = λ t j e.
            ground (arith, lookup-insert s.next_task t i s.tasks, used t j, eqb_iff s.next_task t);
        pending = λ j p e r l. ground (
          arith,
          lookup-insert i j slot s.schedule_slots,
          lookup-insert s.next_task s.next_task i s.tasks,
          lookup-insert s.next_task p.task i s.tasks,
          eqb_iff i j,
          eqb_iff s.next_task p.task,
          eqb_iff s.next_task s.next_task,
          pending j p,
          used p.task j,
        );
        last = λ t j p e f r. ground (
          arith,
          lookup-insert i j slot s.schedule_slots,
          lookup-insert s.next_task t i s.tasks,
          eqb_iff i j,
          eqb_iff s.next_task t,
          has_key-lookup i s.schedule_slots,
          last t j p,
          idle t,
        );
      }

  module _ (t i : ℕ) (found : lookup t s.tasks ≡ some i) where
    -- The task is dropped, of an item that does not run.
    pub dropped-IsScheduled :
        ((slot : ScheduleSlot) → lookup i s.schedule_slots ≡ some slot → slot.is_running ≡ false)
        → IsScheduled lost (record s { tasks = remove t s.tasks })
    dropped-IsScheduled idle = record {
      distinct_tasks = remove-Distinct t s.tasks distinct_tasks;
      distinct_slots = distinct_slots;
      used = λ u j e. ground (arith, lookup-remove t u s.tasks distinct_tasks, used u j);
      pending = λ j p e r l. ground (
        arith,
        lookup-remove t p.task s.tasks distinct_tasks,
        eqb_iff t p.task,
        pending j p,
        idle p,
      );
      last = λ u j p e f r. ground (arith, lookup-remove t u s.tasks distinct_tasks, last u j p);
    }

    -- The task is dropped, and its item has lost it.
    pub lost-IsScheduled : IsScheduled (i ∷ lost) (record s { tasks = remove t s.tasks })
    lost-IsScheduled = record {
      distinct_tasks = remove-Distinct t s.tasks distinct_tasks;
      distinct_slots = distinct_slots;
      used = λ u j e. ground (arith, lookup-remove t u s.tasks distinct_tasks, used u j);
      pending = λ j p e r l. ground (
        arith,
        lookup-remove t p.task s.tasks distinct_tasks,
        eqb_iff t p.task,
        eqb_iff i j,
        eqb_iff j i,
        pending j p,
      );
      last = λ u j p e f r. ground (arith, lookup-remove t u s.tasks distinct_tasks, last u j p);
    }

    -- The task is done, and its item's slot is deleted.
    pub deleted-IsScheduled :
        (slots : Dict ℕ ScheduleSlot) (cancelled resolved : List ℕ)
        → Distinct slots
        → ((j : ℕ) → lookup j slots ≡ (if i == j then none else lookup j s.schedule_slots))
        → IsScheduled lost (record s {
          tasks = remove t s.tasks;
          schedule_slots = slots;
          cancelled = cancelled;
          resolved = resolved;
        })
    deleted-IsScheduled slots cancelled resolved d rest = record {
      distinct_tasks = remove-Distinct t s.tasks distinct_tasks;
      distinct_slots = d;
      used = λ u j e. ground (arith, lookup-remove t u s.tasks distinct_tasks, used u j);
      pending = λ j p e r l. ground (
        arith,
        lookup-remove t p.task s.tasks distinct_tasks,
        eqb_iff t p.task,
        eqb_iff i j,
        pending j p,
        rest j,
      );
      last = λ u j p e f r.
          ground (arith, lookup-remove t u s.tasks distinct_tasks, last u j p, rest j);
    }

    -- The task is done, and the next one of its item is made.
    pub requeued-IsScheduled :
        (slot : ScheduleSlot) (group : List ℕ)
        → lookup i s.schedule_slots ≡ some slot
        → slot.is_running ≡ true
        → IsScheduled lost (record s {
          tasks = insert s.next_task i (remove t s.tasks);
          group = group;
          next_task = s.next_task + 1;
          schedule_slots =
              insert i
                (record slot { task = s.next_task; order = slot.order + 1 })
                s.schedule_slots;
        })
    requeued-IsScheduled slot group e r =
        let next = record slot { task = s.next_task; order = slot.order + 1 } in
        let left = remove t s.tasks in
        record {
          distinct_tasks =
              insert-Distinct s.next_task i left (remove-Distinct t s.tasks distinct_tasks);
          distinct_slots = insert-Distinct i next s.schedule_slots distinct_slots;
          used = λ u j f. ground (
            arith,
            lookup-insert s.next_task u i left,
            lookup-remove t u s.tasks distinct_tasks,
            used u j,
            eqb_iff s.next_task u,
          );
          pending = λ j p f g l. ground (
            arith,
            lookup-insert i j next s.schedule_slots,
            lookup-insert s.next_task p.task i left,
            lookup-remove t p.task s.tasks distinct_tasks,
            eqb_iff i j,
            eqb_iff t p.task,
            eqb_iff s.next_task p.task,
            pending j p,
            used p.task j,
          );
          last = λ u j p f g h. ground (
            arith,
            lookup-insert i j next s.schedule_slots,
            lookup-insert s.next_task u i left,
            lookup-remove t u s.tasks distinct_tasks,
            eqb_iff i j,
            eqb_iff t u,
            eqb_iff s.next_task u,
            last u j p,
            last u j slot,
            last t i slot,
          );
        }

    -- The task is put back.
    pub put_back-IsScheduled :
        (group : List ℕ)
        → IsScheduled lost (record s { tasks = insert t i (remove t s.tasks); group = group })
    put_back-IsScheduled group =
        let same = λ (u : ℕ).
          let p : lookup u (insert t i (remove t s.tasks)) ≡ lookup u s.tasks = ground (
            arith,
            lookup-insert t u i (remove t s.tasks),
            lookup-remove t u s.tasks distinct_tasks,
            eqb_iff t u,
          ) in
          p in
        record {
          distinct_tasks =
              insert-Distinct t i (remove t s.tasks) (remove-Distinct t s.tasks distinct_tasks);
          distinct_slots = distinct_slots;
          used = λ u j e. ground (arith, same u, used u j);
          pending = λ j p e r l. ground (arith, same p.task, pending j p);
          last = λ u j p e f r. ground (arith, same u, last u j p);
        }
