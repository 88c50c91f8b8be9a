-- ===== src/Scheduler.antt =====
-- worker/executors/scheduler.py: the scheduler that polls queues in turn. An item is named by a
-- number, its identity, and a task by the order of its creation; a slot's generator and future are
-- those of its item. What a task that is done came to is an argument.
pub mod Pending
pub mod Run
use data_lineup.Base.{
  ℕ, zero, suc, ◌+◌, String, Bool, true, false, not, ◌&&◌, Option, none, some, List, [], ◌∷◌, ◌++◌,
  leb, keep, if◌then◌else◌, ◌==◌, nat_eq,
}
use data_lineup.Dict.{Dict, lookup, has_key, insert, remove, elem, discard}

pub record ScheduleSlot : Type 0 where
  pub task : ℕ
  pub order : ℕ
  pub is_running : Bool

-- `group` holds the tasks of `tasks_group`, `cancelled` those that `cancel` was called on, and
-- `resolved` the items whose future is set. `is_running` is `none` before `run`.
pub record Scheduler : Type 0 where
  pub schedule_slots : Dict ℕ ScheduleSlot
  pub tasks : Dict ℕ ℕ
  pub group : List ℕ
  pub next_task : ℕ
  pub cancelled : List ℕ
  pub resolved : List ℕ
  pub is_running : Option Bool

abbrev pub init : Scheduler
init = record {
  schedule_slots = [];
  tasks = [];
  group = [];
  next_task = 0;
  cancelled = [];
  resolved = [];
  is_running = none;
}

-- A new `__anext__` task for an item.
abbrev pub create_task : ℕ → Scheduler → Scheduler
create_task item s = record s {
  tasks = insert s.next_task item s.tasks;
  group = s.next_task ∷ s.group;
  next_task = s.next_task + 1;
}

unfoldable pub add : ℕ → Scheduler → Scheduler
add item s =
    let slot : ScheduleSlot = record { task = s.next_task; order = 0; is_running = true } in
    record (create_task item s) { schedule_slots = insert item slot s.schedule_slots }

-- `cancel` on a task that is done does nothing.
unfoldable pub stop_slot : (is_done : ℕ → Bool) → ℕ → ScheduleSlot → Scheduler → Scheduler
stop_slot is_done item slot s = record s {
  schedule_slots = insert item (record slot { is_running = false }) s.schedule_slots;
  cancelled = if is_done slot.task then s.cancelled else slot.task ∷ s.cancelled;
}

-- `Scheduler.remove`
unfoldable pub remove_item : (is_done : ℕ → Bool) → ℕ → Scheduler → Scheduler
unfolding stop_slot
remove_item is_done item s = elim (lookup item s.schedule_slots) [
  | none ↦ s
  | some slot ↦ stop_slot is_done item slot s
]

abbrev pub undone : (is_done : ℕ → Bool) → List ℕ → List ℕ
undone is_done ts = keep (λ t. not (is_done t)) ts

-- `close` up to the wait of `tasks_group.close()` for the tasks that it cancels. Meanwhile `run`
-- may process tasks.
unfoldable pub begin_close : (is_done : ℕ → Bool) → Scheduler → Scheduler
begin_close is_done s = record s {
  is_running = some false;
  cancelled = undone is_done s.group ++ s.cancelled;
}

-- `stop_slot` for every slot: the slots, and their tasks.
abbrev pub stop_all : Dict ℕ ScheduleSlot → Dict ℕ ScheduleSlot
stop_all [] = []
stop_all ((item, slot) ∷ slots) = (item, record slot { is_running = false }) ∷ stop_all slots

abbrev pub slot_tasks : Dict ℕ ScheduleSlot → List ℕ
slot_tasks [] = []
slot_tasks ((item, slot) ∷ slots) = slot.task ∷ slot_tasks slots

-- `close` from the end of that wait on.
unfoldable pub end_close : (is_done : ℕ → Bool) → Scheduler → Scheduler
end_close is_done s = record s {
  cancelled = undone is_done (slot_tasks s.schedule_slots) ++ s.cancelled;
  group = [];
  schedule_slots = stop_all s.schedule_slots;
}

-- What a task came to: it was cancelled, has a result, raised `StopAsyncIteration`, another
-- `Exception`, or a `BaseException`. `interrupted` is a result at whose `yield` the generator of
-- `run` is closed.
pub data TaskOutcome : Type 0 where
  was_cancelled has_result has_stopped has_failed is_fatal interrupted : TaskOutcome

-- `raised` where `process_task` raises.
pub data Processed : Type 0 where
  unknown_task : Processed
  done : (yielded : Option ℕ) → Scheduler → Processed
  raised : Scheduler → Processed

-- `stop_slot_generator`, which sets the future whether or not `aclose` raises.
abbrev pub stop_slot_generator : ℕ → Scheduler → Scheduler
stop_slot_generator item s = record s { resolved = item ∷ s.resolved }

abbrev pub requeue_task : ℕ → ScheduleSlot → Scheduler → Scheduler
requeue_task item slot s =
    let slot' = record slot { task = s.next_task; order = slot.order + 1 } in
    record (create_task item s) { schedule_slots = insert item slot' s.schedule_slots }

-- The `else` of the `try`.
unfoldable pub requeue : ℕ → Scheduler → Scheduler
requeue item s = elim (lookup item s.schedule_slots) [
  | none ↦ s
  | some slot ↦
      if slot.is_running
      then requeue_task item slot s
      else stop_slot_generator item (record s { schedule_slots = remove item s.schedule_slots })
]

-- The `except BaseException` of the `try`.
abbrev pub put_back : ℕ → ℕ → Scheduler → Scheduler
put_back task item s = record s { tasks = insert task item s.tasks; group = task ∷ s.group }

-- The `try` of `process_task`, for a task of an item that has a slot.
unfoldable pub process_outcome : (is_done : ℕ → Bool) → ℕ → ℕ → TaskOutcome → Scheduler → Processed
unfolding remove_item requeue
process_outcome is_done task item outcome s =
    let s' = record s { tasks = remove task s.tasks } in
    elim outcome [
      | was_cancelled ↦ done none s'
      | has_result ↦ done (some item) (requeue item s')
      | has_stopped ↦ done none (requeue item (remove_item is_done item s'))
      | has_failed ↦ done none (requeue item (remove_item is_done item s'))
      | is_fatal ↦ raised (put_back task item s')
      | interrupted ↦ raised (put_back task item s')
    ]

unfoldable pub process_task : (is_done : ℕ → Bool) → ℕ → TaskOutcome → Scheduler → Processed
unfolding process_outcome
process_task is_done task outcome s = elim (lookup task s.tasks) [
  | none ↦ unknown_task
  | some item ↦
      if has_key item s.schedule_slots
      then process_outcome is_done task item outcome s
      else done none (record s { tasks = remove task s.tasks })
]

-- `task_order`; a task whose item has no slot comes before all others.
abbrev pub task_order : Scheduler → ℕ → ℕ
task_order s task = elim (lookup task s.tasks) [
  | none ↦ 0
  | some item ↦ elim (lookup item s.schedule_slots) [ none ↦ 0 | some slot ↦ slot.order + 1 ]
]

-- `sorted(done, key=self.task_order)`, which keeps the order of equal keys.
abbrev pub insert_sorted : Scheduler → ℕ → List ℕ → List ℕ
insert_sorted s t [] = t ∷ []
insert_sorted s t (u ∷ us) =
    let rest = insert_sorted s t us in
    if leb (task_order s t) (task_order s u) then t ∷ u ∷ us else u ∷ rest

unfoldable pub sort_tasks : Scheduler → List ℕ → List ℕ
sort_tasks s [] = []
sort_tasks s (t ∷ ts) = insert_sorted s t (sort_tasks s ts)

-- One round of `run`: what is yielded, and the state; `none` where it raises.
abbrev pub process_all :
    (is_done : ℕ → Bool)
    → (outcome : ℕ → TaskOutcome) → List ℕ
    → Scheduler
    → Option (List ℕ × Scheduler)
process_all is_done outcome [] s = some ([], s)
process_all is_done outcome (t ∷ ts) s = elim (process_task is_done t (outcome t) s) [
  | unknown_task ↦ none
  | raised s' ↦ none
  | done yielded s' ↦ elim (process_all is_done outcome ts s') [
    | none ↦ none
    | some (out, s'') ↦ some ((elim yielded [ none ↦ out | some item ↦ item ∷ out ]), s'')
  ]
]

unfoldable pub run_round :
    (is_done : ℕ → Bool)
    → (outcome : ℕ → TaskOutcome) → (ready : List ℕ) → Scheduler
    → Option (List ℕ × Scheduler)
unfolding process_task sort_tasks
run_round is_done outcome ready s =
    let s' = record s { group = keep (λ t. not (elem t ready)) s.group } in
    process_all is_done outcome (sort_tasks s ready) s'
