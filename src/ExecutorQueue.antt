-- ===== src/ExecutorQueue.antt =====
-- worker/executors/queue.py and parkers.py: how messages are submitted to an executor, and how the
-- queue they come from is parked meanwhile. The messages are those of one `ExecutableQueue`; a
-- message is named by a number, its identity. `submitted` is what was put into the executor's
-- queue, latest first, `delayed` the messages of the tasks of `delayed_submit`,
-- `consuming` those for which `consume_output` runs, and `blocked` those of them for which it waits
-- for a topic. Hooks, logging and the bound of the queue are left out.
pub mod Parked
use data_lineup.Base.{
  ℕ, String, Bool, true, false, not, Option, none, some, List, [], ◌∷◌, nat_eq, if◌then◌else◌,
}
use data_lineup.Dict.{Dict, add, discard, insert}
use data_lineup.Resources.{ResourceData, Error, resource_unavailable, Result, ok, raise}
use data_lineup.ResourcesManager.{ResourcesManager, Held, acquire_many, release_all}

pub record Message : Type 0 where
  pub id : ℕ
  pub missing_resources : List String

pub record ExecutorQueue : Type 0 where
  pub manager : ResourcesManager
  pub parkers : List ℕ
  pub submitted : List ℕ
  pub delayed : List ℕ
  pub consuming : List ℕ
  pub blocked : List ℕ
  pub attached : Dict ℕ Held

abbrev pub park : ℕ → ExecutorQueue → ExecutorQueue
park m q = record q { parkers = add m q.parkers }

abbrev pub unpark : ℕ → ExecutorQueue → ExecutorQueue
unpark m q = record q { parkers = discard m q.parkers }

-- `Parkers.locked`, and what `wait` waits for to be false.
abbrev pub locked : ExecutorQueue → Bool
locked q = elim q.parkers [ [] ↦ false | _ ∷ _ ↦ true ]

abbrev pub queue_submit : ℕ → ExecutorQueue → ExecutorQueue
queue_submit m q = record q { submitted = m ∷ q.submitted }

-- `attach_resources`, of the contexts that were acquired.
abbrev pub attach_resources : ℕ → Held → ExecutorQueue → ExecutorQueue
attach_resources m held q = record q { attached = insert m held q.attached }

module _ (sorted : List String → List String) (now : ℕ) (stats : ResourceData → List (ℕ × ℕ)) where
  -- `acquire_resources` with `wait=False`
  unfoldable pub acquire_resources : Message → ExecutorQueue → Result Bool × ExecutorQueue
  acquire_resources m q = elim m.missing_resources [
    | [] ↦ (ok true, q)
    | r ∷ rs ↦
        let (found, manager) = acquire_many sorted now stats (r ∷ rs) q.manager in
        let q' = record q { manager = manager } in
        elim found [
          | ok held ↦ (ok true, attach_resources m.id held q')
          | raise resource_unavailable ↦ (ok false, q')
          | raise e ↦ (raise e, q')
        ]
  ]

  unfoldable pub submit : Message → ExecutorQueue → Result (Unit {0}) × ExecutorQueue
  unfolding acquire_resources
  submit m q =
      let (acquired, q') = acquire_resources m q in
      elim acquired [
        | raise e ↦ (raise e, q')
        | ok has_all ↦
            if has_all
            then (ok tt, queue_submit m.id q')
            else (ok tt, record (park m.id q') { delayed = m.id ∷ q'.delayed })
      ]

-- The end of a task of `delayed_submit`, where the wait for resources gave `acquired`, or raised.
unfoldable pub delayed_submit :
    ℕ → (acquired : Option (Held × ResourcesManager)) → ExecutorQueue → ExecutorQueue
delayed_submit m acquired q =
    let q' = unpark m (record q { delayed = discard m q.delayed }) in
    elim acquired [
      | none ↦ q'
      | some a ↦ queue_submit m (attach_resources m a.0 (record q' { manager = a.1 }))
    ]

-- `consume_output` from its beginning, where a topic takes an output only after a wait, where that
-- wait is over (the topic took the output, or raised), and in its `finally`, which also runs where
-- the task is cancelled in a wait.
abbrev pub begin_output : ℕ → ExecutorQueue → ExecutorQueue
begin_output m q = record q { consuming = add m q.consuming }

abbrev pub block_output : ℕ → ExecutorQueue → ExecutorQueue
block_output m q = record (park m q) { blocked = add m q.blocked }

abbrev pub unblock_output : ℕ → ExecutorQueue → ExecutorQueue
unblock_output m q = record q { blocked = discard m q.blocked }

abbrev pub end_output : ℕ → ExecutorQueue → ExecutorQueue
end_output m q = record (unpark m q) {
  consuming = discard m q.consuming;
  blocked = discard m q.blocked;
}
