-- ===== src/Lib.antt =====
-- DataLineup engine: a worker manager hands out queues of jobs, and workers read each job's
-- inventory item by item through a pipeline, keep its cursor, and send cursors and completions
-- back.
--
-- The parts, and the files that model them (paths from the repository's root):
--
-- * Inventory models `src/datalineup_engine/worker/inventory.py`. `begin_item` and `finish_item`
--   are the two halves of the context manager `CursorsState.process_item`; `as_dict`,
--   `as_cursor`, `from_dict` and `from_cursor` are the methods of those names. Inventory/Ledger
--   gives the states that interleaved items reach. Inventory/Iterate has `Inventory.iterate` with
--   its retries, and `worker/inventories/static.py`.
-- * Composite models the inventories made of others of `src/datalineup_engine/worker/inventories/`:
--   `iterate_chained` is `chained.py`, `iterate_batches` is `batching.py`, and `process_root` and
--   `process_sub` are the two contexts of `multi.py` that keep the cursors of a joined inventory.
-- * Sources models the loop, the periodic inventory and the fan-in of that directory (`loop.py`,
--   `periodic.py`, `fanin.py`); `fanin_iterators` is what `FanIn.iterate` hands to its scheduler.
-- * Batching models `src/datalineup_engine/worker/topics/batching.py`, whose two tasks are steps.
-- * JobState models `src/datalineup_engine/worker/services/job_state/store.py`: the states that
--   the worker collects between two flushes; `begin_flush` and `fail_flush` are the two ends of
--   the context manager `flush`.
-- * JobStateService models `src/datalineup_engine/worker/services/job_state/service.py`, on top of
--   JobState and, through `worker_manager/api/jobs.py`, of StatesSync: `fetch_cursors_states` with
--   the requests and the answers of the fetcher, `flush`, and in Batches the hooks
--   `on_items_batched` and `on_pipeline_events_emitted`.
-- * Resources models `ExclusiveResources` of `src/datalineup_engine/worker/resources/manager.py`, and
--   ResourcesManager the contexts and the manager of that file, with a pool for each type.
--   ResourcesProvider models `worker/resources/provider.py`, which fills the pools.
-- * Scheduler models `src/datalineup_engine/worker/executors/scheduler.py`: `process_task` is a
--   function of what the task came to, and `begin_close` and `end_close` are `close` before and after
--   its wait, in which `run` may go on. Scheduler/Run gives the states that calls and tasks reach.
-- * Executable models how an `ExecutableQueue` of `worker/executors/executable.py` counts its pending
--   messages and closes.
-- * ExecutorQueue models how `worker/executors/queue.py` submits messages, with the resources of
--   ResourcesManager, and the parkers of `worker/executors/parkers.py`: `delayed_submit` is
--   the end of that task, and `begin_output`, `block_output`, `unblock_output` and `end_output` are
--   the points of `consume_output` at which its message starts and ends to be parked or to wait.
-- * Processing models the rest of `worker/executors/queue.py`, from a message that was polled to the end
--   of its contexts: `run_message` is a round of `run_queue`, `finish` its `finally`, and
--   `publish_output` the scope within `consume_output`.
-- * Services models `src/datalineup_engine/worker/services/manager.py`, with the two lists of
--   `ServicesManager.__init__` and their aliasing.
-- * Usage models `src/datalineup_engine/worker/services/usage_metrics.py`: the accounting of time of a
--   pipeline, and the stages of a message with the hooks that move it.
-- * Throttle models `DelayedThrottle` of `src/datalineup_engine/utils/asyncutils.py`, which joins the
--   fetches and the flushes of JobStateService. Its task is a phase of the state.
-- * Config models the layers and the interfaces of `src/datalineup_engine/utils/config.py`;
--   `load_config_interface` and `get_config_value` are the functions of those names.
-- * Topology models `deep_merge` of `src/datalineup_engine/utils/dict.py`, and how
--   `worker_manager/config/declarative.py` patches the objects of a configuration and groups them.
-- * Hooks models `src/datalineup_engine/utils/hooks.py`; `emit_context` is the call of a
--   `ContextHookEmiter`, and its log holds what happens, in order.
-- * Credits models `Credits` and `CreditsScheduler` of `src/datalineup_engine/utils/iterators.py`.
-- * Buffering models `async_flatten` and `async_buffered` of the same file, the second as steps of
--   its task and of its loop.
-- * Lru models `src/datalineup_engine/utils/lru.py`.
-- * WorkManager models `sync` and the `load_*` methods of
--   `src/datalineup_engine/worker/work_manager.py`.
-- * Broker models `run_sync` of `src/datalineup_engine/worker/broker.py` and
--   `worker/executors/manager.py`: it hands what WorkManager answers to a Scheduler for each executor
--   and to ResourcesManager. What providers do when they are opened and closed (they may raise, and
--   may add resources), and which executors close without an exception, are arguments.
-- * Stores models the tables of `src/datalineup_engine/models/queue.py` and `models/job.py` and the
--   statements of `stores/queues_store.py` and `stores/jobs_store.py`.
-- * Lock models `lock_jobs` of `src/datalineup_engine/worker_manager/services/lock.py`, which
--   answers the request that WorkManager follows.
-- * Start models `start` of `src/datalineup_engine/stores/jobs_store.py` and `_sync_jobs` of
--   `worker_manager/services/sync.py`, which create the jobs that Lock hands out.
-- * StatesSync models `sync_jobs_states` and `fetch_cursors_states` of
--   `src/datalineup_engine/stores/jobs_store.py`, which take the batches that JobState collects.
-- * SharedLock models the lock of that name in `src/datalineup_engine/utils/asyncutils.py`.
-- * ErrorHandling models `src/datalineup_engine/worker/error_handling.py`: the error channels of a
--   queue, and the retries of a message.
--
-- A Python dictionary is an association list in insertion order (Dict), a set is a list without
-- repetitions, and a raised exception is `none` or a value of a result type. Objects compared by
-- identity carry a handle that stands for `id(...)`. Operations of Python and of third-party
-- packages are parameters: `Codec` and `Cursors` (`sorted`, `json.dumps`, `json.loads`), `Decimal` (`str`, `int`),
-- `Env` (the database's pattern match and order), `Text` (methods of `str` and `re`), the schedule of
-- croniter, the table of strategies of the limits library, what its limiters answer, the digest of
-- `hashlib`, `str.lower`, and the factories of `worker/work_factory.py`. Tests/Codecs has concrete
-- functions that satisfy what is assumed of `Codec` and `Decimal`.
--
-- Four functions run on fuel. `iterate_from` takes one unit for each call of `next_batch`, because an
-- inventory may be endless; `out_of_fuel` holds what was yielded so far. `iterate_batches` takes one
-- unit for each batch, and its items are a finite list. `load_aliased` takes one for each service that
-- is tried; it is the model of a loop that may not end. The `iterate_from` of Sources takes one for each round
-- of a loop.
--
-- Not modelled: asyncio's waits and the wake-up of waiting tasks, HTTP, logging, metrics and
-- tracing, the parsing of configuration files, the execution of a pipeline in its process, the
-- scheduling of joined and merged inventories, the other topics, and the
-- start-up code.
pub mod Base
pub mod Dict
pub mod Inventory
pub mod Composite
pub mod Sources
pub mod JobState
pub mod Resources
pub mod Credits
pub mod Buffering
pub mod Lru
pub mod Services
pub mod Batching
pub mod Usage
pub mod WorkManager
pub mod Broker
pub mod Topology
pub mod Stores
pub mod Lock
pub mod ErrorHandling
pub mod Start
pub mod StatesSync
pub mod SharedLock
pub mod JobStateService
pub mod Config
pub mod Throttle
pub mod Hooks
pub mod Executable
pub mod Processing
pub mod Scheduler
pub mod ResourcesManager
pub mod ResourcesProvider
pub mod ExecutorQueue
mod Tests
