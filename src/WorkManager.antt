-- ===== src/WorkManager.antt =====
-- worker/work_manager.py: how the worker follows the manager's response to `lock`. The four
-- `load_*` methods build what is new in the response and drop what is no longer in it. What
-- worker/work_factory.py builds is a parameter; a queue whose build raises is left out.
pub mod Follow
use data_lineup.Base.{
  String, Bool, true, false, not, Option, none, some, List, [], ◌∷◌, map, ◌==◌, string_eq, keep,
  if◌then◌else◌,
}
use data_lineup.Dict.{Dict, lookup, has_key, insert, remove, update, keys, values, elem}

pub record ItemsSync (Q : Type 0) : Type 0 where
  pub add : List Q
  pub drop : List Q

module _ {R : Type 0} where
  -- `{item.name: item for item in …}`
  abbrev pub by_name : (R → String) → List R → Dict String R → Dict String R
  by_name name_of [] d = d
  by_name name_of (r ∷ rs) d = by_name name_of rs (insert (name_of r) r d)

module _ {R Q : Type 0} where
  -- `{i: build(sync_items[i]) for i in add}`, without those that were not built.
  abbrev pub build_all :
      (R → Option Q) → Dict String R → List String → Dict String Q → Dict String Q
  build_all build sync [] d = d
  build_all build sync (i ∷ add) d = build_all build sync add (elim (lookup i sync) [
    | none ↦ d
    | some r ↦ elim (build r) [ none ↦ d | some q ↦ insert i q d ]
  ])

-- `a - b` on sets of keys.
abbrev pub difference : List String → List String → List String
difference a b = keep (λ k. not (elem k b)) a

module _ {Q : Type 0} where
  -- `[items.pop(k) for k in drop]`
  abbrev pub pop_all : List String → Dict String Q → List Q × Dict String Q
  pop_all [] d = ([], d)
  pop_all (k ∷ ks) d =
      let (out, d') = pop_all ks (remove k d) in
      ((elim (lookup k d) [ none ↦ out | some q ↦ q ∷ out ]), d')

module _ {R Q : Type 0} where
  unfoldable pub load :
      (R → String) → (R → Option Q) → List R → Dict String Q → ItemsSync Q × Dict String Q
  load name_of build items current =
      let sync = by_name name_of items [] in
      let add = difference (keys sync) (keys current) in
      let drop = difference (keys current) (keys sync) in
      let added = build_all build sync add [] in
      let (dropped, after) = pop_all drop (update current added) in
      (record { add = values added; drop = dropped }, after)

-- The items of a `lock` response, the parts that the worker keeps, and the names of its inputs.
pub record Kinds : Type 1 where
  pub QueueItem : Type 0
  pub ExecutableQueue : Type 0
  pub ResourceItem : Type 0
  pub ResourceData : Type 0
  pub ResourcesProviderItem : Type 0
  pub ResourcesProvider : Type 0
  pub ComponentDefinition : Type 0
  pub queue_name : QueueItem → String
  pub resource_name : ResourceItem → String
  pub provider_name : ResourcesProviderItem → String
  pub executor_name : ComponentDefinition → String
  pub build_queue : QueueItem → Option ExecutableQueue
  pub build_resource_data : ResourceItem → ResourceData
  pub build_resources_provider : ResourcesProviderItem → ResourcesProvider

module _ (kinds : Kinds) where
  open kinds use {
    QueueItem, ExecutableQueue, ResourceItem, ResourceData, ResourcesProviderItem,
    ResourcesProvider, ComponentDefinition, queue_name, resource_name, provider_name, executor_name,
    build_queue, build_resource_data, build_resources_provider,
  }

  pub record LockResponse : Type 0 where
    pub items : List QueueItem
    pub resources : List ResourceItem
    pub resources_providers : List ResourcesProviderItem
    pub executors : List ComponentDefinition

  pub record WorkManager : Type 0 where
    pub worker_items : Dict String ExecutableQueue
    pub worker_resources : Dict String ResourceData
    pub worker_resources_providers : Dict String ResourcesProvider
    pub worker_executors : Dict String ComponentDefinition

  pub record WorkSync : Type 0 where
    pub queues : ItemsSync ExecutableQueue
    pub resources : ItemsSync ResourceData
    pub resources_providers : ItemsSync ResourcesProvider
    pub executors : ItemsSync ComponentDefinition

  unfoldable pub load_queues : LockResponse → WorkManager → ItemsSync ExecutableQueue × WorkManager
  unfolding load
  load_queues response w =
      let (changes, items) = load queue_name build_queue response.items w.worker_items in
      (changes, record w { worker_items = items })

  unfoldable pub load_resources : LockResponse → WorkManager → ItemsSync ResourceData × WorkManager
  unfolding load
  load_resources response w =
      let (changes, items) =
        load resource_name (λ r. some (build_resource_data r)) response.resources
          w.worker_resources in
      (changes, record w { worker_resources = items })

  unfoldable pub load_resources_providers :
      LockResponse → WorkManager → ItemsSync ResourcesProvider × WorkManager
  unfolding load
  load_resources_providers response w =
      let (changes, items) =
        load provider_name (λ r. some (build_resources_provider r)) response.resources_providers
          w.worker_resources_providers in
      (changes, record w { worker_resources_providers = items })

  unfoldable pub load_executors :
      LockResponse → WorkManager → ItemsSync ComponentDefinition × WorkManager
  unfolding load
  load_executors response w =
      let (changes, items) =
        load executor_name (λ e. some e) response.executors w.worker_executors in
      (changes, record w { worker_executors = items })

  -- `sync` with the response at hand; its wait until the sync period has passed is not modelled.
  unfoldable pub sync : LockResponse → WorkManager → WorkSync × WorkManager
  unfolding load_queues load_resources load_resources_providers load_executors
  sync response w =
      let (queues, w₁) = load_queues response w in
      let (resources, w₂) = load_resources response w₁ in
      let (providers, w₃) = load_resources_providers response w₂ in
      let (executors, w₄) = load_executors response w₃ in
      (
        record {
          queues = queues;
          resources = resources;
          resources_providers = providers;
          executors = executors;
        },
        w₄,
      )
