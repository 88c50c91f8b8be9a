-- ===== src/WorkManager/Follow.antt =====
-- After a `load_*` the worker holds what the manager's response names, and builds nothing twice.
use data_lineup.Base.{
  String, true, not, ◌&&◌, Option, none, some, List, [], ◌∷◌, ==_iff, string_eq, if◌then◌else◌,
  or_else, ◌≡◌, refl, ◌∙◌, arith, Option-cases, inl, inr,
}
use data_lineup.Dict.{
  Dict, lookup, has_key, insert, remove, update, keys, elem, Distinct, lookup-insert, lookup-remove,
  has_key-lookup, insert-Distinct, remove-Distinct, update-Distinct, lookup-update, elem-keep,
}
use data_lineup.WorkManager
use data_lineup.WorkManager.{
  ItemsSync, by_name, build_all, difference, pop_all, load, Kinds, LockResponse, WorkManager,
}

elem-keys : {V : Type 0} (k : String) (d : Dict String V) → elem k (keys d) ≡ has_key k d
elem-keys k [] = refl
elem-keys k (p ∷ d) = ground (arith, elem-keys k d)

elem-difference :
    (k : String) (a b : List String) → elem k (difference a b) ≡ (not (elem k b) && elem k a)
elem-difference k a b = elem-keep k (λ x. not (elem x b)) a

difference-nil :
    (a b : List String) → ((k : String) → elem k a ≡ true → elem k b ≡ true) → difference a b ≡ []
difference-nil [] b h = refl
difference-nil (x ∷ a) b h =
    ground (arith, ==_iff x x, h x, difference-nil a b (λ k e. h k (ground arith)))

module _ {R Q : Type 0} (build : R → Option Q) where
  -- What is built for a key.
  abbrev pub built : Option R → Option Q
  built none = none
  built (some r) = build r

  lookup-build_all :
      (k : String) (sync : Dict String R) (add : List String) (d : Dict String Q)
      → lookup k (build_all build sync add d)
        ≡ (if elem k add then or_else (built (lookup k sync)) (lookup k d) else lookup k d)
  lookup-build_all k sync [] d = refl
  lookup-build_all k sync (i ∷ add) d =
      let step : Dict String Q = elim (lookup i sync) [
        | none ↦ d
        | some r ↦ elim (build r) [ none ↦ d | some q ↦ insert i q d ]
      ] in
      lookup-build_all k sync add step ∙ elim (Option-cases (lookup i sync)) [
        | inl e ↦ ground (arith, ==_iff i k, e)
        | inr (r, e) ↦ elim (Option-cases (build r)) [
          | inl f ↦ ground (arith, ==_iff i k, e, f)
          | inr (q, f) ↦ ground (arith, ==_iff i k, e, f, lookup-insert i k q d)
        ]
      ]

  build_all-Distinct :
      (sync : Dict String R) (add : List String) (d : Dict String Q)
      → Distinct d
      → Distinct (build_all build sync add d)
  build_all-Distinct sync [] d h = h
  build_all-Distinct sync (i ∷ add) d h = elim (Option-cases (lookup i sync)) [
    | inl e ↦ rw e (build_all-Distinct sync add d h)
    | inr (r, e) ↦ elim (Option-cases (build r)) [
      | inl f ↦ rw (e, f) (build_all-Distinct sync add d h)
      | inr (q, f) ↦
          rw (e, f) (build_all-Distinct sync add (insert i q d) (insert-Distinct i q d h))
    ]
  ]

module _ {Q : Type 0} where
  lookup-pop_all :
      (k : String) (ks : List String) (d : Dict String Q)
      → Distinct d
      → lookup k (pop_all ks d).1 ≡ (if elem k ks then none else lookup k d)
  lookup-pop_all k [] d h = refl
  lookup-pop_all k (x ∷ ks) d h = ground (
    arith,
    ==_iff x k,
    lookup-pop_all k ks (remove x d) (remove-Distinct x d h),
    lookup-remove x k d h,
  )

module _ {R Q : Type 0} (name_of : R → String) (build : R → Option Q) (items : List R)
    (current : Dict String Q) (distinct : Distinct current) where
  abbrev sync : Dict String R
  sync = by_name name_of items []

  lookup-load :
      (k : String)
      → lookup k (load name_of build items current).1 ≡ elim (lookup k sync) as (λ _. Option Q) [
        | none ↦ none
        | some r ↦ or_else (lookup k current) (build r)
      ]
  unfolding load
  lookup-load k =
      let add = difference (keys sync) (keys current) in
      let added = build_all build sync add [] in
      let drop = difference (keys current) (keys sync) in
      ground (
        arith,
        lookup-pop_all k drop (update current added) (update-Distinct current added distinct),
        lookup-update k current added (build_all-Distinct build sync add [] tt),
        lookup-build_all build k sync add [],
        elem-difference k (keys sync) (keys current),
        elem-difference k (keys current) (keys sync),
        elem-keys k sync,
        elem-keys k current,
        has_key-lookup k sync,
        has_key-lookup k current,
      )

  module _
      (all_built : (k : String) (r : R)
        → lookup k sync ≡ some r
        → (q : Q) × (build r ≡ some q)) where
    has_key-load : (k : String) → has_key k (load name_of build items current).1 ≡ has_key k sync
    has_key-load k = elim (Option-cases (lookup k sync)) [
      | inl e ↦ rw (
        has_key-lookup k (load name_of build items current).1,
        lookup-load k,
        has_key-lookup k sync,
        e,
      )
      | inr (r, e) ↦
          let (q, b) = all_built k r e in
          rw
            (
              has_key-lookup k (load name_of build items current).1,
              lookup-load k,
              has_key-lookup k sync,
              e,
              b,
            )
            (ground arith)
    ]

    -- A second `load_*` of the same response changes nothing: nothing is built, nothing dropped.
    -- Given that the items held have distinct names and that every item of the response is built.
    pub load-load :
        let items' = (load name_of build items current).1 in
        load name_of build items items' ≡ (record { add = []; drop = [] }, items')
    load-load = unchanged (load name_of build items current).1 has_key-load
      where
        unchanged :
            (d : Dict String Q)
            → ((k : String) → has_key k d ≡ has_key k sync)
            → load name_of build items d ≡ (record { add = []; drop = [] }, d)
        unchanged d h =
            unfold load in
            rw (
              difference-nil (keys sync) (keys d)
                  (λ k e. ground (arith, elem-keys k sync, elem-keys k d, h k)),
              difference-nil (keys d) (keys sync)
                  (λ k e. ground (arith, elem-keys k sync, elem-keys k d, h k)),
            )

module _ (kinds : Kinds) (response : LockResponse kinds) (w : WorkManager kinds) where
  open kinds use {
    queue_name, resource_name, provider_name, executor_name, build_queue, build_resource_data,
    build_resources_provider,
  }

  -- After a sync the worker has, for every name: the queue it had, or else the one that is built,
  -- if the response names the queue, and otherwise none; and likewise for the resources, the
  -- resources providers and the executors. Given that it held each name at most once.
  pub sync-follows :
      (k : String)
      → Distinct w.worker_items
      → Distinct w.worker_resources
      → Distinct w.worker_resources_providers
      → Distinct w.worker_executors
      → (lookup k (WorkManager.sync kinds response w).1.worker_items
          ≡ elim (lookup k (by_name queue_name response.items [])) [
            | none ↦ none
            | some r ↦ or_else (lookup k w.worker_items) (build_queue r)
          ])
        × (lookup k (WorkManager.sync kinds response w).1.worker_resources
            ≡ elim (lookup k (by_name resource_name response.resources [])) [
              | none ↦ none
              | some r ↦ or_else (lookup k w.worker_resources) (some (build_resource_data r))
            ])
        × (lookup k (WorkManager.sync kinds response w).1.worker_resources_providers
            ≡ elim (lookup k (by_name provider_name response.resources_providers [])) [
              | none ↦ none
              | some r ↦
                  or_else
                    (lookup k w.worker_resources_providers)
                    (some (build_resources_provider r))
            ])
        × (lookup k (WorkManager.sync kinds response w).1.worker_executors
            ≡ elim (lookup k (by_name executor_name response.executors [])) [
              | none ↦ none
              | some r ↦ or_else (lookup k w.worker_executors) (some r)
            ])
  unfolding WorkManager.sync
  sync-follows k a b c d = (
    lookup-load queue_name build_queue response.items w.worker_items a k,
    lookup-load resource_name (λ r. some (build_resource_data r)) response.resources
        w.worker_resources b k,
    lookup-load provider_name (λ r. some (build_resources_provider r)) response.resources_providers
        w.worker_resources_providers c k,
    lookup-load executor_name (λ e. some e) response.executors w.worker_executors d k,
  )
