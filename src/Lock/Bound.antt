-- ===== src/Lock/Bound.antt =====
-- `lock_jobs`: how many items a worker is given, and that it can run each of them.
use data_lineup.Base.{
  ℕ, suc, ◌+◌, ◌-◌, ◌≤◌, String, true, false, ◌&&◌, Option, some, List, [], ◌∷◌, ◌++◌, map,
  string_eq, length, take, drop, ◌≡◌, refl, ap, arith, length-append, length-take-le, All,
  All-append, Option-cases, Bool-cases, inl, inr, is_some, ◌⊎◌, eqb_iff, keep, List-cases, ◌∙◌,
}
use data_lineup.Dict.{Dict, lookup, values}
use data_lineup.Stores.{
  Queue, Database, Env, get_unassigned_queues, get_assigned_queues, is_free, is_selected,
}
use data_lineup.Lock.{
  ResourceEntry, QueueItemWithState, StaticDefinitions, LockInput, join_definitions, is_excluded,
  has_executors, Joined, fail_job, join_all, Collected, collect_types, collect_entries, collect_one,
  collect, cutoff, candidates, lock_jobs, write_all, unassign_queue,
}

length-map {ℓ κ} :
    {A : Type ℓ} {B : Type κ} (f : A → B) (xs : List A) → length (map f xs) ≡ length xs
length-map f [] = refl
length-map f (x ∷ xs) = ap suc (length-map f xs)

module _ (defs : StaticDefinitions) (repr : Queue → String) (now : ℕ)
    (executors : Option (List String)) where
  length-join_all-le :
      (qs : List Queue) (db : Database)
      → length (join_all defs repr now executors qs db).0 ≤ length qs
  unfolding join_all
  length-join_all-le [] db = omega arith
  length-join_all-le (q ∷ qs) db =
      ground (arith, length-join_all-le qs (fail_job repr now q db), length-join_all-le qs db)

  -- The executor of a joined item was not excluded.
  join_all-allowed :
      (qs : List Queue) (db : Database)
      → All
          (λ j. is_excluded executors j.1.item.executor ≡ false)
          (join_all defs repr now executors qs db).0
  unfolding join_all
  join_all-allowed [] db = tt
  join_all-allowed (q ∷ qs) db = elim (Option-cases (join_definitions defs db q)) [
    | inl e ↦ rw (e, join_all) (join_all-allowed qs (fail_job repr now q db))
    | inr (item, e) ↦ elim (Bool-cases (is_excluded executors item.item.executor)) [
      | inl x ↦ rw (e, join_all, x) (join_all-allowed qs db)
      | inr x ↦ rw (e, join_all, x) (x, join_all-allowed qs db)
    ]
  ]

-- The worker can run the item: every resource type that it needs has an entry, and its executor is
-- defined.
abbrev pub HasEntries : StaticDefinitions → String → Type 0
HasEntries defs t =
    (e : ResourceEntry) × (es : List ResourceEntry) × (lookup t defs.resources_by_type
      ≡ some (e ∷ es))

abbrev pub IsRunnable : StaticDefinitions → QueueItemWithState → Type 0
IsRunnable defs item =
    All (HasEntries defs) item.item.resources
    × (is_some (lookup item.item.executor defs.executors) ≡ true)

module _ (defs : StaticDefinitions) where
  collect_types-HasEntries :
      (ts : List String) (found r : Dict String String × Dict String String)
      → collect_types defs ts found ≡ some r
      → All (HasEntries defs) ts
  unfolding collect_types
  collect_types-HasEntries [] found r e = tt
  collect_types-HasEntries (t ∷ ts) found r e =
      elim (Option-cases (lookup t defs.resources_by_type)) [
        | inl absent ↦ absurd (ground (arith, absent))
        | inr (es, l) ↦ elim (List-cases es) [
          | inl empty ↦ absurd (ground (arith, l, empty))
          | inr (x, xs, split) ↦ (
            (x, xs, l ∙ ap some split),
            collect_types-HasEntries ts (collect_entries (x ∷ xs) found) r
                (ground (arith, l, split)),
          )
        ]
      ]

  -- One round keeps an item only if the worker can run it, and keeps nothing else.
  collect_one-cases :
      (j : Joined) (c : Collected)
      → ((collect_one defs j c).kept ≡ c.kept)
        ⊎ (((collect_one defs j c).kept ≡ c.kept ++ j ∷ []) × IsRunnable defs j.1)
  unfolding collect_one
  collect_one-cases j c = elim (Option-cases (collect_types defs j.1.item.resources ([], []))) [
    | inl e ↦ inl (ground (arith, e))
    | inr (found, e) ↦ elim (Option-cases (lookup j.1.item.executor defs.executors)) [
      | inl x ↦ inl (ground (arith, e, x))
      | inr (executor, x) ↦ inr (
        ground (arith, e, x),
        (collect_types-HasEntries j.1.item.resources ([], []) found e, rw x),
      )
    ]
  ]

  length-collect-le :
      (js : List Joined) (c : Collected)
      → length (collect defs js c).kept ≤ length c.kept + length js
  unfolding collect
  length-collect-le [] c = omega arith
  length-collect-le (j ∷ js) c = elim (collect_one-cases j c) [
    | inl e ↦ omega (arith, length-collect-le js (collect_one defs j c), ap (length {0}) e)
    | inr (e, _) ↦ omega (
      arith,
      length-collect-le js (collect_one defs j c),
      ap (length {0}) e,
      length-append c.kept (j ∷ []),
    )
  ]

  -- What holds of every joined item and of all that was kept before holds of all that is kept.
  collect-All :
      (P : Joined → Type 0) (js : List Joined) (c : Collected)
      → All P js
      → All (λ j. P j × IsRunnable defs j.1) c.kept
      → All (λ j. P j × IsRunnable defs j.1) (collect defs js c).kept
  unfolding collect
  collect-All P [] c h k = k
  collect-All P (j ∷ js) c h k = elim (collect_one-cases j c) [
    | inl e ↦ collect-All P js (collect_one defs j c) h.1 (rw e k)
    | inr (e, usable) ↦
        collect-All P js (collect_one defs j c) h.1
          (rw e (All-append (λ j. P j × IsRunnable defs j.1) c.kept (j ∷ []) k ((h.0, usable), tt)))
  ]

All-map {ℓ κ} :
    {A : Type ℓ} {B : Type κ} (P : B → Type 0) (f : A → B) (xs : List A)
    → All (λ x. P (f x)) xs
    → All P (map f xs)
All-map P f [] h = tt
All-map P f (x ∷ xs) h = (h.0, All-map P f xs h.1)

-- A limit that is not 0 bounds the free queues that are read.
length-get_unassigned_queues-le :
    (env : Env) (db : Database) (assigned_before : ℕ) (selector : Option String) (n : ℕ)
    → 1 ≤ n
    → length (get_unassigned_queues env db assigned_before selector (some n)) ≤ n
unfolding get_unassigned_queues
length-get_unassigned_queues-le env db assigned_before selector n h = ground (
  arith,
  eqb_iff n 0,
  length-take-le n (
      keep (λ q. q.enabled && (is_free q.assigned_at assigned_before && is_selected env selector q))
        (values db.queues)),
)

module _ (env : Env) (repr : Queue → String) (defs : StaticDefinitions) (input : LockInput)
    (max_assigned_items now new_assigned_at : ℕ) (db : Database) where
  length-candidates-le :
      has_executors input.executors ≡ false
      → length (candidates env repr defs input max_assigned_items now db).0 ≤ max_assigned_items
  unfolding candidates
  length-candidates-le h =
      let already =
        get_assigned_queues env db input.worker_id (cutoff env repr defs now) input.selector in
      let assigned = take max_assigned_items already in
      let free = max_assigned_items - length assigned in
      let db' = write_all unassign_queue (drop max_assigned_items already) db in
      let more =
        get_unassigned_queues env db' (cutoff env repr defs now) input.selector (some free) in
      rw h (
        ground (
          arith,
          length-append assigned more,
          length-take-le max_assigned_items already,
          length-get_unassigned_queues-le env db' (cutoff env repr defs now) input.selector free,
        ))

  -- A worker that names no executors is never given more than `max_assigned_items` items.
  pub length-lock_jobs-le :
      has_executors input.executors ≡ false
      → length (lock_jobs env repr defs input max_assigned_items now new_assigned_at db).0.items
        ≤ max_assigned_items
  unfolding lock_jobs
  length-lock_jobs-le h =
      let (queues, db₁) = candidates env repr defs input max_assigned_items now db in
      let joined = (join_all defs repr now input.executors queues db₁).0 in
      let start : Collected = record {
        kept = [];
        resources = [];
        resources_providers = [];
        executors = [];
      } in
      omega (
        arith,
        length-map (λ (j : Joined). j.1) (collect defs joined start).kept,
        length-collect-le defs joined start,
        length-join_all-le defs repr now input.executors queues db₁,
        length-candidates-le h,
      )

  -- Every item given to a worker can be run by it: its executor is defined and, if the worker names
  -- executors, among those; and every type of resource that it needs has an entry.
  pub lock_jobs-IsRunnable :
      All
        (λ item. (is_excluded input.executors item.item.executor ≡ false) × IsRunnable defs item)
        (lock_jobs env repr defs input max_assigned_items now new_assigned_at db).0.items
  unfolding lock_jobs
  lock_jobs-IsRunnable =
      let (queues, db₁) = candidates env repr defs input max_assigned_items now db in
      let joined = (join_all defs repr now input.executors queues db₁).0 in
      let start : Collected = record {
        kept = [];
        resources = [];
        resources_providers = [];
        executors = [];
      } in
      All-map
        (λ item. (is_excluded input.executors item.item.executor ≡ false) × IsRunnable defs item)
        (λ j. j.1) (collect defs joined start).kept
        (collect-All defs (λ j. is_excluded input.executors j.1.item.executor ≡ false) joined start
          (join_all-allowed defs repr now input.executors queues db₁) tt)
