-- ===== src/Broker/Rounds.antt =====
-- Which executors the broker runs after a round.
use data_lineup.Base.{
  ℕ, String, Bool, true, false, not, ◌||◌, ◌&&◌, List, [], ◌∷◌, string_eq, All, ◌≡◌, refl, ◌∙◌, ap,
  arith,
}
use data_lineup.Dict.{has_key, Distinct, elem}
use data_lineup.ResourcesManager.{ResourcesManager, pool}
use data_lineup.Broker.{
  WorkSync, Broker, Provide, synced, each, call_add_executor, call_add_queue, call_remove_executor,
  call_remove_queue, call_provider, call_add_resource, call_remove_resource, apply_sync,
}
use data_lineup.Broker.Loops.{
  Runs, after_all, AllGood, each-Ends, with_name, without_name, add_executor-Runs, add_queue-Runs,
  remove_executor-Runs,
}
use data_lineup.Broker.Parts.{
  Reaches, RunsSome, each-Reaches, and_then, All-map, AreAddable, after_resources, after_providers,
  AllReturn, add_resources-Runs, providers-Runs, each-RunsSome, call_remove_resource-RunsSome,
  call_remove_queue-RunsSome,
}

after_all-with_name :
    (xs : List String) (names : String → Bool) (n : String)
    → after_all with_name xs names n ≡ (names n || elem n xs)
after_all-with_name [] names n = ground arith
after_all-with_name (x ∷ xs) names n = ground (arith, after_all-with_name xs (with_name x names) n)

after_all-without_name :
    (xs : List String) (names : String → Bool) (n : String)
    → after_all without_name xs names n ≡ (names n && not (elem n xs))
after_all-without_name [] names n = ground arith
after_all-without_name (x ∷ xs) names n =
    ground (arith, after_all-without_name xs (without_name x names) n)

-- The executors that run, and those that are added: new ones, each once, that can be built.
abbrev pub running : Broker → String → Bool
running b n = has_key n b.executors_manager.executors

abbrev pub AreNew : (builds : String → Bool) → List String → (String → Bool) → Type 0
AreNew builds = AllGood with_name (λ x names. (names x ≡ false) × (builds x ≡ true))

-- Executors that run, each once, and that close without an exception.
abbrev pub AreRunning : (closes : String → Bool) → List String → (String → Bool) → Type 0
AreRunning closes = AllGood without_name (λ x names. (names x ≡ true) × (closes x ≡ true))

-- The names that the pools of a broker have.
abbrev pub resources_of : Broker → String → String → Bool
resources_of b t n = has_key n (pool t b.resources_manager).resources

-- The answer of `sync` fits the broker: new executors that can be built, queues whose executor runs
-- then, new resources whose strategies are known, providers that open and close without an
-- exception on the resources as they are then, and dropped executors that run and close without one.
pub record Fits (builds closes strategies : String → Bool) (provide : Provide) (sync : WorkSync)
    (b : Broker) : Type 0 where
  pub distinct : Distinct b.executors_manager.executors
  pub are_new : AreNew builds sync.executors.add (running b)
  pub placed :
      All (λ q. (running b q.executor || elem q.executor sync.executors.add) ≡ true) sync.queues.add
  pub addable : AreAddable strategies sync.resources.add (resources_of b)
  pub opening :
      AllReturn provide true sync.resources_providers.add
        (after_resources strategies sync.resources.add b.resources_manager)
  pub closing : AllReturn provide false sync.resources_providers.drop (
      after_providers provide true sync.resources_providers.add
        (after_resources strategies sync.resources.add b.resources_manager))
  pub are_running :
      AreRunning closes sync.executors.drop (after_all with_name sync.executors.add (running b))

-- If the answer of `sync` fits, which means that no provider and no executor raises, the round does
-- not end the broker, and afterwards it runs exactly the executors that it ran before or that were
-- added, without those that were dropped.
pub apply_sync-running :
    (builds closes strategies : String → Bool) (provide : Provide) (is_done : ℕ → Bool)
    (sync : WorkSync) (b : Broker)
    → Fits builds closes strategies provide sync b
    → (after : Broker) × (apply_sync builds closes strategies provide is_done sync b ≡ synced after)
      × ((n : String)
          → running after n
            ≡ ((running b n || elem n sync.executors.add) && not (elem n sync.executors.drop)))
unfolding apply_sync
apply_sync-running builds closes strategies provide is_done sync b fits =
    let (after, e, (m, r)) = finished in
    (
      after,
      e,
      λ n.
          r.same n
          ∙ (after_all-without_name sync.executors.drop added n
              ∙ ap (λ x. x && not (elem n sync.executors.drop))
                  (after_all-with_name sync.executors.add (running b) n)),
    )
  where
    added : String → Bool
    added = after_all with_name sync.executors.add (running b)

    left : String → Bool
    left = after_all without_name sync.executors.drop added

    m0 : ResourcesManager
    m0 = b.resources_manager

    placed : All (λ q. added q.executor ≡ true) sync.queues.add
    placed =
        All-map (λ q h. after_all-with_name sync.executors.add (running b) q.executor ∙ h)
          sync.queues.add fits.placed

    drop_executors :
        (c : Broker)
        → RunsSome added c
        → Reaches (RunsSome left) (each (call_remove_executor closes) sync.executors.drop c)
    drop_executors c (m, r) =
        let (d, e, r') =
          each-Ends m (call_remove_executor closes) without_name
            (λ x names. (names x ≡ true) × (closes x ≡ true)) (remove_executor-Runs m closes)
            sync.executors.drop added c fits.are_running r in
        (d, e, (m, r'))

    executors_added : Reaches (Runs m0 added) (each (call_add_executor builds) sync.executors.add b)
    executors_added =
        each-Ends m0 (call_add_executor builds) with_name
          (λ x names. (names x ≡ false) × (builds x ≡ true)) (add_executor-Runs m0 builds)
          sync.executors.add (running b) b fits.are_new
          (record { managed = refl; same = λ n. refl; distinct = fits.distinct })

    queues_added :
        (c : Broker)
        → Runs m0 added c
        → Reaches (Runs m0 added) (each call_add_queue sync.queues.add c)
    queues_added c r =
        each-Reaches call_add_queue (Runs m0 added) (λ q. added q.executor ≡ true)
          (λ x d h k. add_queue-Runs m0 x added d h k) sync.queues.add c placed r

    m1 : ResourcesManager
    m1 = after_resources strategies sync.resources.add m0

    m2 : ResourcesManager
    m2 = after_providers provide true sync.resources_providers.add m1

    m3 : ResourcesManager
    m3 = after_providers provide false sync.resources_providers.drop m2

    resources_added :
        (c : Broker)
        → Runs m0 added c
        → Reaches (Runs m1 added) (each (call_add_resource strategies) sync.resources.add c)
    resources_added c r =
        add_resources-Runs strategies added sync.resources.add m0 (resources_of b) c (λ t n. refl)
          fits.addable r

    opened :
        (c : Broker)
        → Runs m1 added c
        → Reaches (Runs m2 added) (each (call_provider provide true) sync.resources_providers.add c)
    opened c r = providers-Runs provide true added sync.resources_providers.add m1 c fits.opening r

    closed :
        (c : Broker)
        → Runs m2 added c
        → Reaches
            (RunsSome added)
            (each (call_provider provide false) sync.resources_providers.drop c)
    closed c r =
        let (d, e, r') =
          providers-Runs provide false added sync.resources_providers.drop m2 c fits.closing r in
        (d, e, (m3, r'))

    finished : Reaches (RunsSome left) (apply_sync builds closes strategies provide is_done sync b)
    finished =
        and_then _ _ (RunsSome added) (RunsSome left)
          (and_then _ _ (RunsSome added) (RunsSome added)
            (and_then _ _ (RunsSome added) (RunsSome added)
              (and_then _ _ (Runs m2 added) (RunsSome added)
                (and_then _ _ (Runs m1 added) (Runs m2 added)
                  (and_then _ _ (Runs m0 added) (Runs m1 added)
                    (and_then _ _ (Runs m0 added) (Runs m0 added) executors_added queues_added)
                    resources_added)
                  opened)
                closed)
              (each-RunsSome added call_remove_resource (call_remove_resource-RunsSome added)
                sync.resources.drop))
            (each-RunsSome added (call_remove_queue is_done)
              (call_remove_queue-RunsSome added is_done) sync.queues.drop))
          drop_executors
