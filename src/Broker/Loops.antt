-- ===== src/Broker/Loops.antt =====
-- What the loops of a round do to the executors that the broker runs.
use data_lineup.Base.{
  ℕ, String, Bool, true, false, not, ◌||◌, ◌&&◌, List, [], ◌∷◌, string_eq, ◌==◌, ==_iff, ◌≡◌, refl,
  ◌∙◌, ap, arith, Option-cases, inl, inr,
}
use data_lineup.Dict.{
  lookup, has_key, remove, Distinct, has_key-insert, insert-Distinct, has_key-lookup, lookup-remove,
  remove-Distinct,
}
use data_lineup.ResourcesManager.{ResourcesManager}
use data_lineup.Scheduler.{Scheduler}
use data_lineup.Scheduler as Schedulers
use data_lineup.Broker.{
  ExecutableQueue, add_queue, remove_queue, add_executor, remove_executor, Broker, Round, synced,
  each, call_add_executor, call_add_queue, call_remove_executor, call_remove_queue,
}

-- The broker runs exactly the executors of these names, and has these resources.
pub record Runs (m : ResourcesManager) (names : String → Bool) (b : Broker) : Type 0 where
  pub managed : b.resources_manager ≡ m
  pub same : (n : String) → has_key n b.executors_manager.executors ≡ names n
  pub distinct : Distinct b.executors_manager.executors

-- A part of a round that ends, and leaves the executors so.
abbrev pub Ends : ResourcesManager → (names : String → Bool) → Round → Type 0
Ends m names r = (b : Broker) × (r ≡ synced b) × Runs m names b

abbrev pub after_all :
    {A : Type 0} → (A → (String → Bool) → String → Bool) → List A → (String → Bool) → String → Bool
after_all after [] names = names
after_all after (x ∷ xs) names = after_all after xs (after x names)

abbrev pub AllGood :
    {A : Type 0}
    → (A → (String → Bool) → String → Bool)
    → (A → (String → Bool) → Type 0)
    → List A
    → (String → Bool)
    → Type 0
AllGood after Good [] names = Unit
AllGood after Good (x ∷ xs) names = Good x names × AllGood after Good xs (after x names)

-- Each round of a loop may change the names.
pub each-Ends :
    {A : Type 0} (m : ResourcesManager) (f : A → Broker → Round)
    (after : A → (String → Bool) → String → Bool) (Good : A → (String → Bool) → Type 0)
    → ((x : A) (names : String → Bool) (b : Broker)
        → Good x names
        → Runs m names b
        → Ends m (after x names) (f x b))
    → (xs : List A) (names : String → Bool) (b : Broker) → AllGood after Good xs names
    → Runs m names b
    → Ends m (after_all after xs names) (each f xs b)
each-Ends m f after Good step [] names b h r = (b, refl, r)
each-Ends m f after Good step (x ∷ xs) names b h r =
    let (b', e, r') = step x names b h.0 r in
    rw e (each-Ends m f after Good step xs (after x names) b' h.1 r')

-- What the loops do to the names.
abbrev pub with_name : String → (String → Bool) → String → Bool
with_name x names n = (x == n) || names n

abbrev pub without_name : String → (String → Bool) → String → Bool
without_name x names n = not (x == n) && names n

pub add_executor-Runs :
    (m : ResourcesManager) (builds : String → Bool) (x : String) (names : String → Bool)
    (b : Broker)
    → (names x ≡ false) × (builds x ≡ true)
    → Runs m names b
    → Ends m (with_name x names) (call_add_executor builds x b)
unfolding add_executor
add_executor-Runs m builds x names b (new, ok_) r =
    let d = b.executors_manager.executors in
    let free : has_key x d ≡ false = r.same x ∙ new in
    rw (free, ok_)
      (
        _,
        refl,
        record {
          managed = r.managed;
          same = λ n. ground (arith, has_key-insert x n Schedulers.init d, r.same n);
          distinct = insert-Distinct x Schedulers.init d r.distinct;
        },
      )

pub add_queue-Runs :
    (m : ResourcesManager) (q : ExecutableQueue) (names : String → Bool) (b : Broker)
    → names q.executor ≡ true
    → Runs m names b
    → Ends m names (call_add_queue q b)
unfolding add_queue
add_queue-Runs m q names b here r =
    let d = b.executors_manager.executors in
    let known : (k n : String) → (k == n) ≡ true → names k ≡ names n =
      λ k n e. ap names ((==_iff k n).0 e) in
    elim (Option-cases (lookup q.executor d)) [
      | inl e ↦ absurd (ground (arith, e, has_key-lookup q.executor d, r.same q.executor, here))
      | inr (w, e) ↦
          rw (e, add_queue)
            (
              _,
              refl,
              record {
                managed = r.managed;
                same = λ n. ground (
                  arith,
                  has_key-insert q.executor n (Schedulers.add q.id w) d,
                  r.same n,
                  here,
                  known q.executor n,
                );
                distinct = insert-Distinct q.executor (Schedulers.add q.id w) d r.distinct;
              },
            )
    ]

pub remove_queue-Runs :
    (m : ResourcesManager) (is_done : ℕ → Bool) (q : ExecutableQueue) (names : String → Bool)
    (b : Broker)
    → Runs m names b
    → Ends m names (call_remove_queue is_done q b)
unfolding remove_queue
remove_queue-Runs m is_done q names b r =
    let d = b.executors_manager.executors in
    let known : (k n : String) → (k == n) ≡ true → names k ≡ names n =
      λ k n e. ap names ((==_iff k n).0 e) in
    elim (Option-cases (lookup q.executor d)) [
      | inl e ↦ rw (e, remove_queue) (_, refl, r)
      | inr (w, e) ↦
          rw (e, remove_queue)
            (
              _,
              refl,
              record {
                managed = r.managed;
                same = λ n. ground (
                  arith,
                  e,
                  has_key-insert q.executor n (Schedulers.remove_item is_done q.id w) d,
                  r.same n,
                  r.same q.executor,
                  has_key-lookup q.executor d,
                  known q.executor n,
                );
                distinct =
                    insert-Distinct q.executor (Schedulers.remove_item is_done q.id w) d r.distinct;
              },
            )
    ]

pub remove_executor-Runs :
    (m : ResourcesManager) (closes : String → Bool) (x : String) (names : String → Bool)
    (b : Broker)
    → (names x ≡ true) × (closes x ≡ true)
    → Runs m names b
    → Ends m (without_name x names) (call_remove_executor closes x b)
unfolding remove_executor
remove_executor-Runs m closes x names b (here, returns) r =
    let d = b.executors_manager.executors in
    elim (Option-cases (lookup x d)) [
      | inl e ↦ absurd (ground (arith, e, has_key-lookup x d, r.same x, here))
      | inr (w, e) ↦
          rw (e, remove_executor, returns)
            (
              _,
              refl,
              record {
                managed = r.managed;
                same = λ n. ground (
                  arith,
                  has_key-lookup n (remove x d),
                  has_key-lookup n d,
                  lookup-remove x n d r.distinct,
                  r.same n,
                );
                distinct = remove-Distinct x d r.distinct;
              },
            )
    ]
