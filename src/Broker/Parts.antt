-- ===== src/Broker/Parts.antt =====
-- The parts of a round that leave the names of the executors as they are.
use data_lineup.Base.{
  ℕ, String, Bool, true, false, ◌&&◌, ◌||◌, none, some, List, [], ◌∷◌, string_eq, ◌==◌, ==_iff, All,
  ◌≡◌, refl, ◌∙◌, ap, arith, inl, inr, Option-cases, Bool-cases,
}
use data_lineup.Dict.{has_key, insert, has_key-insert}
use data_lineup.Resources.{ResourceData, ExclusiveResources, ok, raise, add, build_rate_limiter}
use data_lineup.ResourcesManager.{ResourcesManager, add_resource, pool}
use data_lineup.ResourcesManager.Pools.{pool-set_pool}
use data_lineup.Broker.{
  ExecutableQueue, TypedResource, Broker, Round, synced, fatal, ◌>>=◌, each, call_remove_queue,
  Provide, call_provider, call_add_resource, call_remove_resource,
}
use data_lineup.Broker.Loops.{Runs, remove_queue-Runs}

-- A part of a round that ends with this.
abbrev pub Reaches : (P : Broker → Type 0) → Round → Type 0
Reaches P r = (b : Broker) × (r ≡ synced b) × P b

-- The executors run, with some resources.
abbrev pub RunsSome : (names : String → Bool) → Broker → Type 0
RunsSome names b = (m : ResourcesManager) × Runs m names b

pub each-Reaches :
    {A : Type 0} (f : A → Broker → Round) (P : Broker → Type 0) (Good : A → Type 0)
    → ((x : A) (b : Broker) → Good x → P b → Reaches P (f x b))
    → (xs : List A) (b : Broker) → All Good xs
    → P b
    → Reaches P (each f xs b)
each-Reaches f P Good step [] b h r = (b, refl, r)
each-Reaches f P Good step (x ∷ xs) b h r =
    let (b', e, r') = step x b h.0 r in rw e (each-Reaches f P Good step xs b' h.1 r')

pub and_then :
    (r : Round) (f : Broker → Round) (P Q : Broker → Type 0)
    → Reaches P r
    → ((b : Broker) → P b → Reaches Q (f b))
    → Reaches Q (r >>= f)
and_then r f P Q (b, e, h) k = rw e (k b h)

All-unit : {A : Type 0} (xs : List A) → All (λ _. Unit {0}) xs
All-unit [] = tt
All-unit (x ∷ xs) = (tt, All-unit xs)

-- Which names the pool of each type has.
abbrev pub Knows : (known : String → String → Bool) → ResourcesManager → Type 0
Knows known m = (t n : String) → has_key n (pool t m).resources ≡ known t n

abbrev pub with_resource : TypedResource → (String → String → Bool) → String → String → Bool
with_resource x known t n = (x.type == t && x.resource.name == n) || known t n

-- New resources, each once, whose rate limits have a strategy that is known.
abbrev pub is_supported : (strategies : String → Bool) → ResourceData → Bool
is_supported strategies r = elim r.rate_limit [ none ↦ true | some strategy ↦ strategies strategy ]

abbrev pub AreAddable :
    (strategies : String → Bool) → List TypedResource → (String → String → Bool) → Type 0
AreAddable strategies [] known = Unit
AreAddable strategies (x ∷ xs) known =
    (known x.type x.resource.name ≡ false)
    × (is_supported strategies x.resource ≡ true)
    × AreAddable strategies xs (with_resource x known)

-- The resources after those were added, and after the providers were called.
abbrev pub after_resources :
    (strategies : String → Bool) → List TypedResource → ResourcesManager → ResourcesManager
after_resources strategies [] m = m
after_resources strategies (x ∷ xs) m =
    after_resources strategies xs (add_resource strategies x.type x.resource m).1

abbrev pub after_providers : Provide → Bool → List String → ResourcesManager → ResourcesManager
after_providers provide opens [] m = m
after_providers provide opens (x ∷ xs) m = after_providers provide opens xs (provide opens x m).1

-- None of these calls of providers raises, on the resources as they are then.
abbrev pub AllReturn : Provide → Bool → List String → ResourcesManager → Type 0
AllReturn provide opens [] m = Unit
AllReturn provide opens (x ∷ xs) m =
    ((provide opens x m).0 ≡ ok tt) × AllReturn provide opens xs (provide opens x m).1

add-new :
    (strategies : String → Bool) (r : ResourceData) (s : ExclusiveResources)
    → has_key r.name s.resources ≡ false
    → is_supported strategies r ≡ true
    → ((add strategies r s).0 ≡ ok tt)
      × ((add strategies r s).1.resources ≡ insert r.name r s.resources)
unfolding add build_rate_limiter
add-new strategies r s new supported = elim (Option-cases r.rate_limit) [
  | inl e ↦ (ground (arith, e, new), ground (arith, e, new))
  | inr (limit, e) ↦
      let known = rw e at supported in
      (ground (arith, e, new, known), ground (arith, e, new, known))
]

add_resource-Knows :
    (strategies : String → Bool) (x : TypedResource) (known : String → String → Bool)
    (m : ResourcesManager)
    → Knows known m
    → known x.type x.resource.name ≡ false
    → is_supported strategies x.resource ≡ true
    → ((add_resource strategies x.type x.resource m).0 ≡ ok tt)
      × Knows (with_resource x known) (add_resource strategies x.type x.resource m).1
add_resource-Knows strategies x known m knows new supported =
    let (done, resources) =
      add-new strategies x.resource (pool x.type m) (knows x.type x.resource.name ∙ new)
        supported in
    (
      done,
      λ t n.
          let s = (add strategies x.resource (pool x.type m)).1 in
          rw (pool-set_pool x.type t s m) (elim (Bool-cases (x.type == t)) [
            | inl e ↦
                let same = knows x.type n ∙ ap (λ u. known u n) ((==_iff x.type t).0 e) in
                rw (e, resources)
                  (ground (
                    arith,
                    same,
                    has_key-insert x.resource.name n x.resource (pool x.type m).resources,
                  ))
            | inr e ↦ rw e (knows t n)
          ]),
    )

pub add_resources-Runs :
    (strategies : String → Bool) (names : String → Bool) (xs : List TypedResource)
    (m : ResourcesManager) (known : String → String → Bool) (b : Broker)
    → Knows known m
    → AreAddable strategies xs known
    → Runs m names b
    → Reaches
        (Runs (after_resources strategies xs m) names)
        (each (call_add_resource strategies) xs b)
add_resources-Runs strategies names [] m known b k h r = (b, refl, r)
add_resources-Runs strategies names (x ∷ xs) m known b k h r =
    let (done, k') = add_resource-Knows strategies x known m k h.0 h.1 in
    let after = (add_resource strategies x.type x.resource m).1 in
    let next : Broker = record b { resources_manager = after } in
    let r' : Runs after names next = record {
      managed = refl;
      same = r.same;
      distinct = r.distinct;
    } in
    let here : call_add_resource strategies x b ≡ synced next =
      ap (λ c. call_add_resource strategies x (record b { resources_manager = c })) r.managed
      ∙ ap (λ d. elim d as (λ _. Round) [ ok _ ↦ synced next | raise _ ↦ fatal next ]) done in
    rw here (add_resources-Runs strategies names xs after (with_resource x known) next k' h.2 r')

pub providers-Runs :
    (provide : Provide) (opens : Bool) (names : String → Bool) (xs : List String)
    (m : ResourcesManager) (b : Broker)
    → AllReturn provide opens xs m
    → Runs m names b
    → Reaches
        (Runs (after_providers provide opens xs m) names)
        (each (call_provider provide opens) xs b)
providers-Runs provide opens names [] m b h r = (b, refl, r)
providers-Runs provide opens names (x ∷ xs) m b h r =
    let after = (provide opens x m).1 in
    let next : Broker = record b {
      resources_manager = after;
      providers = (x, opens) ∷ b.providers;
    } in
    let r' : Runs after names next = record {
      managed = refl;
      same = r.same;
      distinct = r.distinct;
    } in
    let here : call_provider provide opens x b ≡ synced next =
      ap (λ c. call_provider provide opens x (record b { resources_manager = c })) r.managed
      ∙ ap (λ d. elim d as (λ _. Round) [ ok _ ↦ synced next | raise _ ↦ fatal next ]) h.0 in
    rw here (providers-Runs provide opens names xs after next h.1 r')

pub All-map :
    {A : Type 0} {P Q : A → Type 0} → ((x : A) → P x → Q x) → (xs : List A) → All P xs → All Q xs
All-map f [] h = tt
All-map f (x ∷ xs) h = (f x h.0, All-map f xs h.1)

pub each-RunsSome :
    {A : Type 0} (names : String → Bool) (f : A → Broker → Round)
    → ((x : A) (c : Broker) → RunsSome names c → Reaches (RunsSome names) (f x c))
    → (xs : List A) (c : Broker) → RunsSome names c
    → Reaches (RunsSome names) (each f xs c)
each-RunsSome names f step xs c r =
    each-Reaches f (RunsSome names) (λ _. Unit) (λ x d _ h. step x d h) xs c (All-unit xs) r

pub call_remove_resource-RunsSome :
    (names : String → Bool) (x : TypedResource) (c : Broker)
    → RunsSome names c
    → Reaches (RunsSome names) (call_remove_resource x c)
call_remove_resource-RunsSome names x c (m, r) =
    (_, refl, (_, record { managed = refl; same = r.same; distinct = r.distinct }))

pub call_remove_queue-RunsSome :
    (names : String → Bool) (is_done : ℕ → Bool) (x : ExecutableQueue) (c : Broker)
    → RunsSome names c
    → Reaches (RunsSome names) (call_remove_queue is_done x c)
call_remove_queue-RunsSome names is_done x c (m, r) =
    let (d, e, r') = remove_queue-Runs m is_done x names c r in (d, e, (m, r'))
