-- ===== src/Services/Ordered.antt =====
-- In which order the services are loaded.
use mathlib.Core.List.{Perm, perm_middle, append-nil}
use mathlib.Core.List.Perm as Perms
use data_lineup.Base.{
  ℕ, String, true, false, Option, none, some, List, [], ◌∷◌, ◌++◌, string_eq, ◌≡◌, refl, ap, subst,
  arith, Option-cases, inl, inr,
}
use data_lineup.Dict.{elem}
use data_lineup.Services.{
  ServiceClass, ServicesManager, init, base_services, can_cast, loaded, load_service, load_round,
  built, build,
}
use data_lineup.Services.Deferred.{Loading-cases, build-two_rounds}

-- Services in an order in which each one finds what it asks for, with the names there in the end.
pub data Loads : List ServiceClass → List String → Type 0 where
  nothing : Loads [] base_services
  next :
      {cs : List ServiceClass} {names : List String} (c : ServiceClass)
      → Loads cs names
      → can_cast c.needs names ≡ true
      → elem c.name names ≡ false
      → Loads (cs ++ (c ∷ [])) (c.name ∷ names)

load_service-Loads :
    (c : ServiceClass) (s s' : ServicesManager)
    → load_service c s ≡ loaded s'
    → Loads s.loaded_services s.services
    → Loads s'.loaded_services s'.services × (s'.loaded_services ≡ s.loaded_services ++ (c ∷ []))
unfolding load_service
load_service-Loads c s s' e h =
    let (fresh, cast, f, g) = facts in (rw (f, g) (next c h cast fresh), f)
  where
    facts :
        (elem c.name s.services ≡ false)
        × (can_cast c.needs s.services ≡ true)
        × (s'.loaded_services ≡ s.loaded_services ++ (c ∷ []))
        × (s'.services ≡ c.name ∷ s.services)
    facts = (ground (arith, e), ground (arith, e), ground (arith, e), ground (arith, e))

append-snoc {ℓ} : {A : Type ℓ} (x : A) (xs ys : List A) → (xs ++ (x ∷ [])) ++ ys ≡ xs ++ (x ∷ ys)
append-snoc x [] ys = refl
append-snoc x (z ∷ xs) ys = ap (λ t. z ∷ t) (append-snoc x xs ys)

-- What a round keeps: the order, and the classes.
abbrev Kept : ServicesManager → List ServiceClass → List ServiceClass × ServicesManager → Type 0
Kept s cs r =
    Loads r.1.loaded_services r.1.services
    × Perm (r.1.loaded_services ++ r.0) (s.loaded_services ++ cs)

moved :
    (s : ServicesManager) (cs : List ServiceClass) (r r' : List ServiceClass × ServicesManager)
    → some r ≡ some r'
    → Kept s cs r
    → Kept s cs r'
moved s cs r r' e = subst (Kept s cs) (ap (or_default r) e)
  where
    or_default :
        List ServiceClass × ServicesManager
        → Option (List ServiceClass × ServicesManager)
        → List ServiceClass × ServicesManager
    or_default d none = d
    or_default d (some q) = q

load_round-Loads :
    (cs ds : List ServiceClass) (s s' : ServicesManager)
    → load_round cs s ≡ some (ds, s')
    → Loads s.loaded_services s.services
    → Loads s'.loaded_services s'.services
      × Perm (s'.loaded_services ++ ds) (s.loaded_services ++ cs)
unfolding load_round
load_round-Loads [] ds s s' e h = moved s [] ([], s) (ds, s') e (h, Perms.refl _)
load_round-Loads (c ∷ cs) ds s s' e h = elim (Loading-cases (load_service c s)) [
  | inl (t, f) ↦
      let (ordered, here) = load_service-Loads c s t f h in
      let (later, perm) = load_round-Loads cs ds t s' (rw (f, load_round) at e) ordered in
      (later, Perms.trans perm (rw (here, append-snoc c s.loaded_services cs) (Perms.refl _)))
  | inr (inl f) ↦ elim (Option-cases (load_round cs s)) [
    | inl g ↦ absurd (cc (rw (f, g, load_round) at e))
    | inr ((ds', t), g) ↦
        let (later, perm) = load_round-Loads cs ds' s t g h in
        let same : some (c ∷ ds', t) ≡ some (ds, s') = rw (f, g, load_round) at e in
        moved s (c ∷ cs) (c ∷ ds', t) (ds, s') same
          (
            later,
            Perms.trans (perm_middle t.loaded_services ds')
                (Perms.trans (Perms.cons c perm) (Perms.symm (perm_middle s.loaded_services cs))),
          )
  ]
  | inr (inr f) ↦ absurd (cc (rw (f, load_round) at e))
]

-- Once the manager is built, it holds exactly the services of the configuration, each after all
-- the services that it asks for and under a name that was not taken.
pub build-Loads :
    (n : ℕ) (classes : List ServiceClass) (s : ServicesManager)
    → build n classes ≡ built s
    → Loads s.loaded_services s.services × Perm s.loaded_services classes
build-Loads n classes s e =
    let (ds, t, f, g) = (build-two_rounds n classes s).0 e in
    let (first, perm) = load_round-Loads classes ds init t f nothing in
    let (second, perm') = load_round-Loads ds [] t s g first in
    (second, rw (append-nil s.loaded_services) at (Perms.trans perm' perm))
