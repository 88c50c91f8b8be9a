-- ===== src/Resources/Invariant.antt =====
-- The invariant of `ExclusiveResources`: available, in use and registered resources agree.
use data_lineup.Base.{
  ℕ, String, Bool, true, false, Option, none, some, ==_iff, string_eq, nat_eq, eqb_iff, ◌≡◌, ap,
  arith, ◌⊎◌, inl, inr, Option-cases, Bool-cases,
}
use data_lineup.Dict.{
  Dict, lookup, has_key, insert, Distinct, lookup-insert, has_key-lookup, insert-Distinct,
  has_key-insert,
}
use data_lineup.Resources.{
  ResourceData, ExclusiveResources, empty, Result, ok, build_rate_limiter, add,
}

pub record IsValid (s : ExclusiveResources) : Type 0 where
  pub distinct_availables : Distinct s.availables
  pub distinct_used : Distinct s.used
  pub distinct_resources : Distinct s.resources
  pub disjoint : (h : ℕ) → has_key h s.availables ≡ true → has_key h s.used ≡ false
  pub available_registered :
      (h : ℕ) (r : ResourceData)
      → lookup h s.availables ≡ some r
      → (r.handle ≡ h) × (lookup r.name s.resources ≡ some r)
  pub used_registered :
      (h : ℕ) (r : ResourceData)
      → lookup h s.used ≡ some r
      → (r.handle ≡ h) × (lookup r.name s.resources ≡ some r)
  pub registered_held :
      (n : String) (r : ResourceData)
      → lookup n s.resources ≡ some r
      → (r.name ≡ n) × ((lookup r.handle s.availables ≡ some r) ⊎ (lookup r.handle s.used ≡ some r))

pub empty-IsValid : IsValid empty
empty-IsValid = record {
  distinct_availables = tt;
  distinct_used = tt;
  distinct_resources = tt;
  disjoint = λ h e. cc;
  available_registered = λ h r e. absurd (cc e);
  used_registered = λ h r e. absurd (cc e);
  registered_held = λ n r e. absurd (cc e);
}

-- One handle is one object: nothing else goes by the handle of `r`.
abbrev pub IsObject : ResourceData → ExclusiveResources → Type 0
IsObject r s =
    ((q : ResourceData) → lookup r.handle s.availables ≡ some q → q ≡ r)
    × ((q : ResourceData) → lookup r.handle s.used ≡ some q → q ≡ r)

module _ (strategies : String → Bool) (s : ExclusiveResources) (v : IsValid s) where
  open v use {
    distinct_availables, distinct_used, distinct_resources, disjoint, available_registered,
    used_registered, registered_held,
  }

  -- `add` before the limiter is built.
  abbrev added : ResourceData → ExclusiveResources
  added r = record s {
    availables = insert r.handle r s.availables;
    resources = insert r.name r s.resources;
  }

  -- A resource whose name is not registered is neither available nor in use.
  pub not_held :
      (r : ResourceData)
      → IsObject r s
      → lookup r.name s.resources ≡ none
      → (lookup r.handle s.availables ≡ none) × (lookup r.handle s.used ≡ none)
  not_held r obj fresh = (
    elim (Option-cases (lookup r.handle s.availables)) [
      | inl e ↦ e
      | inr (q, e) ↦ absurd (
          ground (
            arith,
            obj.0 q e,
            ap (λ (x : ResourceData). x.name) (obj.0 q e),
            available_registered r.handle q e,
          ))
    ],
    elim (Option-cases (lookup r.handle s.used)) [
      | inl e ↦ e
      | inr (q, e) ↦ absurd (
          ground (
            arith,
            obj.1 q e,
            ap (λ (x : ResourceData). x.name) (obj.1 q e),
            used_registered r.handle q e,
          ))
    ],
  )

  added-IsValid :
      (r : ResourceData) → IsObject r s → lookup r.name s.resources ≡ none → IsValid (added r)
  added-IsValid r obj fresh =
      let (free, idle) = not_held r obj fresh in
      record {
        distinct_availables = insert-Distinct r.handle r s.availables distinct_availables;
        distinct_used = distinct_used;
        distinct_resources = insert-Distinct r.name r s.resources distinct_resources;
        disjoint = λ h e. ground (
          arith,
          eqb_iff r.handle h,
          has_key-insert r.handle h r s.availables,
          has_key-lookup r.handle s.used,
          disjoint h,
        );
        available_registered = λ h q e. ground (
          arith,
          eqb_iff r.handle h,
          ==_iff r.name q.name,
          lookup-insert r.handle h r s.availables,
          lookup-insert r.name q.name r s.resources,
          available_registered h q,
        );
        used_registered = λ h q e. ground (
          arith,
          ==_iff r.name q.name,
          lookup-insert r.name q.name r s.resources,
          used_registered h q,
        );
        registered_held = λ n q e. ground (
          arith,
          ==_iff r.name n,
          eqb_iff r.handle q.handle,
          lookup-insert r.name n r s.resources,
          lookup-insert r.handle q.handle r s.availables,
          registered_held n q,
        );
      }

  limited-IsValid :
      (t : ExclusiveResources) (l : Dict String String)
      → IsValid t
      → IsValid (record t { limiters = l })
  limited-IsValid t l w = record {
    distinct_availables = w.distinct_availables;
    distinct_used = w.distinct_used;
    distinct_resources = w.distinct_resources;
    disjoint = w.disjoint;
    available_registered = w.available_registered;
    used_registered = w.used_registered;
    registered_held = w.registered_held;
  }

  limiter-IsValid :
      (t : ExclusiveResources) (name strategy : String)
      → IsValid t
      → IsValid (build_rate_limiter strategies name strategy t).1
  unfolding build_rate_limiter
  limiter-IsValid t name strategy w = elim (Bool-cases (strategies strategy)) [
    | inl e ↦ rw e (limited-IsValid t (insert name strategy t.limiters) w)
    | inr e ↦ rw e w
  ]

  -- `add` keeps the invariant, also where it raises.
  pub add-IsValid : (r : ResourceData) → IsObject r s → IsValid (add strategies r s).1
  unfolding add
  add-IsValid r obj = elim (Option-cases (lookup r.name s.resources)) [
    | inl e ↦
        rw (has_key-lookup r.name s.resources, e) (limited (added-IsValid r obj e) r.rate_limit)
    | inr (q, e) ↦ rw (has_key-lookup r.name s.resources, e) v
  ]
    where
      limited :
          IsValid (added r)
          → (o : Option String)
          → IsValid
              (elim o as (λ _. Result (Unit {0}) × ExclusiveResources) [
                | none ↦ (ok tt, added r)
                | some strategy ↦ build_rate_limiter strategies r.name strategy (added r)
              ]).1
      limited w none = w
      limited w (some strategy) = limiter-IsValid (added r) r.name strategy w
