-- ===== src/Resources/Pool.antt =====
-- Exclusivity of the pool over any sequence of calls.
use data_lineup.Base.{
  ℕ, String, Bool, false, none, some, ◌∷◌, ◌==◌, ==_iff, string_eq, nat_eq, eqb_iff, if◌then◌else◌,
  ◌≡◌, refl, arith, inl, inr, List-cases, ==_self,
}
use data_lineup.Dict.{
  Dict, lookup, has_key, insert, remove, Distinct, lookup-insert, lookup-remove, has_key-lookup,
  has_key-insert, insert-Distinct,
}
use data_lineup.Resources.{
  ResourceData, ExclusiveResources, value_error, ok, raise, add, remove_resource, try_acquire,
  acquire_nowait, release, empty,
}
use data_lineup.Resources.Invariant.{IsValid, IsObject, empty-IsValid, add-IsValid}
use data_lineup.Resources.Moves.{remove-IsValid, try_acquire-IsValid, release-IsValid}

-- The pool's state under the calls of its users, each with an object of its own: `IsObject` says
-- that a handle goes with one object.
pub data Reach (strategies : String → Bool) : ExclusiveResources → Type 0 where
  start : Reach strategies empty
  after_add :
      {s : ExclusiveResources} (r : ResourceData)
      → IsObject r s
      → Reach strategies s
      → Reach strategies (add strategies r s).1
  after_remove :
      {s : ExclusiveResources} (name : String)
      → Reach strategies s
      → Reach strategies (remove_resource name s)
  after_acquire : {s : ExclusiveResources} → Reach strategies s → Reach strategies (try_acquire s).1
  after_release :
      {s : ExclusiveResources} (r : ResourceData)
      → IsObject r s
      → Reach strategies s
      → Reach strategies (release r s)

-- In every state that calls reach, failed ones included, no resource is both available and in use,
-- and exactly the registered resources are one of the two.
pub Reach-IsValid :
    {strategies : String → Bool} {s : ExclusiveResources} → Reach strategies s → IsValid s
Reach-IsValid start = empty-IsValid
Reach-IsValid {strategies} (after_add {s} r o p) = add-IsValid strategies s (Reach-IsValid p) r o
Reach-IsValid (after_remove {s} name p) = remove-IsValid s (Reach-IsValid p) name
Reach-IsValid (after_acquire {s} p) = try_acquire-IsValid s (Reach-IsValid p)
Reach-IsValid (after_release {s} r o p) = release-IsValid s (Reach-IsValid p) r o

module _ (s : ExclusiveResources) (v : IsValid s) where
  open v use {
    distinct_availables, distinct_used, disjoint, available_registered, registered_held,
    used_registered,
  }

  acquired :
      (r : ResourceData)
      → (acquire_nowait s).0 ≡ ok r
      → (rest : Dict ℕ ResourceData) × (s.availables ≡ (r.handle, r) ∷ rest)
        × ((acquire_nowait s).1 ≡ record s { availables = rest; used = insert r.handle r s.used })
  unfolding acquire_nowait
  acquired r e = elim (List-cases s.availables) [
    | inl none_left ↦ absurd (ground (arith, none_left))
    | inr ((h, q), rest, found) ↦
        let (same, _) = available_registered h q (ground (arith, found, eqb_iff h h)) in
        (rest, ground (arith, found, same), ground (arith, found, same))
  ]

  -- What is acquired was registered, available and not in use; afterwards it is in use and no
  -- longer available, and every other resource is where it was. Given that the state is valid.
  pub acquire_nowait-exclusive :
      (r : ResourceData)
      → (acquire_nowait s).0 ≡ ok r
      → (lookup r.name s.resources ≡ some r)
        × (has_key r.handle s.used ≡ false)
        × ((h : ℕ)
            → (lookup h s.availables
                ≡ (if r.handle == h then some r else lookup h (acquire_nowait s).1.availables))
              × (has_key r.handle (acquire_nowait s).1.availables ≡ false)
              × (lookup h (acquire_nowait s).1.used
                  ≡ (if r.handle == h then some r else lookup h s.used)))
  acquire_nowait-exclusive r e =
      let (rest, found, after) = acquired r e in
      let here : lookup r.handle s.availables ≡ some r =
        ground (arith, found, eqb_iff r.handle r.handle) in
      let d : Distinct ((r.handle, r) ∷ rest) = rw found at distinct_availables in
      (
        (available_registered r.handle r here).1,
        ground (arith, has_key-lookup r.handle s.availables, disjoint r.handle, here),
        λ h. rw after (rw found, d.0, lookup-insert r.handle h r s.used),
      )

  -- A released resource is where it was before it was acquired, and so is every other one. Given
  -- that the state is valid.
  pub release-acquire_nowait :
      (r : ResourceData) (h : ℕ)
      → (acquire_nowait s).0 ≡ ok r
      → let after = release r (acquire_nowait s).1 in
        (lookup h after.availables ≡ lookup h s.availables)
        × (lookup h after.used ≡ lookup h s.used)
        × (after.resources ≡ s.resources)
  unfolding release
  release-acquire_nowait r h e =
      let (rest, found, after) = acquired r e in
      let d : Distinct ((r.handle, r) ∷ rest) = rw found at distinct_availables in
      let here : lookup r.handle s.availables ≡ some r =
        ground (arith, found, eqb_iff r.handle r.handle) in
      rw (after, has_key-insert r.handle r.handle r s.used, ==_self r.handle)
        (
          ground (arith, found, eqb_iff r.handle h, lookup-insert r.handle h r rest),
          ground (
            arith,
            eqb_iff r.handle h,
            lookup-remove r.handle h (insert r.handle r s.used)
                (insert-Distinct r.handle r s.used distinct_used),
            lookup-insert r.handle h r s.used,
            here,
            disjoint r.handle,
            has_key-lookup r.handle s.used,
            has_key-lookup r.handle s.availables,
          ),
          refl,
        )

  -- A resource that is removed while in use does not come back by its release. Given that the
  -- state is valid and the resource registered.
  pub release-remove_resource :
      (r : ResourceData)
      → lookup r.name s.resources ≡ some r
      → release r (remove_resource r.name s) ≡ remove_resource r.name s
  unfolding release remove_resource
  release-remove_resource r e = ground (
    arith,
    e,
    has_key-lookup r.handle (remove r.handle s.used),
    lookup-remove r.handle r.handle s.used distinct_used,
    eqb_iff r.handle r.handle,
  )

-- A rate limit whose strategy the limits library does not have: `add` raises, and yet the resource
-- is registered and can be acquired. Given that its name was free.
pub add-unknown_strategy :
    (strategies : String → Bool) (r : ResourceData) (s : ExclusiveResources) (strategy : String)
    → lookup r.name s.resources ≡ none
    → r.rate_limit ≡ some strategy
    → strategies strategy ≡ false
    → ((add strategies r s).0 ≡ raise value_error)
      × (lookup r.name (add strategies r s).1.resources ≡ some r)
      × (lookup r.handle (add strategies r s).1.availables ≡ some r)
unfolding add
add-unknown_strategy strategies r s strategy e l u = ground (
  arith,
  has_key-lookup r.name s.resources,
  lookup-insert r.name r.name r s.resources,
  lookup-insert r.handle r.handle r s.availables,
  ==_iff r.name r.name,
  eqb_iff r.handle r.handle,
)
