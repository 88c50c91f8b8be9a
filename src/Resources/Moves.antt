-- ===== src/Resources/Moves.antt =====
-- `remove_resource`, `try_acquire` and `release` of `ExclusiveResources` keep its invariant.
use data_lineup.Base.{
  ℕ, String, true, false, Option, none, some, [], ◌∷◌, ==_iff, string_eq, nat_eq, eqb_iff, ◌≡◌,
  refl, ap, ◌∙◌, arith, ◌⊎◌, inl, inr, Option-cases,
}
use data_lineup.Dict.{
  Dict, lookup, has_key, insert, remove, Distinct, lookup-insert, lookup-remove, has_key-lookup,
  insert-Distinct, remove-Distinct, has_key-insert,
}
use data_lineup.Resources.{ResourceData, ExclusiveResources, remove_resource, try_acquire, release}
use data_lineup.Resources.Invariant.{IsValid, IsObject}

module _ (s : ExclusiveResources) (v : IsValid s) where
  open v use {
    distinct_availables, distinct_used, distinct_resources, disjoint, available_registered,
    used_registered, registered_held,
  }

  -- `remove` keeps the invariant.
  pub remove-IsValid : (name : String) → IsValid (remove_resource name s)
  unfolding remove_resource
  remove-IsValid name = elim (Option-cases (lookup name s.resources)) [
    | inl e ↦ rw (e, remove_resource) v
    | inr (r, e) ↦
        rw (e, remove_resource)
          (record {
            distinct_availables = remove-Distinct r.handle s.availables distinct_availables;
            distinct_used = remove-Distinct r.handle s.used distinct_used;
            distinct_resources = remove-Distinct name s.resources distinct_resources;
            disjoint = λ h p. ground (
              arith,
              eqb_iff r.handle h,
              has_key-lookup h (remove r.handle s.availables),
              has_key-lookup h (remove r.handle s.used),
              has_key-lookup h s.availables,
              has_key-lookup h s.used,
              lookup-remove r.handle h s.availables distinct_availables,
              lookup-remove r.handle h s.used distinct_used,
              disjoint h,
            );
            available_registered = λ h q p. ground (
              arith,
              eqb_iff r.handle h,
              ==_iff name q.name,
              lookup-remove r.handle h s.availables distinct_availables,
              lookup-remove name q.name s.resources distinct_resources,
              available_registered h q,
            );
            used_registered = λ h q p. ground (
              arith,
              eqb_iff r.handle h,
              ==_iff name q.name,
              lookup-remove r.handle h s.used distinct_used,
              lookup-remove name q.name s.resources distinct_resources,
              used_registered h q,
            );
            registered_held = λ n q p. ground (
              arith,
              eqb_iff r.handle q.handle,
              ==_iff name n,
              lookup-remove r.handle q.handle s.availables distinct_availables,
              lookup-remove r.handle q.handle s.used distinct_used,
              lookup-remove name n s.resources distinct_resources,
              registered_held n q,
              registered_held name r,
              available_registered r.handle q,
              used_registered r.handle q,
              available_registered r.handle r,
              used_registered r.handle r,
              disjoint r.handle,
              has_key-lookup r.handle s.availables,
              has_key-lookup r.handle s.used,
            );
          })
  ]

  -- `try_acquire` keeps the invariant.
  pub try_acquire-IsValid : IsValid (try_acquire s).1
  unfolding try_acquire
  try_acquire-IsValid = by_cases s.availables refl
    where
      by_cases :
          (av : Dict ℕ ResourceData)
          → s.availables ≡ av
          → IsValid
              (elim av as (λ _. Option ResourceData × ExclusiveResources) [
                | [] ↦ (none, s)
                | (h, r) ∷ rest ↦
                    (some r, record s { availables = rest; used = insert r.handle r s.used })
              ]).1
      by_cases [] e = v
      by_cases ((h, r) ∷ rest) e =
          let d : Distinct ((h, r) ∷ rest) = rw e at distinct_availables in
          let reg : (k : ℕ) (q : ResourceData)
              → lookup k ((h, r) ∷ rest) ≡ some q
              → (q.handle ≡ k) × (lookup q.name s.resources ≡ some q) =
            rw e at available_registered in
          let dis : (k : ℕ) → has_key k ((h, r) ∷ rest) ≡ true → has_key k s.used ≡ false =
            rw e at disjoint in
          let held : (n : String) (q : ResourceData)
              → lookup n s.resources ≡ some q
              → (q.name ≡ n)
                × ((lookup q.handle ((h, r) ∷ rest) ≡ some q) ⊎ (lookup q.handle s.used ≡ some q)) =
            rw e at registered_held in
          record {
            distinct_availables = d.1;
            distinct_used = insert-Distinct r.handle r s.used distinct_used;
            distinct_resources = distinct_resources;
            disjoint = λ k p. ground (
              arith,
              reg h r,
              eqb_iff h h,
              eqb_iff h k,
              eqb_iff r.handle k,
              has_key-insert r.handle k r s.used,
              dis k,
            );
            available_registered =
                λ k q p. ground (arith, eqb_iff h k, has_key-lookup k rest, reg k q);
            used_registered = λ k q p. ground (
              arith,
              reg h r,
              eqb_iff h h,
              eqb_iff r.handle k,
              lookup-insert r.handle k r s.used,
              used_registered k q,
            );
            registered_held = λ n q p. ground (
              arith,
              reg h r,
              eqb_iff h h,
              eqb_iff h q.handle,
              eqb_iff r.handle q.handle,
              lookup-insert r.handle q.handle r s.used,
              held n q,
              dis q.handle,
              has_key-lookup q.handle s.used,
            );
          }

  -- `release` keeps the invariant.
  pub release-IsValid : (r : ResourceData) → IsObject r s → IsValid (release r s)
  unfolding release
  release-IsValid r obj = elim (Option-cases (lookup r.handle s.used)) [
    | inl e ↦ rw (has_key-lookup r.handle s.used, e) v
    | inr (q, e) ↦
        let same : lookup r.handle s.used ≡ some r = e ∙ ap some (obj.1 q e) in
        rw (has_key-lookup r.handle s.used, e)
          (record {
            distinct_availables = insert-Distinct r.handle r s.availables distinct_availables;
            distinct_used = remove-Distinct r.handle s.used distinct_used;
            distinct_resources = distinct_resources;
            disjoint = λ h p. ground (
              arith,
              eqb_iff r.handle h,
              has_key-insert r.handle h r s.availables,
              has_key-lookup h (remove r.handle s.used),
              has_key-lookup h s.used,
              lookup-remove r.handle h s.used distinct_used,
              disjoint h,
            );
            available_registered = λ h p k. ground (
              arith,
              eqb_iff r.handle h,
              lookup-insert r.handle h r s.availables,
              available_registered h p,
              used_registered r.handle r same,
            );
            used_registered = λ h p k. ground (
              arith,
              eqb_iff r.handle h,
              lookup-remove r.handle h s.used distinct_used,
              used_registered h p,
            );
            registered_held = λ n p k. ground (
              arith,
              eqb_iff r.handle p.handle,
              lookup-remove r.handle p.handle s.used distinct_used,
              lookup-insert r.handle p.handle r s.availables,
              registered_held n p,
              same,
              disjoint r.handle,
              has_key-lookup r.handle s.availables,
              has_key-lookup r.handle s.used,
            );
          })
  ]
