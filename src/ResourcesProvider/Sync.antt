-- ===== src/ResourcesProvider/Sync.antt =====
-- `update` makes the provider's resources those of the sync.
use data_lineup.Base.{
  String, Bool, true, false, not, ◌&&◌, ◌||◌, List, [], ◌∷◌, keep, ◌==◌, ==_iff, string_eq,
  if◌then◌else◌, ◌≡◌, refl, ◌∙◌, arith, Bool-cases, inl, inr, All,
}
use data_lineup.Dict.{has_key, elem, elem-discard, elem-keep, has_key-insert, insert-Distinct}
use data_lineup.Resources.{ok, raise, value_error, add, remove_resource}
use data_lineup.ResourcesProvider.{
  ProvidedResource, ResourcesProvider, provided_data, provide, withdraw, provide_all, withdraw_all,
  names_of, update, close,
}
use data_lineup.ResourcesProvider.Names.{
  pool_of, has_name, IsKnown, add-known, has_key-remove_resource, remove_resource-Distinct,
  IsSynced, pool_of-set,
}

-- No one else has a name of these.
abbrev pub Free : List String → ResourcesProvider → Type 0
Free names p = (n : String) → elem n names ≡ true → has_name n p ≡ true → elem n p.managed ≡ true

module _ (strategies : String → Bool) where
  -- An item that the provider may add: no one else has the name.
  abbrev pub MayAdd : ResourcesProvider → ProvidedResource → Type 0
  MayAdd p item =
      IsKnown strategies item × (has_name item.name p ≡ true → elem item.name p.managed ≡ true)

  abbrev Provided : List String → ResourcesProvider → ResourcesProvider → Type 0
  Provided names p p' =
      IsSynced p'
      × ((n : String) → elem n p'.managed ≡ (elem n names || elem n p.managed))
      × ((n : String) → has_name n p' ≡ (elem n names || has_name n p))

  provide-added :
      (item : ProvidedResource) (p : ResourcesProvider)
      → IsSynced p
      → MayAdd p item
      → ((provide strategies item p).0 ≡ ok tt)
        × Provided (item.name ∷ []) p (provide strategies item p).1
  unfolding provide
  provide-added item p v (known, free) = elim (Bool-cases (elem item.name p.managed)) [
    | inl e ↦ rw e (
      refl,
      (
        v,
        λ n. ground (arith, e, ==_iff item.name n),
        λ n. ground (arith, e, v.held item.name e, ==_iff item.name n),
      ),
    )
    | inr e ↦
        let r = provided_data p.next item in
        let s = pool_of p in
        let absent : has_key item.name s.resources ≡ false = ground (arith, free, e) in
        let (done, there) = add-known strategies r s known absent in
        rw e (
          done,
          (
            record {
              distinct =
                  rw (pool_of-set p (add strategies r s).1, there)
                    (insert-Distinct item.name r s.resources v.distinct);
              held = λ n f.
                  rw
                    (
                      pool_of-set p (add strategies r s).1,
                      there,
                      has_key-insert item.name n r s.resources,
                    )
                    (ground (arith, f, v.held n));
            },
            λ n. ground arith,
            λ n.
                rw
                  (
                    pool_of-set p (add strategies r s).1,
                    there,
                    has_key-insert item.name n r s.resources,
                  )
                  (ground arith),
          ),
        )
  ]

  provide_all-added :
      (items : List ProvidedResource) (p : ResourcesProvider)
      → IsSynced p
      → All (IsKnown strategies) items
      → Free (names_of items) p
      → ((provide_all strategies items p).0 ≡ ok tt)
        × Provided (names_of items) p (provide_all strategies items p).1
  provide_all-added [] p v known free = (refl, (v, λ n. refl, λ n. refl))
  provide_all-added (item ∷ items) p v (k, known) free =
      let (done, (v', managed, there)) =
        provide-added item p v (k, free item.name (ground (arith, ==_iff item.name item.name))) in
      let p' = (provide strategies item p).1 in
      let (done', (v'', managed', there')) =
        provide_all-added items p' v' known
          (λ n f h. ground (arith, managed n, there n, free n, f, h, ==_iff item.name n)) in
      rw (provide_all, done)
        (
          done',
          (
            v'',
            λ n. managed' n ∙ ground (arith, managed n, ==_iff item.name n),
            λ n. there' n ∙ ground (arith, there n, ==_iff item.name n),
          ),
        )

abbrev Withdrawn : List String → ResourcesProvider → ResourcesProvider → Type 0
Withdrawn names p p' =
    IsSynced p'
    × ((n : String) → elem n p'.managed ≡ (not (elem n names) && elem n p.managed))
    × ((n : String) → has_name n p' ≡ (not (elem n names) && has_name n p))

withdraw-Withdrawn :
    (name : String) (p : ResourcesProvider) → IsSynced p → Withdrawn (name ∷ []) p (withdraw name p)
unfolding withdraw
withdraw-Withdrawn name p v =
    let s = pool_of p in
    let here : (n : String)
        → has_name n (withdraw name p) ≡ (if name == n then false else has_name n p) =
      λ n.
        rw (pool_of-set p (remove_resource name s)) (has_key-remove_resource name n s v.distinct) in
    (
      (record {
        distinct =
            rw (pool_of-set p (remove_resource name s))
              (remove_resource-Distinct name s v.distinct);
        held = λ n f. here n ∙ ground (arith, f, v.held n, elem-discard name n p.managed);
      }),
      λ n. elem-discard name n p.managed ∙ ground arith,
      λ n. here n ∙ ground arith,
    )

withdraw_all-Withdrawn :
    (names : List String) (p : ResourcesProvider)
    → IsSynced p
    → Withdrawn names p (withdraw_all names p)
withdraw_all-Withdrawn [] p v = (v, λ n. refl, λ n. refl)
withdraw_all-Withdrawn (name ∷ names) p v =
    let (v', managed, there) = withdraw-Withdrawn name p v in
    let (v'', managed', there') = withdraw_all-Withdrawn names (withdraw name p) v' in
    (v'', λ n. managed' n ∙ ground (arith, managed n), λ n. there' n ∙ ground (arith, there n))

-- After an update without an error the provider manages exactly the names of the sync, they are
-- all in the pool of its type, and of the other names those remain that it did not manage. It does
-- not raise, given that the names of the pool are distinct and those it manages are there, that
-- the strategies of the items exist and that no one else has a name of theirs.
pub update-syncs :
    (strategies : String → Bool) (items : List ProvidedResource) (p : ResourcesProvider)
    → IsSynced p
    → All (IsKnown strategies) items
    → Free (names_of items) p
    → let p' = (update strategies items p).1 in
      ((update strategies items p).0 ≡ ok tt)
      × IsSynced p'
      × ((n : String) → elem n p'.managed ≡ elem n (names_of items))
      × ((n : String)
          → has_name n p' ≡ (elem n (names_of items) || (has_name n p && not (elem n p.managed))))
unfolding update
update-syncs strategies items p v known free =
    let (done, (v', managed, there)) = provide_all-added strategies items p v known free in
    let p' = (provide_all strategies items p).1 in
    let wanted : String → Bool = λ n. not (elem n (names_of items)) in
    let (v'', managed', there') = withdraw_all-Withdrawn (keep wanted p'.managed) p' v' in
    rw (update, done)
      (
        refl,
        v'',
        λ n. managed' n ∙ ground (arith, elem-keep n wanted p'.managed, managed n),
        λ n. there' n ∙ ground (arith, elem-keep n wanted p'.managed, managed n, there n),
      )

-- An item whose name another provider has: `add` raises, and yet the name is managed from then on,
-- and closing the provider takes the other one's resource out of the pool. Given that the names of
-- the pool are distinct and those the provider manages are there.
pub close-taken :
    (strategies : String → Bool) (item : ProvidedResource) (p : ResourcesProvider)
    → IsSynced p
    → has_name item.name p ≡ true
    → elem item.name p.managed ≡ false
    → let p' = (provide strategies item p).1 in
      ((provide strategies item p).0 ≡ raise value_error)
      × (has_name item.name p' ≡ true)
      × (has_name item.name (close p') ≡ false)
unfolding provide add
close-taken strategies item p v there other =
    let r = provided_data p.next item in
    let refused : add strategies r (pool_of p) ≡ (raise value_error, pool_of p) = rw there refl in
    let p' = (provide strategies item p).1 in
    let managed : (n : String)
        → elem n p'.managed ≡ (if item.name == n then true else elem n p.managed) =
      λ n. rw other refl in
    let same : (n : String) → has_name n p' ≡ has_name n p =
      λ n. rw (other, there, pool_of-set p (pool_of p)) refl in
    let v' : IsSynced p' = record {
      distinct = rw (other, there, pool_of-set p (pool_of p)) v.distinct;
      held = λ n f. same n ∙ ground (arith, f, managed n, there, v.held n, ==_iff item.name n);
    } in
    let (_, _, gone) = withdraw_all-Withdrawn p'.managed p' v' in
    (
      rw (other, there) refl,
      same item.name ∙ there,
      gone item.name ∙ ground (arith, managed item.name, ==_iff item.name item.name),
    )
