-- ===== src/Inventory/Commit.antt =====
-- What `CursorsState.process_item` commits as the resume point, for items that finish in any order.
use data_lineup.Base.{
  ℕ, Bool, true, false, List, [], ◌∷◌, ◌++◌, nat_eq, eqb, eqb_iff, or_else, ◌≡◌, refl, arith, sym,
  ◌↔◌,
}
use data_lineup.Dict.{insert, elem}
use data_lineup.Inventory.{Item, CursorsState, pending, begin_item, finish_item, has_pendings}
use data_lineup.Inventory.Ledger.{
  Reach, start, begin, finish, In, handles, Unique, entries, finished_prefix, unfinished_suffix,
  insert_fresh, insert_mark, suffix_fresh, suffix-Unique, In-suffix, suffix-begin, suffix-finish,
  items_done-entries, delete_all-entries, last_cursor, last_cursor-append, has_handle,
}

module _ {Args : Type 0} where
  record Inv (s₀ : CursorsState Args) (begun : List (Item Args)) (finished : List ℕ)
      (s : CursorsState Args) : Type 0 where
    unique : Unique begun
    known : (k : ℕ) → elem k (handles begun) ≡ false → elem k finished ≡ false
    listed : s.pendings ≡ entries finished (unfinished_suffix finished begun)
    committed : s.after ≡ or_else (last_cursor (finished_prefix finished begun)) s₀.after

  Unique-begin :
      (i : Item Args) (is : List (Item Args))
      → Unique is
      → elem i.handle (handles is) ≡ false
      → Unique (is ++ i ∷ [])
  Unique-begin i [] u h = (refl, tt)
  Unique-begin i (j ∷ is) u h = (
    handles-begin i j.handle is u.0
        (ground (arith, eqb_iff i.handle j.handle, eqb_iff j.handle i.handle)),
    Unique-begin i is u.1 (ground arith),
  )
    where
      handles-begin :
          (i : Item Args) (k : ℕ) (is : List (Item Args))
          → elem k (handles is) ≡ false
          → eqb i.handle k ≡ false
          → elem k (handles (is ++ i ∷ [])) ≡ false
      handles-begin i k [] h e = ground arith
      handles-begin i k (j ∷ is) h e = ground (arith, handles-begin i k is)

  known-begin :
      (i : Item Args) (k : ℕ) (is : List (Item Args))
      → elem k (handles (is ++ i ∷ [])) ≡ false
      → elem k (handles is) ≡ false
  known-begin i k [] h = refl
  known-begin i k (j ∷ is) h = ground (arith, known-begin i k is)

  begin-after : (i : Item Args) (s : CursorsState Args) → (begin_item i s).0.after ≡ s.after
  unfolding begin_item
  begin-after i s = ground arith

  begin-pendings :
      (i : Item Args) (s : CursorsState Args)
      → (begin_item i s).0.pendings ≡ insert i.handle (pending true i) s.pendings
  unfolding begin_item
  begin-pendings i s = ground arith

  Inv-begin :
      {s₀ s : CursorsState Args} {begun : List (Item Args)} {finished : List ℕ} (i : Item Args)
      → Inv s₀ begun finished s
      → elem i.handle (handles begun) ≡ false
      → Inv s₀ (begun ++ i ∷ []) finished (begin_item i s).0
  Inv-begin {s₀} {s} {begun} {finished} i v h =
      let fresh = v.known i.handle h in
      let (grown, same) = suffix-begin finished i begun fresh in
      record {
        unique = Unique-begin i begun v.unique h;
        known = λ k e. v.known k (known-begin i k begun e);
        listed =
            rw (begin-pendings i s, v.listed, grown)
              (insert_fresh finished i (unfinished_suffix finished begun)
                (suffix_fresh finished i.handle begun h) fresh);
        committed = rw (begin-after i s, same) v.committed;
      }

  Inv-finish :
      {s₀ s : CursorsState Args} {begun : List (Item Args)} {finished : List ℕ} (i : Item Args)
      → Inv s₀ begun finished s
      → In i begun
      → elem i.handle finished ≡ false
      → Inv s₀ begun (i.handle ∷ finished) (finish_item i s)
  unfolding finish_item
  Inv-finish {s₀} {s} {begun} {finished} i v p h =
      let g = i.handle ∷ finished in
      let r = unfinished_suffix finished begun in
      let marked : insert i.handle (pending false i) s.pendings ≡ entries g r = rw v.listed (
        insert_mark finished i r (suffix-Unique finished begun v.unique)
          (In-suffix finished i begun p h)) in
      let (rest, prefix) = suffix-finish finished i.handle begun in
      record {
        unique = v.unique;
        known = λ k e. ground (arith, has_handle i begun p, eqb_iff i.handle k, v.known k e);
        listed = rw (marked, items_done-entries g r, ← rest) (delete_all-entries g r);
        committed =
            rw (marked, items_done-entries g r, v.committed, prefix)
              (sym (
                last_cursor-append (finished_prefix finished begun) (finished_prefix g r)
                  s₀.after));
      }

  Reach-Inv :
      {s₀ s : CursorsState Args} {begun : List (Item Args)} {finished : List ℕ}
      → s₀.pendings ≡ []
      → Reach s₀ begun finished s
      → Inv s₀ begun finished s
  Reach-Inv e start = record { unique = tt; known = λ k h. refl; listed = e; committed = refl }
  Reach-Inv e (begin i r h) = Inv-begin i (Reach-Inv e r) h
  Reach-Inv e (finish i r p h) = Inv-finish i (Reach-Inv e r) p h

  prefix-append-suffix :
      (f : List ℕ) (is : List (Item Args)) → is ≡ finished_prefix f is ++ unfinished_suffix f is
  prefix-append-suffix f [] = refl
  prefix-append-suffix f (i ∷ is) = ground (arith, prefix-append-suffix f is)

  module _ {s₀ s : CursorsState Args} {begun : List (Item Args)} {finished : List ℕ}
      (empty : s₀.pendings ≡ []) (reached : Reach s₀ begun finished s) where
    -- However begins and finishes interleave, the items begun split into a part before the resume
    -- point and a part behind it: the first holds finished items only and ends right before the
    -- first unfinished one, `after` is its last non-empty cursor (the old `after` if it has
    -- none), and every item that has not finished lies in the second. Given that the state
    -- started with nothing pending.
    pub commit-finished_prefix :
        (committed rest : List (Item Args)) × (begun ≡ committed ++ rest)
        × (committed ≡ finished_prefix finished begun)
        × (s.after ≡ or_else (last_cursor committed) s₀.after)
        × ((i : Item Args) → In i begun → elem i.handle finished ≡ false → In i rest)
    commit-finished_prefix = (
      finished_prefix finished begun,
      unfinished_suffix finished begun,
      prefix-append-suffix finished begun,
      refl,
      (Reach-Inv empty reached).committed,
      λ i p h. In-suffix finished i begun p h,
    )

    -- What is still held is exactly the items from the first unfinished one on, in the order of
    -- their begin, each with its own flag; so `has_pendings` is false exactly when every item
    -- begun has finished. Given that the state started with nothing pending.
    pub pendings-unfinished_suffix :
        (s.pendings ≡ entries finished (unfinished_suffix finished begun))
        × ((has_pendings s ≡ false) ↔ (unfinished_suffix finished begun ≡ []))
    unfolding has_pendings
    pendings-unfinished_suffix =
        let e = (Reach-Inv empty reached).listed in
        (e, (λ h. from_none (unfinished_suffix finished begun) (rw e at h), λ h. rw (e, h)))
      where
        from_none :
            (is : List (Item Args))
            → (elim (entries finished is) as (λ _. Bool) [ [] ↦ false | _ ∷ _ ↦ true ]) ≡ false
            → is ≡ []
        from_none [] h = refl
        from_none (i ∷ is) h = cc
