-- ===== src/Inventory/Saved.antt =====
-- What `CursorsState.as_dict` stores and `from_dict` reads back: the partially completed items.
use data_lineup.Base.{
  ℕ, zero, suc, ◌-◌, ◌≤◌, String, true, false, ◌||◌, not, Option, none, some, List, [], ◌∷◌, nat_eq,
  string_eq, ◌≡◌, refl, arith, length, take, length-take-le, inl, inr, Option-cases,
}
use data_lineup.Dict.{values, elem, union, elem-union, length-union-le}
use data_lineup.Inventory.{
  Item, CursorsState, CursorDict, Codec, truthy, partials_cursors, all_partials, as_dict, as_cursor,
  from_dict, from_cursor, begin_item,
}

-- What the code relies on of `sorted`, `json.dumps` and `json.loads`.
pub record IsLawful (codec : Codec) : Type 0 where
  pub elem-sorted : (c : String) (xs : List String) → elem c (codec.sorted xs) ≡ elem c xs
  pub length-sorted : (xs : List String) → length (codec.sorted xs) ≡ length xs
  pub loads-dumps :
      (d : CursorDict)
      → codec.loads (codec.dumps d)
        ≡ some (record { is_dict = true; v = some 1; has_other_keys = false; fields = d })
  pub dumps_nonempty : (d : CursorDict) → truthy (some (codec.dumps d)) ≡ some (codec.dumps d)

abbrev pub stored : Option (List String) → List String
stored none = []
stored (some ps) = ps

elem-take : (c : String) (n : ℕ) (xs : List String) → elem c (take n xs) ≡ true → elem c xs ≡ true
elem-take c zero xs h = cc
elem-take c (suc n) [] h = cc
elem-take c (suc n) (x ∷ xs) h = ground (arith, elem-take c n xs)

elem-union_nil : (c : String) (xs : List String) → elem c (union [] xs) ≡ elem c xs
elem-union_nil c xs = ground (arith, elem-union c [] xs)

length-union_nil-le : (xs : List String) → length (union [] xs) ≤ length xs
length-union_nil-le xs = omega (arith, length-union-le [] xs)

module _ (codec : Codec) (lawful : IsLawful codec) {Args : Type 0} (s : CursorsState Args) where
  open lawful use {elem-sorted, length-sorted, loads-dumps, dumps_nonempty}

  abbrev done : List String
  done = partials_cursors (values s.pendings)

  length-stored_sorted :
      (ps : List String)
      → length (stored (elim ps [ [] ↦ none | q ∷ qs ↦ some (codec.sorted (q ∷ qs)) ])) ≡ length ps
  length-stored_sorted [] = refl
  length-stored_sorted (q ∷ qs) = length-sorted (q ∷ qs)

  elem-stored_sorted :
      (c : String) (ps : List String)
      → elem c (stored (elim ps [ [] ↦ none | q ∷ qs ↦ some (codec.sorted (q ∷ qs)) ])) ≡ elem c ps
  elem-stored_sorted c [] = refl
  elem-stored_sorted c (q ∷ qs) = elem-sorted c (q ∷ qs)

  length-all_partials-le : (n : ℕ) → s.max_partials ≡ some n → length (all_partials s) ≤ n
  length-all_partials-le n e =
      let taken = union [] (take n done) in
      let older = union [] (take (n - length taken) s.partials) in
      rw (e, all_partials)
        (omega (
          arith,
          length-union-le older taken,
          length-union_nil-le (take n done),
          length-union_nil-le (take (n - length taken) s.partials),
          length-take-le n done,
          length-take-le (n - length taken) s.partials,
        ))

  elem-all_partials_sound :
      (c : String) → elem c (all_partials s) ≡ true → (elem c s.partials || elem c done) ≡ true
  elem-all_partials_sound c h = elim (Option-cases s.max_partials) [
    | inl e ↦ ground (arith, elem-union c s.partials (union [] done), elem-union_nil c done)
    | inr (n, e) ↦
        let taken = union [] (take n done) in
        let room = n - length taken in
        ground (
          arith,
          elem-union c (union [] (take room s.partials)) taken,
          elem-union_nil c (take room s.partials),
          elem-union_nil c (take n done),
          elem-take c n done,
          elem-take c room s.partials,
        )
  ]

  elem-all_partials_complete :
      (c : String)
      → s.max_partials ≡ none
      → elem c (all_partials s) ≡ (elem c s.partials || elem c done)
  elem-all_partials_complete c e =
      ground (arith, elem-union c s.partials (union [] done), elem-union_nil c done)

  -- A limit on the partial cursors bounds what is stored, also where the limit is 0.
  pub length-as_dict-le :
      (n : ℕ) → s.max_partials ≡ some n → length (stored (as_dict codec s).p) ≤ n
  unfolding as_dict
  length-as_dict-le zero e = rw e (omega arith)
  length-as_dict-le (suc n) e =
      rw (e, length-stored_sorted (all_partials s)) (length-all_partials-le (suc n) e)

  elem-as_dict :
      (c : String)
      → elem c (stored (as_dict codec s).p) ≡ true
      → (elem c s.partials || elem c done) ≡ true
  unfolding as_dict
  elem-as_dict c h = elim (Option-cases s.max_partials) [
    | inl e ↦ elem-all_partials_sound c (rw (e, elem-stored_sorted c (all_partials s)) at h)
    | inr (n, e) ↦ bounded n e h
  ]
    where
      bounded :
          (n : ℕ)
          → s.max_partials ≡ some n
          → elem c (stored (as_dict codec s).p) ≡ true
          → (elem c s.partials || elem c done) ≡ true
      bounded zero e h = cc (rw e at h)
      bounded (suc n) e h =
          elem-all_partials_sound c (rw (e, elem-stored_sorted c (all_partials s)) at h)

  elem-as_dict_unlimited :
      (c : String)
      → s.max_partials ≡ none
      → elem c (stored (as_dict codec s).p) ≡ (elem c s.partials || elem c done)
  unfolding as_dict
  elem-as_dict_unlimited c e =
      rw (e, elem-stored_sorted c (all_partials s)) (elem-all_partials_complete c e)

  module _ (max_partials : Option ℕ) where
    abbrev restored : CursorsState Args
    restored = from_cursor codec (as_cursor codec s) max_partials

    from_cursor-as_cursor : restored ≡ from_dict codec (as_dict codec s) max_partials
    unfolding from_cursor as_cursor
    from_cursor-as_cursor =
        ground (arith, loads-dumps (as_dict codec s), dumps_nonempty (as_dict codec s))

    elem-restored : (c : String) → elem c restored.partials ≡ elem c (stored (as_dict codec s).p)
    unfolding from_dict
    elem-restored c = rw from_cursor-as_cursor (elem_stored c (as_dict codec s).p)
      where
        elem_stored :
            (c : String) (p : Option (List String))
            → elem c (elim p as (λ _. List String) [ none ↦ [] | some ps ↦ union [] ps ])
              ≡ elem c (stored p)
        elem_stored c none = refl
        elem_stored c (some ps) = elem-union_nil c ps

    -- A run restarted from the stored cursor resumes after the same item, and skips a later item
    -- only if its cursor is non-empty and was already completed: it was a partial of the old
    -- state, or the cursor of an item that the old state held as finished. The codec is lawful.
    pub skips-completed :
        (restored.after ≡ s.after)
        × ((j : Item Args)
            → (begin_item j restored).1 ≡ false
            → (c : String) × (truthy j.cursor ≡ some c)
              × ((elem c s.partials || elem c done) ≡ true))
    unfolding begin_item as_dict from_dict
    skips-completed = (
      rw from_cursor-as_cursor,
      λ j h. elim (Option-cases (truthy j.cursor)) [
        | inl e ↦ absurd (ground arith)
        | inr (c, e) ↦ (c, e, elem-as_dict c (ground (arith, elem-restored c)))
      ],
    )

    -- With no limit on the partial cursors nothing is forgotten: the restarted run skips an item
    -- with a non-empty cursor exactly if that cursor was a partial of the old state or belongs to
    -- an item that the old state held as finished. The codec is lawful.
    pub skips_exactly :
        s.max_partials ≡ none
        → (j : Item Args) (c : String) → truthy j.cursor ≡ some c
        → (begin_item j restored).1 ≡ not (elem c s.partials || elem c done)
    unfolding begin_item
    skips_exactly e j c h = ground (arith, elem-restored c, elem-as_dict_unlimited c e)
