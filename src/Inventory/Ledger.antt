-- ===== src/Inventory/Ledger.antt =====
-- The states that `CursorsState.process_item` reaches, with the items begun and finished so far, and
-- how the pending entries, in insertion order, follow those two lists.
use mathlib.Core.List.{reverse, reverse-append}
use data_lineup.Base.{
  ℕ, String, true, false, not, Option, List, [], ◌∷◌, ◌++◌, map, eqb_iff, nat_eq, string_eq,
  if◌then◌else◌, or_else, ◌≡◌, refl, arith, ap, Bool-cases, inl, inr,
}
use data_lineup.Dict.{Dict, insert, values, elem}
use data_lineup.Inventory.{
  Item, PendingItem, CursorsState, items_done, delete_all, first_cursor, pending, begin_item,
  finish_item,
}

module _ {Args : Type 0} where
  abbrev pub handles : List (Item Args) → List ℕ
  handles = map (λ i. i.handle)

  -- A place of an item in a list.
  pub data In (i : Item Args) : List (Item Args) → Type 0 where
    here : {is : List (Item Args)} → In i (i ∷ is)
    there : {j : Item Args} {is : List (Item Args)} → In i is → In i (j ∷ is)

  -- The states that `process_item` reaches from `s₀`, with the items begun, in order, and the
  -- handles of those finished. A handle names one object for the whole run.
  pub data Reach (s₀ : CursorsState Args)
      : List (Item Args) → List ℕ → CursorsState Args → Type 0 where
    start : Reach s₀ [] [] s₀
    begin :
        {begun : List (Item Args)} {finished : List ℕ} {s : CursorsState Args} (i : Item Args)
        → Reach s₀ begun finished s
        → elem i.handle (handles begun) ≡ false
        → Reach s₀ (begun ++ i ∷ []) finished (begin_item i s).0
    finish :
        {begun : List (Item Args)} {finished : List ℕ} {s : CursorsState Args} (i : Item Args)
        → Reach s₀ begun finished s
        → In i begun
        → elem i.handle finished ≡ false
        → Reach s₀ begun (i.handle ∷ finished) (finish_item i s)

  -- The items before the first one that is not finished.
  abbrev pub finished_prefix : List ℕ → List (Item Args) → List (Item Args)
  finished_prefix f [] = []
  finished_prefix f (i ∷ is) =
      let rest = finished_prefix f is in if elem i.handle f then i ∷ rest else []

  -- The others.
  abbrev pub unfinished_suffix : List ℕ → List (Item Args) → List (Item Args)
  unfinished_suffix f [] = []
  unfinished_suffix f (i ∷ is) =
      let rest = unfinished_suffix f is in if elem i.handle f then rest else i ∷ is

  -- The entries that stand for these items.
  abbrev pub entries : List ℕ → List (Item Args) → Dict ℕ (PendingItem Args)
  entries f [] = []
  entries f (i ∷ is) = (i.handle, pending (not (elem i.handle f)) i) ∷ entries f is

  abbrev pub Unique : List (Item Args) → Type 0
  Unique [] = Unit
  Unique (i ∷ is) = (elem i.handle (handles is) ≡ false) × Unique is

  pub has_handle :
      (i : Item Args) (is : List (Item Args)) → In i is → elem i.handle (handles is) ≡ true
  has_handle i [] p = elim p [ ]
  has_handle i (j ∷ is) here = ground (arith, eqb_iff i.handle i.handle)
  has_handle i (j ∷ is) (there p) = ground (arith, has_handle i is p)

  pub insert_fresh :
      (f : List ℕ) (i : Item Args) (is : List (Item Args))
      → elem i.handle (handles is) ≡ false
      → elem i.handle f ≡ false
      → insert i.handle (pending true i) (entries f is) ≡ entries f (is ++ i ∷ [])
  insert_fresh f i [] h k = ground arith
  insert_fresh f i (j ∷ is) h k = ground (arith, insert_fresh f i is)

  mark_other :
      (f : List ℕ) (k : ℕ) (is : List (Item Args))
      → elem k (handles is) ≡ false
      → entries (k ∷ f) is ≡ entries f is
  mark_other f k [] h = refl
  mark_other f k (j ∷ is) h =
      ground (arith, eqb_iff k j.handle, eqb_iff j.handle k, mark_other f k is)

  pub insert_mark :
      (f : List ℕ) (i : Item Args) (is : List (Item Args))
      → Unique is
      → In i is
      → insert i.handle (pending false i) (entries f is) ≡ entries (i.handle ∷ f) is
  insert_mark f i [] u p = elim p [ ]
  insert_mark f i (j ∷ is) u here =
      ground (arith, eqb_iff i.handle i.handle, mark_other f i.handle is)
  insert_mark f i (j ∷ is) u (there p) = ground (
    arith,
    eqb_iff i.handle j.handle,
    eqb_iff j.handle i.handle,
    has_handle i is p,
    insert_mark f i is u.1 p,
  )

  pub suffix_fresh :
      (f : List ℕ) (k : ℕ) (is : List (Item Args))
      → elem k (handles is) ≡ false
      → elem k (handles (unfinished_suffix f is)) ≡ false
  suffix_fresh f k [] h = refl
  suffix_fresh f k (j ∷ is) h = ground (arith, suffix_fresh f k is)

  pub suffix-Unique :
      (f : List ℕ) (is : List (Item Args)) → Unique is → Unique (unfinished_suffix f is)
  suffix-Unique f [] u = tt
  suffix-Unique f (j ∷ is) u = ground (arith, suffix-Unique f is u.1)

  pub In-suffix :
      (f : List ℕ) (i : Item Args) (is : List (Item Args))
      → In i is
      → elem i.handle f ≡ false
      → In i (unfinished_suffix f is)
  In-suffix f i [] p h = elim p [ ]
  In-suffix f i (j ∷ is) here h = rw h here
  In-suffix f i (j ∷ is) (there p) h = elim (Bool-cases (elem j.handle f)) [
    | inl e ↦ rw e (In-suffix f i is p h)
    | inr e ↦ rw e (there p)
  ]

  pub suffix-begin :
      (f : List ℕ) (i : Item Args) (is : List (Item Args))
      → elem i.handle f ≡ false
      → (unfinished_suffix f (is ++ i ∷ []) ≡ unfinished_suffix f is ++ i ∷ [])
        × (finished_prefix f (is ++ i ∷ []) ≡ finished_prefix f is)
  suffix-begin f i [] h = ground arith
  suffix-begin f i (j ∷ is) h = ground (arith, suffix-begin f i is h)

  pub suffix-finish :
      (f : List ℕ) (k : ℕ) (is : List (Item Args))
      → (unfinished_suffix (k ∷ f) (unfinished_suffix f is) ≡ unfinished_suffix (k ∷ f) is)
        × (finished_prefix (k ∷ f) is
            ≡ finished_prefix f is ++ finished_prefix (k ∷ f) (unfinished_suffix f is))
  suffix-finish f k [] = (refl, refl)
  suffix-finish f k (j ∷ is) = ground (arith, suffix-finish f k is)

  pub items_done-entries :
      (f : List ℕ) (is : List (Item Args))
      → items_done (values (entries f is)) ≡ finished_prefix f is
  items_done-entries f [] = refl
  items_done-entries f (j ∷ is) = ground (arith, items_done-entries f is)

  pub delete_all-entries :
      (f : List ℕ) (is : List (Item Args))
      → delete_all (finished_prefix f is) (entries f is) ≡ entries f (unfinished_suffix f is)
  delete_all-entries f [] = refl
  delete_all-entries f (j ∷ is) = ground (arith, eqb_iff j.handle j.handle, delete_all-entries f is)

  first_cursor-append :
      (xs ys : List (Item Args))
      → first_cursor (xs ++ ys) ≡ or_else (first_cursor xs) (first_cursor ys)
  first_cursor-append [] ys = refl
  first_cursor-append (x ∷ xs) ys = ground (arith, first_cursor-append xs ys)

  -- The last cursor, in the order of beginning.
  abbrev pub last_cursor : List (Item Args) → Option String
  last_cursor is = first_cursor (reverse is)

  pub last_cursor-append :
      (xs ys : List (Item Args)) (o : Option String)
      → or_else (last_cursor (xs ++ ys)) o ≡ or_else (last_cursor ys) (or_else (last_cursor xs) o)
  last_cursor-append xs ys o =
      ground (
        arith,
        ap first_cursor (reverse-append xs ys),
        first_cursor-append (reverse ys) (reverse xs),
      )
