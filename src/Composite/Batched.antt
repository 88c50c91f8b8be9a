-- ===== src/Composite/Batched.antt =====
-- The batches of a `BatchingInventory`.
use data_lineup.Base.{
  ℕ, zero, suc, ◌+◌, ◌≤◌, ◌<◌, Option, none, some, List, [], ◌∷◌, ◌++◌, eqb_iff, ◌≡◌, refl, sym, ap,
  arith, take, drop, length, length-take-le, length-append, All, List-cases, inl, inr,
}
use data_lineup.Composite.{iterate_batches, batch_size_of}

batch_size_of-positive : (o : Option ℕ) → 1 ≤ batch_size_of o
batch_size_of-positive none = omega arith
batch_size_of-positive (some n) = ground (arith, eqb_iff n 0)

module _ {A : Type 0} where
  abbrev pub concat : List (List A) → List A
  concat [] = []
  concat (b ∷ bs) = b ++ concat bs

  take-drop : (n : ℕ) (xs : List A) → take n xs ++ drop n xs ≡ xs
  take-drop zero xs = refl
  take-drop (suc n) [] = refl
  take-drop (suc n) (x ∷ xs) = ap (λ ys. x ∷ ys) (take-drop n xs)

  take-empty : (n : ℕ) (xs : List A) → 1 ≤ n → take n xs ≡ [] → xs ≡ []
  take-empty zero xs h e = absurd (omega (arith, h))
  take-empty (suc n) [] h e = refl
  take-empty (suc n) (x ∷ xs) h e = absurd (cc e)

  batches_of :
      (size fuel : ℕ) (items : List A)
      → 1 ≤ size
      → length items < fuel
      → (batches : List (List A)) × (iterate_batches fuel size items ≡ some batches)
        × (concat batches ≡ items)
        × All (λ b. (1 ≤ length b) × (length b ≤ size)) batches
  unfolding iterate_batches
  batches_of size zero items p h = absurd (omega (arith, h))
  batches_of size (suc fuel) items p h = elim (List-cases (take size items)) [
    | inl e ↦ ([], ground (arith, e), sym (take-empty size items p e), tt)
    | inr (i, is, e) ↦
        let whole = take-drop size items in
        let bound : length (take size items) ≤ size = length-take-le size items in
        let fits : length (i ∷ is) ≤ size = rw e at bound in
        let same_items : (i ∷ is) ++ drop size items ≡ items = rw e at whole in
        let shorter : length (drop size items) < fuel =
          omega (arith, length-append (i ∷ is) (drop size items), ap length same_items, h) in
        let (rest, found, same, sized) = batches_of size fuel (drop size items) p shorter in
        (
          (i ∷ is) ∷ rest,
          ground (arith, e, found),
          rw same same_items,
          ((omega arith, fits), sized),
        )
  ]

  -- A batching inventory ends: with one unit of fuel more than there are items, the batches of a
  -- run are its items in order, and each batch holds at least one and at most `batch_size` of them.
  pub iterate_batches-concat :
      (o : Option ℕ) (items : List A)
      → (batches : List (List A)) × (iterate_batches (length items + 1) (batch_size_of o) items
          ≡ some batches)
        × (concat batches ≡ items)
        × All (λ b. (1 ≤ length b) × (length b ≤ batch_size_of o)) batches
  iterate_batches-concat o items =
      batches_of (batch_size_of o) (length items + 1) items (batch_size_of-positive o) (omega arith)
