-- ===== src/Dict/Laws.antt =====
-- The laws of dictionaries, stated by what a lookup finds.
use data_lineup.Base.{
  true, false, none, some, [], ◌∷◌, Eq, ◌==◌, ==_iff, if◌then◌else◌, ◌≡◌, refl, arith, is_some,
  or_else,
}
use data_lineup.Dict.Defs.{Dict, lookup, has_key, insert, remove, update, Distinct}

module _ {ℓ} {K V : Type ℓ} ⦃e : Eq K⦄ where
  pub lookup-insert :
      (k j : K) (v : V) (m : Dict K V)
      → lookup j (insert k v m) ≡ (if k == j then some v else lookup j m)
  lookup-insert k j v [] = refl
  lookup-insert k j v ((i, w) ∷ m) =
      ground (arith, ==_iff k j, ==_iff i k, ==_iff i j, lookup-insert k j v m)

  pub has_key-lookup : (k : K) (m : Dict K V) → has_key k m ≡ is_some (lookup k m)
  has_key-lookup k [] = refl
  has_key-lookup k ((i, w) ∷ m) = ground (arith, has_key-lookup k m)

  pub has_key-insert :
      (k j : K) (v : V) (m : Dict K V)
      → has_key j (insert k v m) ≡ (if k == j then true else has_key j m)
  has_key-insert k j v [] = refl
  has_key-insert k j v ((i, w) ∷ m) =
      ground (arith, ==_iff k j, ==_iff i k, ==_iff i j, has_key-insert k j v m)

  pub insert-Distinct : (k : K) (v : V) (m : Dict K V) → Distinct m → Distinct (insert k v m)
  insert-Distinct k v [] h = (refl, tt)
  insert-Distinct k v ((i, w) ∷ m) h =
      ground (arith, ==_iff k i, ==_iff i k, has_key-insert k i v m, insert-Distinct k v m h.1)

  has_key-remove : (k j : K) (m : Dict K V) → has_key j m ≡ false → has_key j (remove k m) ≡ false
  has_key-remove k j [] h = refl
  has_key-remove k j ((i, w) ∷ m) h = ground (arith, has_key-remove k j m)

  pub remove-Distinct : (k : K) (m : Dict K V) → Distinct m → Distinct (remove k m)
  remove-Distinct k [] h = tt
  remove-Distinct k ((i, w) ∷ m) h =
      ground (arith, has_key-remove k i m h.0, remove-Distinct k m h.1)

  lookup_absent : (k : K) (m : Dict K V) → has_key k m ≡ false → lookup k m ≡ none
  lookup_absent k m h = ground (arith, has_key-lookup k m)

  pub lookup-remove :
      (k j : K) (m : Dict K V)
      → Distinct m
      → lookup j (remove k m) ≡ (if k == j then none else lookup j m)
  lookup-remove k j [] h = ground arith
  lookup-remove k j ((i, w) ∷ m) h = ground (
    arith,
    ==_iff k j,
    ==_iff i k,
    ==_iff i j,
    lookup-remove k j m h.1,
    lookup_absent j m,
    lookup_absent k m,
  )

  pub update-Distinct : (m new : Dict K V) → Distinct m → Distinct (update m new)
  update-Distinct m [] h = h
  update-Distinct m ((k, v) ∷ new) h = update-Distinct (insert k v m) new (insert-Distinct k v m h)

  -- The new dictionary wins.
  pub lookup-update :
      (j : K) (m new : Dict K V)
      → Distinct new
      → lookup j (update m new) ≡ or_else (lookup j new) (lookup j m)
  lookup-update j m [] h = refl
  lookup-update j m ((k, v) ∷ new) h = ground (
    arith,
    ==_iff k j,
    lookup-update j (insert k v m) new h.1,
    lookup-insert k j v m,
    lookup_absent j new,
  )
