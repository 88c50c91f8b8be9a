-- ===== src/Dict/Sets.antt =====
-- Python's `set` as a list without repetition. The order of such a list stands for the order of
-- iteration, which Python leaves open.
use data_lineup.Base.{
  ◌≤◌, ◌+◌, Bool, true, false, List, [], ◌∷◌, ◌++◌, Eq, ◌==◌, ==_iff, if◌then◌else◌, ◌||◌, ◌&&◌,
  keep, ◌≡◌, refl, arith, length,
}

module _ {ℓ} {A : Type ℓ} ⦃e : Eq A⦄ where
  -- a in xs
  abbrev pub elem : A → List A → Bool
  elem a [] = false
  elem a (x ∷ xs) = if x == a then true else elem a xs

  -- s.add(a)
  abbrev pub add : A → List A → List A
  add a xs = if elem a xs then xs else a ∷ xs

  -- s.discard(a)
  abbrev pub discard : A → List A → List A
  discard a [] = []
  discard a (x ∷ xs) = let rest = discard a xs in if x == a then rest else x ∷ rest

  -- s | t, and set(t) as `union [] t`
  abbrev pub union : List A → List A → List A
  union s [] = s
  union s (x ∷ t) = add x (union s t)

  pub elem-discard :
      (a b : A) (xs : List A) → elem b (discard a xs) ≡ (if a == b then false else elem b xs)
  elem-discard a b [] = ground arith
  elem-discard a b (x ∷ xs) =
      ground (arith, ==_iff a b, ==_iff x a, ==_iff x b, elem-discard a b xs)

  pub elem-add : (a b : A) (xs : List A) → elem b (add a xs) ≡ (if a == b then true else elem b xs)
  elem-add a b xs = ground (arith, ==_iff a b)

  pub elem-union : (b : A) (s t : List A) → elem b (union s t) ≡ (elem b t || elem b s)
  elem-union b s [] = refl
  elem-union b s (x ∷ t) = ground (arith, elem-add x b (union s t), elem-union b s t)

  pub elem-append : (b : A) (s t : List A) → elem b (s ++ t) ≡ (elem b s || elem b t)
  elem-append b [] t = refl
  elem-append b (x ∷ s) t = ground (arith, elem-append b s t)

  pub length-union-le : (s t : List A) → length (union s t) ≤ length s + length t
  length-union-le s [] = omega arith
  length-union-le s (x ∷ t) = ground (arith, length-union-le s t)

  pub elem-keep : (a : A) (p : A → Bool) (xs : List A) → elem a (keep p xs) ≡ (p a && elem a xs)
  elem-keep a p [] = ground arith
  elem-keep a p (x ∷ xs) = ground (arith, ==_iff x a, elem-keep a p xs)
