-- ===== src/Dict/Defs.antt =====
-- Python's `dict`: an association list in insertion order, over keys with a Boolean equality.
use data_lineup.Base.{
  Bool, true, false, Option, none, some, List, [], ◌∷◌, map, Eq, ◌==◌, if◌then◌else◌, ◌≡◌,
}

abbrev pub Dict {ℓ} : Type ℓ → Type ℓ → Type ℓ
Dict K V = List (K × V)

module _ {ℓ} {K V : Type ℓ} ⦃e : Eq K⦄ where
  -- d.get(k)
  abbrev pub lookup : K → Dict K V → Option V
  lookup k [] = none
  lookup k ((j, v) ∷ m) = if j == k then some v else lookup k m

  -- k in d
  abbrev pub has_key : K → Dict K V → Bool
  has_key k [] = false
  has_key k ((j, v) ∷ m) = if j == k then true else has_key k m

  -- d[k] = v: an old key keeps its place, a new one goes to the end.
  abbrev pub insert : K → V → Dict K V → Dict K V
  insert k v [] = (k, v) ∷ []
  insert k v ((j, w) ∷ m) = if j == k then (j, v) ∷ m else (j, w) ∷ insert k v m

  -- d.pop(k, None), del d[k]
  abbrev pub remove : K → Dict K V → Dict K V
  remove k [] = []
  remove k ((j, w) ∷ m) = if j == k then m else (j, w) ∷ remove k m

  -- d.update(new), d | new
  abbrev pub update : Dict K V → Dict K V → Dict K V
  update d [] = d
  update d ((k, v) ∷ new) = update (insert k v d) new

  -- No key stands twice.
  abbrev pub Distinct : Dict K V → Type ℓ
  Distinct [] = Unit
  Distinct ((k, v) ∷ m) = (has_key k m ≡ false) × Distinct m

module _ {ℓ} {K V : Type ℓ} where
  -- d.keys()
  abbrev pub keys : Dict K V → List K
  keys = map (λ p. p.0)

  -- d.values()
  abbrev pub values : Dict K V → List V
  values = map (λ p. p.1)
