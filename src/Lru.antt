-- ===== src/Lru.antt =====
-- utils/lru.py: `LRUDefaultDict`, a dictionary of bounded length that ejects its oldest entries.
-- The default factory is a value or absent; a factory that keeps state of its own is not modelled.
pub mod Window
pub mod Recent
use data_lineup.Base.{
  ℕ, ◌≤◌, Bool, true, false, Option, none, some, List, [], ◌∷◌, ◌++◌, leb, ltb, length, Eq,
  if◌then◌else◌,
}
use data_lineup.Dict.{Dict, lookup, insert, remove}

pub record LruDefaultDict {ℓ} (K V : Type ℓ) : Type ℓ where
  pub cache_len : ℕ
  pub default_factory : Option V
  pub data_items : Dict K V

-- `none` is a raised `ValueError`, or a `KeyError`.
unfoldable pub init {ℓ} : {K V : Type ℓ} → ℕ → Option V → Option (LruDefaultDict K V)
init cache_len default_factory =
    if leb cache_len 0
    then none
    else some (record { cache_len = cache_len; default_factory = default_factory; data_items = [] })

module _ {ℓ} {K V : Type ℓ} where
  -- `while len(self) > self.cache_len:` delete the first key.
  abbrev pub eject : ℕ → Dict K V → Dict K V
  eject n [] = []
  eject n (e ∷ d) = let rest = eject n d in if ltb n (length (e ∷ d)) then rest else e ∷ d

module _ {ℓ} {K V : Type ℓ} ⦃e : Eq K⦄ where
  -- `OrderedDict.move_to_end`, of a key that is present with this value.
  abbrev pub move_to_end : K → V → Dict K V → Dict K V
  move_to_end k v d = remove k d ++ (k, v) ∷ []

  unfoldable pub set_item : K → V → LruDefaultDict K V → LruDefaultDict K V
  set_item k v s = record s {
    data_items = eject s.cache_len (move_to_end k v (insert k v s.data_items));
  }

  -- The last `move_to_end` of `__getitem__`.
  abbrev pub touch_item : K → V → LruDefaultDict K V → LruDefaultDict K V
  touch_item k v s = record s { data_items = move_to_end k v s.data_items }

  unfoldable pub get_item : K → LruDefaultDict K V → Option (V × LruDefaultDict K V)
  unfolding set_item
  get_item k s = elim (lookup k s.data_items) [
    | some v ↦ some (v, touch_item k v s)
    | none ↦ elim s.default_factory [
      | none ↦ none
      | some v ↦ some (v, touch_item k v (set_item k v s))
    ]
  ]
