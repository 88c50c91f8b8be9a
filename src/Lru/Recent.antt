-- ===== src/Lru/Recent.antt =====
-- `LRUDefaultDict` holds the most recently used entries of an unbounded history.
use data_lineup.Base.{
  ℕ, ◌-◌, ◌≤◌, ◌<◌, Option, none, some, [], ◌∷◌, ◌++◌, length, Eq, ◌≡◌, refl, sym, ap, ◌∙◌, arith,
  length-append, Option-cases, inl, inr, or_else,
}
use data_lineup.Dict.{Dict, lookup, insert, remove, Distinct, has_key-lookup}
use data_lineup.Lru.{LruDefaultDict, init, move_to_end, set_item, touch_item, get_item}
use data_lineup.Lru.Window.{
  last, eject-last, remove-insert, remember, last-remember-last, remember-Distinct, remember_twice,
  length-last-le, length-remove_present, lookup-last-remember,
}

module _ {ℓ} {K V : Type ℓ} ⦃eq : Eq K⦄ where
  -- The dictionary is the last `cache_len` entries of a history without repeated keys.
  pub record Tracks (s : LruDefaultDict K V) (h : Dict K V) : Type ℓ where
    pub positive : 0 < s.cache_len
    pub distinct : Distinct h
    pub window : s.data_items ≡ last s.cache_len h

  -- The dictionary never holds more than `cache_len` entries. Given that it tracks a history.
  pub Tracks-bounded :
      (s : LruDefaultDict K V) (h : Dict K V) → Tracks s h → length s.data_items ≤ s.cache_len
  Tracks-bounded s h t = rw t.window (length-last-le s.cache_len h)

  -- Setting an entry makes it the most recent one of the history, and whatever the length, the
  -- dictionary again holds the most recent entries; what is ejected is always the least recently
  -- used. Given that it tracked the history before.
  pub set_item-Tracks :
      (k : K) (v : V) (s : LruDefaultDict K V) (h : Dict K V)
      → Tracks s h
      → Tracks (set_item k v s) (remember k v h)
  unfolding set_item
  set_item-Tracks k v s h t = record {
    positive = t.positive;
    distinct = remember-Distinct k v h t.distinct;
    window =
        eject-last s.cache_len (move_to_end k v (insert k v s.data_items))
        ∙ ap (λ x. last s.cache_len (x ++ (k, v) ∷ [])) (remove-insert k v s.data_items)
        ∙ ap (λ x. last s.cache_len (remember k v x)) t.window
        ∙ last-remember-last s.cache_len k v h t.distinct;
  }

  touch_item-Tracks :
      (k : K) (v : V) (s : LruDefaultDict K V) (h : Dict K V)
      → Tracks s h
      → lookup k s.data_items ≡ some v
      → Tracks (touch_item k v s) (remember k v h)
  touch_item-Tracks k v s h t e = record {
    positive = t.positive;
    distinct = remember-Distinct k v h t.distinct;
    window =
        let n = s.cache_len in
        let d = remember k v s.data_items in
        let l : length d - n ≡ 0 = omega (
          arith,
          length-append (remove k s.data_items) ((k, v) ∷ []),
          length-remove_present k s.data_items (ground (arith, has_key-lookup k s.data_items)),
          Tracks-bounded s h t,
        ) in
        let whole : last n d ≡ d = rw l in
        sym whole
        ∙ ap (λ x. last n (remember k v x)) t.window
        ∙ last-remember-last n k v h t.distinct;
  }

  get_item_miss :
      (k : K) (v : V) (s : LruDefaultDict K V) (h : Dict K V)
      → Tracks s h
      → Tracks (touch_item k v (set_item k v s)) (remember k v h)
  get_item_miss k v s h t =
      let t' = set_item-Tracks k v s h t in
      let present : lookup k (set_item k v s).data_items ≡ some v =
        ap (lookup k) t'.window
        ∙ rw (cache_len-set_item k v s)
            (lookup-last-remember s.cache_len k v h t.positive t.distinct) in
      rw (remember_twice k v h t.distinct) at
        (touch_item-Tracks k v (set_item k v s) (remember k v h) t' present)
    where
      cache_len-set_item :
          (k : K) (v : V) (s : LruDefaultDict K V) → (set_item k v s).cache_len ≡ s.cache_len
      cache_len-set_item k v s = unfold set_item in refl

  -- Reading the key gives this value, and leaves a dictionary that tracks the history with the key
  -- moved to its end; or, with no value, it raises `KeyError`.
  abbrev pub Reads : K → LruDefaultDict K V → Dict K V → Option V → Type ℓ
  Reads k s h none = get_item k s ≡ none
  Reads k s h (some v) =
      (s' : LruDefaultDict K V) × (get_item k s ≡ some (v, s')) × Tracks s' (remember k v h)

  get_item_absent :
      (k : K) (s : LruDefaultDict K V) (h : Dict K V)
      → Tracks s h
      → or_else (lookup k (last s.cache_len h)) s.default_factory ≡ none
      → get_item k s ≡ none
  unfolding get_item
  get_item_absent k s h t e = ground (arith, t.window)

  get_item_found :
      (k : K) (v : V) (s : LruDefaultDict K V) (h : Dict K V)
      → Tracks s h
      → or_else (lookup k (last s.cache_len h)) s.default_factory ≡ some v
      → (s' : LruDefaultDict K V) × (get_item k s ≡ some (v, s')) × Tracks s' (remember k v h)
  unfolding get_item
  get_item_found k v s h t e = elim (Option-cases (lookup k s.data_items)) [
    | inl miss ↦
        (touch_item k v (set_item k v s), ground (arith, t.window, miss), get_item_miss k v s h t)
    | inr (w, hit) ↦
        let same : w ≡ v = ground (arith, t.window, hit) in
        (touch_item k v s, ground (arith, hit, same), touch_item-Tracks k v s h t (rw same at hit))
  ]

  -- Reading a key returns what the most recent entries hold for it, or else the default, and makes
  -- the entry with that value the most recent one of the history; with neither, `KeyError`. Given
  -- that the dictionary tracks a history.
  pub get_item-Tracks :
      (k : K) (s : LruDefaultDict K V) (h : Dict K V)
      → Tracks s h
      → Reads k s h (or_else (lookup k (last s.cache_len h)) s.default_factory)
  get_item-Tracks k s h t =
      elim (Option-cases (or_else (lookup k (last s.cache_len h)) s.default_factory)) [
        | inl e ↦ rw e (get_item_absent k s h t e)
        | inr (v, e) ↦ rw e (get_item_found k v s h t e)
      ]

-- The constructor gives an empty dictionary that tracks the empty history, and refuses a length
-- of 0.
pub init-Tracks {ℓ} :
    {K V : Type ℓ} ⦃eq : Eq K⦄ (cache_len : ℕ) (default_factory : Option V)
    → (cache_len ≡ 0 → init {K = K} cache_len default_factory ≡ none)
      × (0 < cache_len
          → (s : LruDefaultDict K V) × (init cache_len default_factory ≡ some s) × Tracks s [])
unfolding init
init-Tracks {K} cache_len default_factory = (
  λ e. ground arith,
  λ pos. (
    record { cache_len = cache_len; default_factory = default_factory; data_items = [] },
    ground arith,
    record { positive = pos; distinct = tt; window = eject-last cache_len [] },
  ),
)
