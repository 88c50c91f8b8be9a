-- ===== src/Lru/Window.antt =====
-- The end of a dictionary in insertion order: what its last entries are after a key is moved there.
use native.Mathlib.Decide.{dec_le}
use native.Mathlib.Nat.{zero-add, suc-add}
use mathlib.Core.List.{append-nil, append_assoc}
use data_lineup.Base.{
  ℕ, zero, suc, ◌+◌, ◌-◌, ◌≤◌, ◌<◌, true, false, some, [], ◌∷◌, ◌++◌, ltb, length, drop, Eq,
  if◌then◌else◌, ◌==◌, ==_iff, ==_self, ◌≡◌, refl, sym, ap, ◌∙◌, arith, length-append, Bool-cases,
  inl, inr, ◌⊎◌,
}
use data_lineup.Dict.{
  Dict, lookup, has_key, insert, remove, Distinct, has_key-lookup, lookup-remove, remove-Distinct,
}
use data_lineup.Lru.{eject}

module _ {ℓ} {K V : Type ℓ} where
  -- The last `n` entries.
  abbrev pub last : ℕ → Dict K V → Dict K V
  last n d = drop (length d - n) d

  pub drop-append : (m : ℕ) (xs ys : Dict K V) → drop (length xs + m) (xs ++ ys) ≡ drop m ys
  drop-append m [] ys = rw zero-add
  drop-append m (x ∷ xs) ys = rw suc-add (drop-append m xs ys)

  pub last-append : (n : ℕ) (xs ys : Dict K V) → n ≤ length ys → last n (xs ++ ys) ≡ last n ys
  last-append n xs ys h =
      let e : length (xs ++ ys) - n ≡ length xs + (length ys - n) =
        omega (arith, length-append xs ys) in
      rw e (drop-append (length ys - n) xs ys)

  pub eject-last : (n : ℕ) (d : Dict K V) → eject n d ≡ last n d
  eject-last n [] = ground arith
  eject-last n (e ∷ d) = elim (Bool-cases (ltb n (suc (length d)))) [
    | inl h ↦
        let m : suc (length d) - n ≡ suc (length d - n) = ground arith in rw (h, m) (eject-last n d)
    | inr h ↦ let m : suc (length d) - n ≡ 0 = ground arith in rw (h, m)
  ]

module _ {ℓ} {K V : Type ℓ} ⦃eq : Eq K⦄ where
  pub remove-insert : (k : K) (v : V) (d : Dict K V) → remove k (insert k v d) ≡ remove k d
  remove-insert k v [] = ground (arith, ==_self k)
  remove-insert k v ((j, w) ∷ d) = ground (arith, remove-insert k v d)

  pub remove-append :
      (k : K) (p q : Dict K V)
      → remove k (p ++ q) ≡ (if has_key k p then remove k p ++ q else p ++ remove k q)
  remove-append k [] q = refl
  remove-append k ((j, w) ∷ p) q = ground (arith, remove-append k p q)

  pub length-remove-le : (k : K) (d : Dict K V) → length d ≤ length (remove k d) + 1
  length-remove-le k [] = omega arith
  length-remove-le k ((j, w) ∷ d) = elim (Bool-cases (j == k)) [
    | inl e ↦ rw e (omega arith)
    | inr e ↦ rw e (omega (arith, length-remove-le k d))
  ]

  pub remove_absent : (k : K) (d : Dict K V) → has_key k d ≡ false → remove k d ≡ d
  remove_absent k [] h = refl
  remove_absent k ((j, w) ∷ d) h = ground (arith, remove_absent k d)

  pub has_key-append :
      (k : K) (p q : Dict K V) → has_key k (p ++ q) ≡ (if has_key k p then true else has_key k q)
  has_key-append k [] q = refl
  has_key-append k ((j, w) ∷ p) q = ground (arith, has_key-append k p q)

  pub Distinct-append :
      (k : K) (p q : Dict K V) → Distinct (p ++ q) → has_key k p ≡ true → has_key k q ≡ false
  Distinct-append k [] q d h = cc
  Distinct-append k ((j, w) ∷ p) q d h = elim (Bool-cases (j == k)) [
    | inl e ↦
        let same : j ≡ k = (==_iff j k).0 e in
        ground (arith, rw same at (d.0), has_key-append k p q)
    | inr e ↦ Distinct-append k p q d.1 (ground arith)
  ]

  -- The history: every entry ever set, the most recently used one at the end.
  abbrev pub remember : K → V → Dict K V → Dict K V
  remember k v h = remove k h ++ (k, v) ∷ []

  pub remember-last :
      (n : ℕ) (k : K) (v : V) (p q : Dict K V)
      → Distinct (p ++ q)
      → (p ≡ []) ⊎ (length q ≡ n)
      → last n (remember k v q) ≡ last n (remember k v (p ++ q))
  remember-last n k v p q d (inl e) = rw e
  remember-last n k v p q d (inr e) = elim (Bool-cases (has_key k p)) [
    | inl h ↦
        rw
          (
            remove-append k p q,
            h,
            remove_absent k q (Distinct-append k p q d h),
            append_assoc (remove k p) q ((k, v) ∷ []),
          )
          (sym (
            last-append n (remove k p) (q ++ (k, v) ∷ [])
              (omega (arith, length-append q ((k, v) ∷ [])))))
    | inr h ↦
        rw (remove-append k p q, h, append_assoc p (remove k q) ((k, v) ∷ []))
          (sym (
            last-append n p (remember k v q)
              (omega (arith, length-append (remove k q) ((k, v) ∷ []), length-remove-le k q))))
  ]

  pub split_drop : (m : ℕ) (d : Dict K V) → (p : Dict K V) × (d ≡ p ++ drop m d) × (length p ≤ m)
  split_drop zero d = ([], refl, omega arith)
  split_drop (suc m) [] = ([], refl, omega arith)
  split_drop (suc m) (x ∷ d) = let (p, e, l) = split_drop m d in (x ∷ p, ap (◌∷◌ x) e, omega arith)

  pub from_zero : (p : Dict K V) → length p ≤ 0 → p ≡ []
  from_zero [] h = refl
  from_zero (x ∷ p) h = absurd (omega arith)

  pub length-drop : (m : ℕ) (d : Dict K V) → length (drop m d) ≡ length d - m
  length-drop zero d = omega arith
  length-drop (suc m) [] = omega arith
  length-drop (suc m) (x ∷ d) = omega (arith, length-drop m d)

  pub split_last :
      (n : ℕ) (h : Dict K V)
      → (p : Dict K V) × (h ≡ p ++ last n h) × ((p ≡ []) ⊎ (length (last n h) ≡ n))
  split_last n h =
      let (p, e, l) = split_drop (length h - n) h in
      (
        p,
        e,
        elim (dec_le (length h) n) [
          | yes small ↦ inl (from_zero p (omega arith))
          | no large ↦ inr (omega (arith, length-drop (length h - n) h))
        ],
      )

  pub last-remember-last :
      (n : ℕ) (k : K) (v : V) (h : Dict K V)
      → Distinct h
      → last n (remember k v (last n h)) ≡ last n (remember k v h)
  last-remember-last n k v h d =
      let (p, e, side) = split_last n h in
      remember-last n k v p (last n h) (rw e at d) side ∙ ap (λ x. last n (remember k v x)) (sym e)

  pub has_key-remove_self : (k : K) (d : Dict K V) → Distinct d → has_key k (remove k d) ≡ false
  has_key-remove_self k d h =
      ground (arith, has_key-lookup k (remove k d), lookup-remove k k d h, ==_self k)

  pub Distinct-snoc :
      (k : K) (v : V) (d : Dict K V)
      → Distinct d
      → has_key k d ≡ false
      → Distinct (d ++ (k, v) ∷ [])
  Distinct-snoc k v [] d h = (refl, tt)
  Distinct-snoc k v ((j, w) ∷ r) d h =
      ground
        (arith, has_key-append j r ((k, v) ∷ []), ==_iff j k, ==_iff k j, Distinct-snoc k v r d.1)

  pub remember-Distinct : (k : K) (v : V) (h : Dict K V) → Distinct h → Distinct (remember k v h)
  remember-Distinct k v h d =
      Distinct-snoc k v (remove k h) (remove-Distinct k h d) (has_key-remove_self k h d)

  pub remember_twice :
      (k : K) (v : V) (h : Dict K V) → Distinct h → remember k v (remember k v h) ≡ remember k v h
  remember_twice k v h d = rw (
    remove-append k (remove k h) ((k, v) ∷ []),
    has_key-remove_self k h d,
    ==_self k,
    append-nil (remove k h),
  )

  pub length-last-le : (n : ℕ) (h : Dict K V) → length (last n h) ≤ n
  length-last-le n h = omega (arith, length-drop (length h - n) h)

  pub length-remove_present :
      (k : K) (d : Dict K V) → has_key k d ≡ true → length (remove k d) + 1 ≡ length d
  length-remove_present k [] h = cc
  length-remove_present k ((j, w) ∷ d) h = elim (Bool-cases (j == k)) [
    | inl e ↦ rw e (omega arith)
    | inr e ↦ rw e (omega (arith, length-remove_present k d (rw e at h)))
  ]

  pub has_key-drop :
      (m : ℕ) (k : K) (d : Dict K V) → has_key k d ≡ false → has_key k (drop m d) ≡ false
  has_key-drop zero k d h = h
  has_key-drop (suc m) k [] h = refl
  has_key-drop (suc m) k (x ∷ d) h = has_key-drop m k d (ground arith)

  pub drop-append_le :
      (m : ℕ) (xs ys : Dict K V) → m ≤ length xs → drop m (xs ++ ys) ≡ drop m xs ++ ys
  drop-append_le zero xs ys h = refl
  drop-append_le (suc m) [] ys h = absurd (omega arith)
  drop-append_le (suc m) (x ∷ xs) ys h = drop-append_le m xs ys (omega arith)

  pub lookup-append_absent :
      (k : K) (p q : Dict K V) → has_key k p ≡ false → lookup k (p ++ q) ≡ lookup k q
  lookup-append_absent k [] q h = refl
  lookup-append_absent k ((j, w) ∷ p) q h = ground (arith, lookup-append_absent k p q)

  pub lookup-last-remember :
      (n : ℕ) (k : K) (v : V) (h : Dict K V)
      → 0 < n
      → Distinct h
      → lookup k (last n (remember k v h)) ≡ some v
  lookup-last-remember n k v h pos d =
      let m = length (remember k v h) - n in
      let le : m ≤ length (remove k h) = omega (arith, length-append (remove k h) ((k, v) ∷ [])) in
      rw (
        drop-append_le m (remove k h) ((k, v) ∷ []) le,
        lookup-append_absent k (drop m (remove k h)) ((k, v) ∷ [])
            (has_key-drop m k (remove k h) (has_key-remove_self k h d)),
        ==_self k,
      )
