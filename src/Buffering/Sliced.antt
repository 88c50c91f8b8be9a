-- ===== src/Buffering/Sliced.antt =====
-- What is yielded in slices.
use mathlib.Core.List.{append-nil, append_assoc}
use data_lineup.Base.{
  ℕ, true, false, ◌&&◌, ◌||◌, Option, List, [], ◌∷◌, ◌++◌, ◌≡◌, refl, sym, subst, ◌∙◌, ap, arith,
  Bool-cases, inl, inr,
}
use data_lineup.ErrorHandling.{is_nil}
use data_lineup.Buffering.{
  Answer, yields, raises, Buffered, begin_buffered, is_full, next_slice, flush_items, async_flatten,
}

module _ {A : Type 0} where
  -- What an iterator yields until it raises or is at its end.
  abbrev pub yielded : List (Answer A) → List A
  yielded [] = []
  yielded (yields a ∷ later) = a ∷ yielded later
  yielded (raises ∷ later) = []

  -- The states of the task and the loop. While the task is not done the loop goes on only when the
  -- time is over, which may be at any moment.
  pub data Reach (buffer_size : Option ℕ) (iterator : List (Answer A)) : Buffered A → Type 0 where
    begins : Reach buffer_size iterator (begin_buffered iterator)
    slices :
        {s : Buffered A}
        → Reach buffer_size iterator s
        → s.ended ≡ false
        → Reach buffer_size iterator (next_slice buffer_size s)
    flushes :
        {s : Buffered A} → Reach buffer_size iterator s → Reach buffer_size iterator (flush_items s)

  record IsSliced (iterator : List (Answer A)) (s : Buffered A) : Type 0 where
    all : async_flatten s.output ++ (s.items ++ yielded s.iterator) ≡ yielded iterator
    exhausted : s.is_done ≡ true → s.items ≡ [] → yielded s.iterator ≡ []
    over : s.ended ≡ true → (s.items ≡ []) × (yielded s.iterator ≡ [])

  async_flatten-snoc :
      (xss : List (List A)) (xs : List A)
      → async_flatten (xss ++ (xs ∷ [])) ≡ async_flatten xss ++ xs
  async_flatten-snoc [] xs = append-nil xs
  async_flatten-snoc (ys ∷ xss) xs =
      ap (λ t. ys ++ t) (async_flatten-snoc xss xs) ∙ sym (append_assoc ys (async_flatten xss) xs)

  snoc≢nil : (a : A) (xs : List A) → xs ++ (a ∷ []) ≡ [] → ⊥
  snoc≢nil a [] e = absurd (cc e)
  snoc≢nil a (x ∷ xs) e = absurd (cc e)

  next_slice-IsSliced :
      (buffer_size : Option ℕ) (iterator : List (Answer A)) (s : Buffered A)
      → IsSliced iterator s
      → s.ended ≡ false
      → IsSliced iterator (next_slice buffer_size s)
  unfolding next_slice
  next_slice-IsSliced buffer_size iterator s h open_ = elim (Bool-cases s.is_done) [
    | inl e ↦
        let same : next_slice buffer_size s ≡ s = ground (arith, e) in
        subst (IsSliced iterator) (sym same) h
    | inr e ↦ go s.iterator refl e
  ]
    where
      go :
          (it : List (Answer A))
          → s.iterator ≡ it
          → s.is_done ≡ false
          → IsSliced iterator (next_slice buffer_size s)
      go [] f e =
          let same : next_slice buffer_size s ≡ record s { is_done = true } =
            ground (arith, e, f) in
          subst (IsSliced iterator) (sym same)
            (record { all = h.all; exhausted = λ g k. rw f refl; over = h.over })
      go (raises ∷ later) f e =
          let same : next_slice buffer_size s ≡ record s { iterator = []; is_done = true } =
            ground (arith, e, f) in
          subst (IsSliced iterator) (sym same) (record {
            all = rw f at h.all;
            exhausted = λ g k. refl;
            over = λ g. absurd (cc (open_, g));
          })
      go (yields a ∷ later) f e =
          let same : next_slice buffer_size s ≡ record s {
            iterator = later;
            items = s.items ++ (a ∷ []);
            is_done = is_full buffer_size (s.items ++ (a ∷ []));
          } =
            ground (arith, e, f) in
          subst (IsSliced iterator) (sym same) (record {
            all = rw (append_assoc s.items (a ∷ []) (yielded later)) (rw f at h.all);
            exhausted = λ g k. absurd (snoc≢nil a s.items k);
            over = λ g. absurd (cc (open_, g));
          })

  flush_items-IsSliced :
      (iterator : List (Answer A)) (s : Buffered A)
      → IsSliced iterator s
      → IsSliced iterator (flush_items s)
  unfolding flush_items
  flush_items-IsSliced iterator s h = elim (Bool-cases (s.ended || (s.is_done && is_nil s.items))) [
    | inl e ↦
        let same : flush_items s ≡ record s { ended = true } = ground (arith, e) in
        let none_left : s.items ≡ [] = ground (arith, e, h.over) in
        let at_end : yielded s.iterator ≡ [] = ground (arith, e, h.over, h.exhausted) in
        subst (IsSliced iterator) (sym same)
          (record { all = h.all; exhausted = h.exhausted; over = λ g. (none_left, at_end) })
    | inr e ↦
        let open_ : s.ended ≡ false = ground (arith, e) in
        elim (Bool-cases (is_nil s.items)) [
          | inl f ↦
              let none_left : s.items ≡ [] = ground (arith, f) in
              let running : s.is_done ≡ false = ground (arith, e, f) in
              let same : flush_items s ≡ record s { items = []; is_done = false } =
                ground (arith, e, f) in
              subst (IsSliced iterator) (sym same) (record {
                all = rw none_left at h.all;
                exhausted = λ g k. absurd (cc g);
                over = λ g. absurd (cc (open_, g));
              })
          | inr f ↦
              let same : flush_items s
                  ≡ record s { items = []; is_done = false; output = s.output ++ (s.items ∷ []) } =
                ground (arith, e, f) in
              subst (IsSliced iterator) (sym same) (record {
                all =
                    rw (async_flatten-snoc s.output s.items)
                      (append_assoc (async_flatten s.output) s.items (yielded s.iterator) ∙ h.all);
                exhausted = λ g k. absurd (cc g);
                over = λ g. absurd (cc (open_, g));
              })
        ]
  ]

  Reach-IsSliced :
      {buffer_size : Option ℕ} {iterator : List (Answer A)} {s : Buffered A}
      → Reach buffer_size iterator s
      → IsSliced iterator s
  Reach-IsSliced begins = record {
    all = refl;
    exhausted = λ g k. absurd (cc g);
    over = λ g. absurd (cc g);
  }
  Reach-IsSliced {buffer_size} {iterator} (slices {s} r open_) =
      next_slice-IsSliced buffer_size iterator s (Reach-IsSliced r) open_
  Reach-IsSliced {buffer_size} {iterator} (flushes {s} r) =
      flush_items-IsSliced iterator s (Reach-IsSliced r)

  -- At any time the flattened slices, the items that are buffered and what the iterator still yields are what
  -- it yields before it raises or ends, in order. Once the loop has ended the flattened slices are all of it,
  -- after an exception as after an end: the exception goes no further.
  pub Reach-yielded :
      {buffer_size : Option ℕ} {iterator : List (Answer A)} {s : Buffered A}
      → Reach buffer_size iterator s
      → (async_flatten s.output ++ (s.items ++ yielded s.iterator) ≡ yielded iterator)
        × (s.ended ≡ true → async_flatten s.output ≡ yielded iterator)
  Reach-yielded {buffer_size} {iterator} {s} r =
      let h = Reach-IsSliced r in
      (
        h.all,
        λ e.
            let (none_left, at_end) = h.over e in
            let all : async_flatten s.output ++ [] ≡ yielded iterator =
              rw at_end at (rw none_left at h.all) in
            sym (append-nil (async_flatten s.output)) ∙ all,
      )
