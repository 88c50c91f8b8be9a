-- ===== src/Batching/Flushed.antt =====
-- What a flush of a batching topic yields.
use mathlib.Core.List.{append-nil, append_assoc}
use data_lineup.Base.{
  ℕ, zero, suc, ◌≤◌, ◌<◌, true, false, List, [], ◌∷◌, ◌++◌, map, length, take, drop, All,
  All-append, Bool-cases, inl, inr, ◌≡◌, refl, sym, subst, ◌∙◌, ap, arith,
}
use data_lineup.ErrorHandling.{is_nil}
use data_lineup.Batching.{Options, Yielded, message, batch_message, BatchingTopic, flush}

module _ {M : Type 0} where
  -- The messages of what was yielded, in order.
  abbrev pub contents : List (Yielded M) → List M
  contents [] = []
  contents (message m ∷ ys) = m ∷ contents ys
  contents (batch_message ms ∷ ys) = ms ++ contents ys

  -- A batch is not empty and not larger than it may be; without flattening there are only batches.
  abbrev pub Fits : Options → Yielded M → Type 0
  Fits o (message m) = o.flatten ≡ true
  Fits o (batch_message ms) = (0 < length ms) × (length ms ≤ o.batch_size)

  contents-append : (ys zs : List (Yielded M)) → contents (ys ++ zs) ≡ contents ys ++ contents zs
  contents-append [] zs = refl
  contents-append (message m ∷ ys) zs = ap (λ t. m ∷ t) (contents-append ys zs)
  contents-append (batch_message ms ∷ ys) zs =
      ap (λ t. ms ++ t) (contents-append ys zs) ∙ sym (append_assoc ms (contents ys) (contents zs))

  contents-map : (ms : List M) → contents (map message ms) ≡ ms
  contents-map [] = refl
  contents-map (m ∷ ms) = ap (λ t. m ∷ t) (contents-map ms)

  take-all : (n : ℕ) (ms : List M) → length ms ≤ n → take n ms ≡ ms
  take-all zero [] h = refl
  take-all zero (m ∷ ms) h = absurd (omega (arith, h))
  take-all (suc n) [] h = refl
  take-all (suc n) (m ∷ ms) h = ap (λ t. m ∷ t) (take-all n ms (omega (arith, h)))

  drop-all : (n : ℕ) (ms : List M) → length ms ≤ n → drop n ms ≡ []
  drop-all zero [] h = refl
  drop-all zero (m ∷ ms) h = absurd (omega (arith, h))
  drop-all (suc n) [] h = refl
  drop-all (suc n) (m ∷ ms) h = drop-all n ms (omega (arith, h))

  All-message : (o : Options) (ms : List M) → o.flatten ≡ true → All (Fits o) (map message ms)
  All-message o [] e = tt
  All-message o (m ∷ ms) e = (e, All-message o ms e)

  -- A flush yields the whole batch.
  pub record IsFlushed (o : Options) (s s' : BatchingTopic M) : Type 0 where
    pub yielded : contents s'.output ≡ contents s.output ++ s.batch
    pub empty : s'.batch ≡ []
    pub same : s'.queue ≡ s.queue
    pub fits : All (Fits o) s'.output

  flushed_none :
      (o : Options) (now : ℕ) (s : BatchingTopic M)
      → is_nil s.batch ≡ true
      → flush o now s ≡ record s { start_time = now }
  unfolding flush
  flushed_none o now s e = ground (arith, e)

  flushed_all :
      (o : Options) (now : ℕ) (s : BatchingTopic M)
      → is_nil s.batch ≡ false
      → o.flatten ≡ true
      → flush o now s
        ≡ record s { start_time = now; batch = []; output = s.output ++ map message s.batch }
  unfolding flush
  flushed_all o now s e f = ground (arith, e, f)

  flushed_batch :
      (o : Options) (now : ℕ) (s : BatchingTopic M)
      → is_nil s.batch ≡ false
      → o.flatten ≡ false
      → flush o now s ≡ record s {
        start_time = now;
        batch = drop o.batch_size s.batch;
        output = s.output ++ (batch_message (take o.batch_size s.batch) ∷ []);
      }
  unfolding flush
  flushed_batch o now s e f = ground (arith, e, f)

  pub flush-IsFlushed :
      (o : Options) (now : ℕ) (s : BatchingTopic M)
      → All (Fits o) s.output
      → length s.batch ≤ o.batch_size
      → IsFlushed o s (flush o now s)
  unfolding flush
  flush-IsFlushed o now s fits le = elim (Bool-cases (is_nil s.batch)) [
    | inl e ↦
        let none_left : s.batch ≡ [] = ground (arith, e) in
        subst (IsFlushed o s) (sym (flushed_none o now s e)) (record {
          yielded = rw none_left (sym (append-nil (contents s.output)));
          empty = none_left;
          same = refl;
          fits = fits;
        })
    | inr e ↦ elim (Bool-cases o.flatten) [
      | inl f ↦ subst (IsFlushed o s) (sym (flushed_all o now s e f)) (record {
        yielded =
            contents-append s.output (map message s.batch)
            ∙ ap (λ t. contents s.output ++ t) (contents-map s.batch);
        empty = refl;
        same = refl;
        fits = All-append (Fits o) s.output (map message s.batch) fits (All-message o s.batch f);
      })
      | inr f ↦
          let whole = take-all o.batch_size s.batch le in
          subst (IsFlushed o s) (sym (flushed_batch o now s e f)) (record {
            yielded =
                contents-append s.output (batch_message (take o.batch_size s.batch) ∷ [])
                ∙ ap (λ t. contents s.output ++ t) (append-nil (take o.batch_size s.batch) ∙ whole);
            empty = drop-all o.batch_size s.batch le;
            same = refl;
            fits =
                All-append (Fits o) s.output (batch_message (take o.batch_size s.batch) ∷ []) fits
                  ((rw whole (ground (arith, e)), rw whole le), tt);
          })
    ]
  ]
