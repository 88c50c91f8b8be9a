-- ===== src/Inventory/Iterate/Retries.antt =====
-- Retries in `Inventory.iterate`: how many are made, and that they leave no trace.
use data_lineup.Base.{ℕ, zero, suc, ◌+◌, ◌≤◌, String, Option, List, ◌∷◌, ◌++◌, ◌≡◌, arith}
use data_lineup.Inventory.{Item}
use data_lineup.Inventory.Iterate.{
  batch, retry_batch, Source, max_retries_error, iterate_from, next_after,
}

module _ {Args : Type 0} (source : Source Args) (after : Option String) (m : ℕ) where
  -- The calls from `call` on, `k` of them, raise `RetryBatch(max_retries=m)`.
  abbrev pub Retrying : (call k : ℕ) → Type 0
  Retrying call zero = Unit
  Retrying call (suc k) = (source call after ≡ retry_batch m) × Retrying (call + 1) k

  skip_retries :
      (k f call retries : ℕ) (out : List (Item Args))
      → Retrying call k
      → retries + k ≤ m
      → iterate_from source (k + f) call retries after out
        ≡ iterate_from source f (call + k) (retries + k) after out
  unfolding iterate_from
  skip_retries zero f call retries out h le = ground arith
  skip_retries (suc k) f call retries out h le =
      let e : suc k + f ≡ suc (k + f) = omega arith in
      rw e (ground (arith, skip_retries k f (call + 1) (retries + 1) out))

  -- A non-empty batch that follows at most `m` retries is treated as if there had been none: the same
  -- items, the same cursor for the next call, and the count starts again.
  pub iterate-retries :
      (k f call : ℕ) (out : List (Item Args)) (i : Item Args) (is : List (Item Args))
      → k ≤ m
      → Retrying call k
      → source (call + k) after ≡ batch (i ∷ is)
      → iterate_from source (k + suc f) call 0 after out
        ≡ iterate_from source f (call + k + 1) 0 (next_after i is) (out ++ i ∷ is)
  unfolding iterate_from
  iterate-retries k f call out i is le h e = ground (arith, skip_retries k (suc f) call 0 out h)

  -- With fuel for `m + 1` calls or more, one retry more than `m` raises `MaxRetriesError`, with what had
  -- been yielded before.
  pub iterate-exhausted :
      (f call : ℕ) (out : List (Item Args))
      → Retrying call m
      → source (call + m) after ≡ retry_batch m
      → iterate_from source (m + suc f) call 0 after out ≡ max_retries_error out
  unfolding iterate_from
  iterate-exhausted f call out h e = ground (arith, skip_retries m (suc f) call 0 out h)
