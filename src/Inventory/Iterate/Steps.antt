-- ===== src/Inventory/Iterate/Steps.antt =====
-- One call of `next_batch` in the loop of `Inventory.iterate`, for any inventory.
use data_lineup.Base.{ℕ, suc, ◌+◌, String, Option, List, [], ◌∷◌, ◌++◌, ◌≡◌, arith}
use data_lineup.Inventory.{Item}
use data_lineup.Inventory.Iterate.{Source, batch, returned, iterate_from, next_after}

module _ {Args : Type 0} (source : Source Args) (f call retries : ℕ) (after : Option String)
    (out : List (Item Args)) where
  pub iterate_from-nil :
      source call after ≡ batch []
      → iterate_from source (suc f) call retries after out ≡ returned out
  unfolding iterate_from
  iterate_from-nil e = ground arith

  pub iterate_from-cons :
      (i : Item Args) (is : List (Item Args))
      → source call after ≡ batch (i ∷ is)
      → iterate_from source (suc f) call retries after out
        ≡ iterate_from source f (call + 1) 0 (next_after i is) (out ++ i ∷ is)
  unfolding iterate_from
  iterate_from-cons i is e = ground arith
