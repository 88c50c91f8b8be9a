-- ===== src/ResourcesManager/Atomic.antt =====
-- `acquire_many` takes all of its resources or none.
use data_lineup.Base.{ℕ, String, none, some, List, string_eq, nat_eq, ◌≡◌, refl, inl, inr, ◌⊎◌}
use data_lineup.Dict.{lookup}
use data_lineup.Resources.{ResourceData, Error, Result, ok, raise}
use data_lineup.ResourcesManager.{ResourcesManager, pool, last_reset}

-- A resource without a default delay, of which no limit is used up, is released at once.
abbrev pub IsPrompt : (ResourceData → List (ℕ × ℕ)) → ResourceData → Type 0
IsPrompt stats r = (r.default_delay ≡ 0) × (last_reset (stats r) ≡ none)

pub Result-cases :
    {A : Type 0} (x : Result A) → ((a : A) × (x ≡ ok a)) ⊎ ((e : Error) × (x ≡ raise e))
Result-cases (ok a) = inl (a, refl)
Result-cases (raise e) = inr (e, refl)

module _ (now : ℕ) (stats : ResourceData → List (ℕ × ℕ)) where
  abbrev pub AllPrompt : ResourcesManager → Type 0
  AllPrompt m =
      (t : String) (h : ℕ) (r : ResourceData)
      → lookup h (pool t m).availables ≡ some r
      → IsPrompt stats r
