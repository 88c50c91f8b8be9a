-- ===== src/Tests/Scheduling.antt =====
-- Three iterators of different priorities, and a dictionary of two entries.
use data_lineup.Base.{
  ℕ, String, true, some, List, [], ◌∷◌, nat_eq, string_eq, ◌≡◌, ◌≢◌, refl, arith, if◌then◌else◌,
}
use data_lineup.Dict.{Dict, lookup, elem}
use data_lineup.Credits.{Credits, add_credits, schedule}
use data_lineup.Credits.Progress.{InBounds, schedule-progress}
use data_lineup.Lru.{LruDefaultDict}
use data_lineup.Lru.Recent.{Tracks}

abbrev credits : Dict ℕ Credits
credits =
    (1, record { priority = 2; credits = 1 })
    ∷ (2, record { priority = 5; credits = 3 })
    ∷ (3, record { priority = 4; credits = 0 })
    ∷ []

credits-InBounds : InBounds credits
credits-InBounds i c e = ground arith

schedule-progress_example :
    (out : List ℕ) × (d' : Dict ℕ Credits) × (m : ℕ) × (schedule credits (1 ∷ 2 ∷ [])
      ≡ some (out, d'))
    × (out ≢ [])
    × ((j : ℕ) → elem j out ≡ true → elem j (1 ∷ 2 ∷ []) ≡ true)
    × ((j : ℕ) (c : Credits)
        → lookup j credits ≡ some c
        → lookup j d' ≡ some (if elem j out then record c { credits = 0 } else add_credits m c))
    × InBounds d'
schedule-progress_example = schedule-progress credits credits-InBounds 1 (2 ∷ []) (
  (record { priority = 2; credits = 1 }, refl),
  ((record { priority = 5; credits = 3 }, refl), tt),
)

-- The last two of three entries.
abbrev recent : LruDefaultDict String ℕ
recent = record { cache_len = 2; default_factory = some 0; data_items = ("b", 2) ∷ ("c", 3) ∷ [] }

abbrev history : Dict String ℕ
history = ("a", 1) ∷ ("b", 2) ∷ ("c", 3) ∷ []

recent-Tracks : Tracks recent history
recent-Tracks = record {
  positive = omega arith;
  distinct = (refl, (refl, (refl, tt)));
  window = refl;
}
