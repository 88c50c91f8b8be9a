-- ===== src/Tests/Iterating.antt =====
-- Inventories that retry, and static ones.
use data_lineup.Base.{ℕ, String, List, [], ◌∷◌, ltb, if◌then◌else◌}
use data_lineup.Inventory.{Item, make_item, missing}
use data_lineup.Inventory.Iterate.{batch, retry_batch, Source}

abbrev first : Item ℕ
first = make_item 1 "1" missing 10

-- Fails twice, then has one item.
abbrev flaky : Source ℕ
flaky call after = if ltb call 2 then retry_batch 2 else batch (first ∷ [])

-- Fails always.
abbrev failing : Source ℕ
failing call after = retry_batch 2

abbrev letters : List String
letters = "a" ∷ "b" ∷ "c" ∷ []
