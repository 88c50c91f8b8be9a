-- ===== src/Credits.antt =====
-- utils/iterators.py: the credits by which `CreditsScheduler` chooses among the ready iterators.
-- An iterator is named by a number. `credits` never passes `priority`, so the subtraction of
-- `cost` is exact.
pub mod Progress
use data_lineup.Base.{
  ℕ, zero, ◌+◌, ◌-◌, Bool, true, false, Option, none, some, List, [], ◌∷◌, leb, eqb, nat_eq, min,
  if◌then◌else◌,
}
use data_lineup.Dict.{Dict, lookup, insert}

pub record Credits : Type 0 where
  pub priority : ℕ
  pub credits : ℕ

abbrev pub cost : Credits → ℕ
cost c = c.priority - c.credits

abbrev pub add_credits : ℕ → Credits → Credits
add_credits n c = record c { credits = min c.priority (c.credits + n) }

abbrev pub schedule_one : Credits → Credits × Bool
schedule_one c = if leb c.priority c.credits then (record c { credits = 0 }, true) else (c, false)

-- `CreditsScheduler.__init__`, from (iterator, priority) pairs.
unfoldable pub init_credits : List (ℕ × ℕ) → Dict ℕ Credits → Dict ℕ Credits
init_credits [] d = d
init_credits ((i, p) ∷ rest) d =
    init_credits rest (insert i (record { priority = p; credits = 0 }) d)

-- `min(self.credits[i].cost for i in ready)`; `none` is its `KeyError` or, on nothing, `ValueError`.
unfoldable pub min_cost : Dict ℕ Credits → List ℕ → Option ℕ
min_cost d [] = none
min_cost d (i ∷ []) = elim (lookup i d) [ none ↦ none | some c ↦ some (cost c) ]
min_cost d (i ∷ j ∷ ready) = elim (lookup i d) [
  | none ↦ none
  | some c ↦ elim (min_cost d (j ∷ ready)) [ none ↦ none | some m ↦ some (min (cost c) m) ]
]

unfoldable pub add_all : ℕ → Dict ℕ Credits → Dict ℕ Credits
add_all n [] = []
add_all n ((i, c) ∷ d) = (i, add_credits n c) ∷ add_all n d

-- The last loop: the iterators yielded, and the credits afterwards.
unfoldable pub yield_ready : Dict ℕ Credits → List ℕ → Option (List ℕ × Dict ℕ Credits)
yield_ready d [] = some ([], d)
yield_ready d (i ∷ ready) = elim (lookup i d) [
  | none ↦ none
  | some c ↦
      let (c', chosen) = schedule_one c in
      elim (yield_ready (insert i c' d) ready) [
        | none ↦ none
        | some (out, d') ↦ some ((if chosen then i ∷ out else out), d')
      ]
]

unfoldable pub schedule : Dict ℕ Credits → List ℕ → Option (List ℕ × Dict ℕ Credits)
unfolding min_cost add_all yield_ready
schedule d ready = elim (min_cost d ready) [
  | none ↦ none
  | some n ↦ yield_ready (if eqb n 0 then d else add_all n d) ready
]
