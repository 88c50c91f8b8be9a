-- ===== src/Sources.antt =====
-- worker/inventories/loop.py, periodic.py and fanin.py. An item of these is its id, which is its
-- cursor as well. Times are numbers, `croniter` is a function from where it starts to the ticks
-- up to some horizon, and the waits for the next tick are left out.
pub mod Looping
pub mod Ticking
pub mod Merged
use data_lineup.Base.{
  ℕ, zero, suc, ◌+◌, String, Bool, true, false, Option, none, some, List, [], ◌∷◌, ◌++◌, map,
  nat_eq, string_eq, ◌==◌, eqb, ltb, leb, if◌then◌else◌,
}
use data_lineup.Dict.{Dict, lookup, insert}
use data_lineup.Inventory.{truthy}
use data_lineup.Inventory.Iterate.{Decimal}
use data_lineup.Composite.{Cursors, get_cursor}

-- `open_range`: is there an end, and has the counter reached it?
abbrev pub is_past : Option ℕ → ℕ → Bool
is_past none n = false
is_past (some to) n = leb to n

-- `LoopInventory.iterate` from `begin` on, one unit of fuel for each round, with whether it ended.
-- `is_running` is the value of that field when the lock is taken for a round, which is after the
-- item of the round before has ended.
unfoldable pub iterate_from : (is_running : ℕ → Bool) → Option ℕ → (fuel n : ℕ) → List ℕ × Bool
iterate_from is_running max_iterations zero n = ([], false)
iterate_from is_running max_iterations (suc fuel) n =
    let (rest, ended) = iterate_from is_running max_iterations fuel (n + 1) in
    if is_past max_iterations n
    then ([], true)
    else if is_running n
    then (n ∷ rest, ended)
    else ([], true)

-- `int(after) if after else 0`; `none` is a `ValueError`.
abbrev pub loop_begin : Decimal → Option String → Option ℕ
loop_begin decimal after = elim (truthy after) [ none ↦ some 0 | some c ↦ decimal.int c ]

unfoldable pub iterate_loop :
    Decimal
    → (is_running : ℕ → Bool) → Option ℕ
    → (fuel : ℕ) → Option String
    → Option (List ℕ × Bool)
unfolding iterate_from
iterate_loop decimal is_running max_iterations fuel after = elim (loop_begin decimal after) [
  | none ↦ none
  | some begin ↦ some (iterate_from is_running max_iterations fuel begin)
]

-- The loop over the ticks.
abbrev pub iterate_ticks : (after_date end_date : Option ℕ) → List ℕ → List ℕ
iterate_ticks after_date end_date [] = []
iterate_ticks after_date end_date (tick ∷ ticks) =
    let rest = iterate_ticks after_date end_date ticks in
    let is_after : Bool = elim after_date [ none ↦ false | some t ↦ tick == t ] in
    let is_over : Bool = elim end_date [ none ↦ false | some t ↦ ltb t tick ] in
    if is_after then rest else if is_over then [] else tick ∷ rest

-- `PeriodicInventory.iterate`; `fromisoformat` is a parameter, and `none` is a `ValueError`.
unfoldable pub iterate_periodic :
    (fromisoformat : String → Option ℕ)
    → (croniter : ℕ → List ℕ) → (start_date : ℕ) → (end_date : Option ℕ) → Option String
    → Option (List ℕ)
iterate_periodic fromisoformat croniter start_date end_date none =
    some (iterate_ticks none end_date (croniter start_date))
iterate_periodic fromisoformat croniter start_date end_date (some after) =
    elim (fromisoformat after) [
      | none ↦ none
      | some t ↦ some (iterate_ticks (some t) end_date (croniter t))
    ]

-- An input of a fan-in: its name, what it yields from a cursor on, and the cursor after a number
-- of its items have ended.
pub record Input (A : Type 0) : Type 0 where
  pub name : String
  pub run : Option String → List A
  pub cursor : ℕ → Option String

module _ {A : Type 0} where
  -- `self.inputs`, where a later input of the same name replaces an earlier one.
  abbrev pub build_inputs : List (Input A) → Dict String (Input A) → Dict String (Input A)
  build_inputs [] inputs = inputs
  build_inputs (i ∷ is) inputs = build_inputs is (insert i.name i inputs)

  -- The iterators that `FanIn.iterate` hands to its scheduler.
  unfoldable pub fanin_iterators :
      Cursors → Option String → Dict String (Input A) → Dict String (List A)
  fanin_iterators json after inputs =
      let cursors : Dict String (Option String) = elim (truthy after) [
        | none ↦ []
        | some c ↦ json.loads c
      ] in
      map (λ p. (p.0, p.1.run (get_cursor p.0 cursors))) inputs

  -- The dictionary of `FanIn.cursor`, where so many items of each input have ended.
  abbrev pub cursors_of : (String → ℕ) → Dict String (Input A) → Dict String (Option String)
  cursors_of ended [] = []
  cursors_of ended ((name, i) ∷ inputs) =
      let rest = cursors_of ended inputs in
      elim (i.cursor (ended name)) [ none ↦ rest | some c ↦ (name, some c) ∷ rest ]

  unfoldable pub fanin_cursor : Cursors → (String → ℕ) → Dict String (Input A) → String
  fanin_cursor json ended inputs = json.dumps (cursors_of ended inputs)
