-- ===== src/Inventory/Iterate.antt =====
-- worker/inventory.py: `Inventory.iterate` with its retries, and inventories/static.py.
-- `next_batch` is called through a number, so that an inventory may answer each call differently;
-- the loop runs on fuel, one unit for a call. A retry's delay only waits, and is not modelled.
mod Steps
pub mod Retries
pub mod Static
use data_lineup.Base.{
  ℕ, zero, suc, ◌+◌, ◌%◌, String, Bool, true, false, ◌&&◌, Option, none, some, List, [], ◌∷◌, ◌++◌,
  leb, if◌then◌else◌, length, drop, is_some,
}
use data_lineup.Inventory.{Item, truthy, make_item, missing}

-- `next_batch` returns a batch, raises `RetryBatch` with its `max_retries`, or raises anything else.
pub data Reply (Args : Type 0) : Type 0 where
  batch : List (Item Args) → Reply Args
  retry_batch : ℕ → Reply Args
  other_error : Reply Args

abbrev pub Source : Type 0 → Type 0
Source Args = ℕ → Option String → Reply Args

-- `check_max_retries` raises.
abbrev pub is_exhausted : (max_retries retries_count : ℕ) → Bool
is_exhausted max_retries retries_count = leb max_retries retries_count

-- What a run of the generator yielded, and how it ended.
pub data Outcome (Args : Type 0) : Type 0 where
  returned : List (Item Args) → Outcome Args
  max_retries_error : List (Item Args) → Outcome Args
  raised : List (Item Args) → Outcome Args
  out_of_fuel : List (Item Args) → Outcome Args

module _ {Args : Type 0} where
  -- `item.cursor` after the loop over a batch that begins with `i`.
  abbrev pub next_after : Item Args → List (Item Args) → Option String
  next_after i [] = i.cursor
  next_after i (j ∷ js) = next_after j js

  unfoldable pub iterate_from :
      Source Args → (fuel call retries_count : ℕ) → Option String → List (Item Args) → Outcome Args
  iterate_from next_batch zero call retries after out = out_of_fuel out
  iterate_from next_batch (suc f) call retries after out = elim (next_batch call after) [
    | retry_batch m ↦ elim (is_exhausted m retries) [
      | true ↦ max_retries_error out
      | false ↦ iterate_from next_batch f (call + 1) (retries + 1) after out
    ]
    | other_error ↦ raised out
    | batch [] ↦ returned out
    | batch (i ∷ is) ↦ iterate_from next_batch f (call + 1) 0 (next_after i is) (out ++ i ∷ is)
  ]

  unfoldable pub iterate : Source Args → ℕ → Option String → Outcome Args
  iterate next_batch fuel after = iterate_from next_batch fuel 0 0 after []

-- Python's `str` and `int` on numbers; `int` raises on other texts.
pub record Decimal : Type 0 where
  pub str : ℕ → String
  pub int : String → Option ℕ

module _ (decimal : Decimal) where
  -- `none` where `int` raises `ValueError`, or where `%` divides by zero.
  unfoldable pub static_begin : (repeat : Bool) → ℕ → Option String → Option ℕ
  static_begin repeat size none = some 0
  static_begin repeat size (some after) = elim (decimal.int after) [
    | none ↦ none
    | some n ↦
        if repeat && is_some (truthy (some after))
        then (elim size [ zero ↦ none | suc m ↦ some ((n + 1) % suc m) ])
        else some (n + 1)
  ]

module _ (decimal : Decimal) {Args : Type 0} where
  -- `Item(id=MessageId(str(i)), args=args)`: its cursor is its id.
  abbrev pub numbered : ℕ → Args → Item Args
  numbered n args = make_item n (decimal.str n) missing args

  -- `enumerate(self.items[begin:], start=begin)`, each with its number as id and cursor.
  abbrev pub number_from : ℕ → List Args → List (Item Args)
  number_from n [] = []
  number_from n (args ∷ rest) = numbered n args ∷ number_from (n + 1) rest

  unfoldable pub static_next_batch :
      (items : List Args) (repeat : Bool) → Option String → Option (List (Item Args))
  unfolding static_begin
  static_next_batch items repeat after = elim (static_begin decimal repeat (length items) after) [
    | none ↦ none
    | some begin ↦ some (number_from begin (drop begin items))
  ]

  -- As a source.
  abbrev pub static_source : (items : List Args) (repeat : Bool) → Source Args
  static_source items repeat _ after = elim (static_next_batch items repeat after) [
    | none ↦ other_error
    | some is ↦ batch is
  ]
