-- ===== src/Composite.antt =====
-- worker/inventories/chained.py, batching.py and multi.py: inventories made of other inventories.
-- What the `run` of a part yields from a cursor on is a function; the inventories of a run that is
-- restarted are the same ones.
pub mod Resumed
pub mod Batched
pub mod Joined
use data_lineup.Base.{
  ℕ, zero, suc, ◌+◌, String, Bool, true, false, not, ◌&&◌, Option, none, some, List, [], ◌∷◌, ◌++◌,
  map, string_eq, eqb, if◌then◌else◌, or_else, take, drop, length,
}
use data_lineup.Dict.{Dict, lookup, has_key, insert, remove}
use data_lineup.Inventory.{Item, truthy}

-- A name, and what is yielded from a cursor on.
pub record Part (A : Type 0) : Type 0 where
  pub name : String
  pub run : Option String → List A

-- `json.loads` and `json.dumps` on cursors by name.
pub record Cursors : Type 0 where
  pub loads : String → Dict String (Option String)
  pub dumps : Dict String (Option String) → String

-- `cursors.get(name, None)`
abbrev pub get_cursor : String → Dict String (Option String) → Option String
get_cursor name cursors = elim (lookup name cursors) [ none ↦ none | some c ↦ c ]

module _ {A : Type 0} where
  -- The loop over `enumerate(self.inventories)` up to its `break`.
  abbrev pub first_named : Dict String (Option String) → List (Part A) → Option (List (Part A))
  first_named cursors [] = none
  first_named cursors (p ∷ ps) =
      if has_key p.name cursors then some (p ∷ ps) else first_named cursors ps

  -- `self.inventories[start_inventory:]`
  abbrev pub start_inventories : Dict String (Option String) → List (Part A) → List (Part A)
  start_inventories cursors ps = elim (first_named cursors ps) [ none ↦ ps | some later ↦ later ]

  -- An item goes with the name that `MultiItems.from_one` gives it.
  abbrev pub run_parts : Dict String (Option String) → List (Part A) → List (String × A)
  run_parts cursors [] = []
  run_parts cursors (p ∷ ps) =
      map (λ i. (p.name, i)) (p.run (get_cursor p.name cursors)) ++ run_parts cursors ps

  -- `ChainedInventory.iterate`
  unfoldable pub iterate_chained : Cursors → Option String → List (Part A) → List (String × A)
  iterate_chained json after ps =
      let cursors : Dict String (Option String) = elim (truthy after) [
        | none ↦ []
        | some c ↦ json.loads c
      ] in
      run_parts cursors (start_inventories cursors ps)

-- `ChainedInventory.cursor`, of the current inventory's name and cursor.
unfoldable pub chained_cursor : Cursors → Option (String × Option String) → Option String
chained_cursor json current = elim current [ none ↦ none | some c ↦ some (json.dumps (c ∷ [])) ]

module _ {A : Type 0} where
  -- The loop of `BatchingInventory.iterate`: `islice` takes the next batch of the running iterator.
  -- `none` where the fuel, one unit for each batch, is used up.
  unfoldable pub iterate_batches : (fuel batch_size : ℕ) → List A → Option (List (List A))
  iterate_batches zero batch_size items = none
  iterate_batches (suc fuel) batch_size items =
      let rest = iterate_batches fuel batch_size (drop batch_size items) in
      elim (take batch_size items) [
        | [] ↦ some []
        | i ∷ is ↦ elim rest [ none ↦ none | some batches ↦ some ((i ∷ is) ∷ batches) ]
      ]

-- `IteratorInventory.__init__`: `batch_size or 10`
abbrev pub batch_size_of : Option ℕ → ℕ
batch_size_of none = 10
batch_size_of (some n) = if eqb n 0 then 10 else n

-- `batch[-1]`, and the item of a batch: the last one, with the `args` of all.
module _ {Args : Type 0} where
  abbrev pub last_item : Item Args → List (Item Args) → Item Args
  last_item i [] = i
  last_item i (j ∷ js) = last_item j js

  abbrev pub batch_item : List (Item Args) → Option (Item (List Args))
  batch_item [] = none
  batch_item (i ∷ is) =
      let last = last_item i is in
      some (record {
        handle = last.handle;
        id = last.id;
        cursor = last.cursor;
        args = map (λ j. j.args) (i ∷ is);
      })

-- `MultiCursorsState`
pub record MultiCursorsState : Type 0 where
  pub root_after : Option String
  pub partials : Dict String String

-- The dictionary that is stored, without its constant `"v": 1`.
pub record MultiDict : Type 0 where
  pub a : Option String
  pub p : Option (Dict String String)

-- `as_dict` and `from_dict`
unfoldable pub multi_as_dict : MultiCursorsState → MultiDict
multi_as_dict s = record {
  a = s.root_after;
  p = elim s.partials [ [] ↦ none | q ∷ qs ↦ some (q ∷ qs) ];
}

unfoldable pub multi_from_dict : MultiDict → MultiCursorsState
multi_from_dict d = record { root_after = d.a; partials = elim d.p [ none ↦ [] | some ps ↦ ps ] }

-- The `finally` of `RootCursors.process`, with the root inventory's cursor.
unfoldable pub process_root :
    (item_cursor root_cursor : Option String) → MultiCursorsState → MultiCursorsState
process_root item_cursor root_cursor s = record {
  root_after = root_cursor;
  partials = elim item_cursor [ none ↦ s.partials | some c ↦ remove c s.partials ];
}

-- The `finally` of `SubCursors.process`, with the sub-inventory's cursor.
unfoldable pub process_sub :
    (parent_cursor sub_cursor : Option String) → MultiCursorsState → MultiCursorsState
process_sub parent_cursor sub_cursor s = elim parent_cursor [
  | none ↦ s
  | some p ↦ elim sub_cursor [ none ↦ s | some c ↦ record s { partials = insert p c s.partials } ]
]

-- `SubCursors.cursor`
abbrev pub sub_cursor_of : (parent_cursor : Option String) → MultiCursorsState → Option String
sub_cursor_of none s = none
sub_cursor_of (some c) s = lookup c s.partials
