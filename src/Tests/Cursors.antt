-- ===== src/Tests/Cursors.antt =====
-- Three items of which the second finishes first, and a restart from the cursor stored then.
use data_lineup.Base.{
  ℕ, false, not, ◌||◌, none, some, List, [], ◌∷◌, ◌++◌, nat_eq, string_eq, or_else, ◌≡◌, refl,
}
use data_lineup.Dict.{elem, values}
use data_lineup.Inventory.{
  Item, make_item, missing, CursorsState, begin_item, finish_item, partials_cursors, as_cursor,
  from_cursor,
}
use data_lineup.Inventory.Ledger.{
  Reach, start, begin, finish, In, here, there, finished_prefix, last_cursor,
}
use data_lineup.Inventory.Commit.{commit-finished_prefix}
use data_lineup.Inventory.Saved.{skips_exactly}
use data_lineup.Tests.Codecs.{pairs, pairs-IsLawful}

abbrev item_a : Item ℕ
item_a = make_item 1 "1" missing 10

abbrev item_b : Item ℕ
item_b = make_item 2 "2" missing 20

abbrev item_c : Item ℕ
item_c = make_item 3 "3" missing 30

abbrev three : List (Item ℕ)
three = item_a ∷ item_b ∷ item_c ∷ []

abbrev before_all : CursorsState ℕ
before_all = record { after = some "0"; partials = "5" ∷ []; max_partials = none; pendings = [] }

abbrev after_b : CursorsState ℕ
after_b =
    finish_item item_b (begin_item item_c (begin_item item_b (begin_item item_a before_all).0).0).0

b_finished : Reach before_all three (2 ∷ []) after_b
b_finished =
    finish item_b (begin item_c (begin item_b (begin item_a start refl) refl) refl) (there here)
      refl

after_b_max_partials : after_b.max_partials ≡ none
unfolding begin_item finish_item
after_b_max_partials = refl

commit-finished_prefix_example :
    (committed rest : List (Item ℕ)) × (three ≡ committed ++ rest)
    × (committed ≡ finished_prefix (2 ∷ []) three)
    × (after_b.after ≡ or_else (last_cursor committed) (some "0"))
    × ((i : Item ℕ) → In i three → elem i.handle (2 ∷ []) ≡ false → In i rest)
commit-finished_prefix_example = commit-finished_prefix refl b_finished

-- With room for one partial cursor only.
abbrev limited : CursorsState ℕ
limited = record after_b { max_partials = some 1 }

skips_exactly_example :
    (begin_item item_b (from_cursor pairs (as_cursor pairs after_b) none)).1
    ≡ not (elem "2" after_b.partials || elem "2" (partials_cursors (values after_b.pendings)))
skips_exactly_example =
    skips_exactly pairs pairs-IsLawful after_b none after_b_max_partials item_b "2" refl
