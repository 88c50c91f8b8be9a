-- ===== src/Tests/Slicing.antt =====
-- An iterator that yields two items and raises, in slices of two.
use data_lineup.Base.{ℕ, true, false, some, List, [], ◌∷◌, ◌≡◌, refl}
use data_lineup.Buffering.{
  Answer, yields, raises, Buffered, begin_buffered, next_slice, flush_items, async_flatten,
}
use data_lineup.Buffering.Sliced.{Reach, begins, slices, flushes, Reach-yielded}

abbrev failing : List (Answer ℕ)
failing = yields 1 ∷ yields 2 ∷ raises ∷ []

abbrev one_slice : Buffered ℕ
one_slice = flush_items (next_slice (some 2) (next_slice (some 2) (begin_buffered failing)))

abbrev after_end : Buffered ℕ
after_end = flush_items (next_slice (some 2) one_slice)

first_open : (next_slice (some 2) (begin_buffered failing)).ended ≡ false
unfolding next_slice
first_open = refl

slice_open : one_slice.ended ≡ false
unfolding next_slice flush_items
slice_open = refl

after_end-Reach : Reach (some 2) failing after_end
after_end-Reach = flushes (slices (flushes (slices (slices begins refl) first_open)) slice_open)

it_ended : after_end.ended ≡ true
unfolding next_slice flush_items
it_ended = refl

Reach-yielded_example : async_flatten after_end.output ≡ 1 ∷ 2 ∷ []
Reach-yielded_example = (Reach-yielded after_end-Reach).1 it_ended
