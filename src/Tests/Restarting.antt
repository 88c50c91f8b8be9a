-- ===== src/Tests/Restarting.antt =====
-- A loop of three rounds, a schedule of four ticks, and a fan-in of one input.
use data_lineup.Base.{
  ℕ, String, true, not, ◌==◌, nat_eq, Option, none, some, List, [], ◌∷◌, drop, keep, ltb, string_eq,
  ◌≡◌, refl, ap, arith,
}
use data_lineup.Dict.{Dict, lookup}
use data_lineup.Sources.{
  iterate_loop, iterate_periodic, Input, cursors_of, fanin_iterators, fanin_cursor,
}
use data_lineup.Sources.Looping.{iterate_loop-numbers}
use data_lineup.Sources.Ticking.{IsSchedule, iterate_periodic-after}
use data_lineup.Sources.Merged.{IsInverse, Resumes, fanin_iterators-Resumes}
use data_lineup.Tests.Codecs.{unary, unary-IsLawful}
use data_lineup.Tests.Composed.{by_name, by_name-IsLawful}

-- The loop is stopped at 2.
iterate_loop-numbers_example :
    iterate_loop unary (λ n. not (n == 2)) (some 4) 5 none ≡ some (0 ∷ 1 ∷ [], true)
iterate_loop-numbers_example =
    iterate_loop-numbers unary (λ n. not (n == 2)) 4 4 0 none refl (omega arith)

abbrev four_ticks : List ℕ
four_ticks = 10 ∷ 20 ∷ 30 ∷ 40 ∷ []

abbrev ticks : ℕ → List ℕ
ticks start = keep (λ k. ltb start k) four_ticks

four_ticks-IsSchedule : IsSchedule four_ticks ticks unary.str unary.int
four_ticks-IsSchedule = record {
  increasing = (
    (omega arith, (omega arith, (omega arith, tt))),
    ((omega arith, (omega arith, tt)), ((omega arith, tt), (tt, tt))),
  );
  yields = λ start. refl;
  fromisoformat-isoformat = λ t. unary-IsLawful.int-str t;
}

iterate_periodic-after_example :
    (items : List ℕ) × (iterate_periodic unary.int ticks 5 (some 35) none ≡ some items)
    × (iterate_periodic unary.int ticks 5 (some 35) (some (unary.str 20))
        ≡ some (keep (λ k. ltb 20 k) items))
iterate_periodic-after_example =
    iterate_periodic-after four_ticks ticks unary.str unary.int 5 20 (some 35) four_ticks-IsSchedule
      (omega arith)

abbrev letters : List String
letters = "a" ∷ "b" ∷ "c" ∷ []

abbrev from_text : Option String → List String
from_text none = letters
from_text (some c) = elim (unary.int c) [ none ↦ [] | some k ↦ drop k letters ]

abbrev input : Input String
input = record { name = "letters"; run = from_text; cursor = λ k. some (unary.str k) }

input-Resumes : Resumes input
input-Resumes k =
    let e = unary-IsLawful.int-str k in
    ap (λ o. elim o as (λ _. List String) [ none ↦ [] | some j ↦ drop j letters ]) e

abbrev one_input : Dict String (Input String)
one_input = ("letters", input) ∷ []

cursors-IsInverse : IsInverse by_name (cursors_of (λ n. 2) one_input)
cursors-IsInverse = record {
  loads-dumps = by_name-IsLawful.loads-dumps "letters" (some (unary.str 2));
  dumps_nonempty = by_name-IsLawful.dumps_nonempty (cursors_of (λ n. 2) one_input);
}

fanin_iterators-Resumes_example :
    lookup "letters"
      (fanin_iterators by_name (some (fanin_cursor by_name (λ n. 2) one_input)) one_input)
    ≡ some ("c" ∷ [])
fanin_iterators-Resumes_example =
    fanin_iterators-Resumes by_name (λ n. 2) "letters" input one_input cursors-IsInverse (refl, tt)
      refl input-Resumes
