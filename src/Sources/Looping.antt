-- ===== src/Sources/Looping.antt =====
-- Where a loop ends, and where it goes on after a restart.
use data_lineup.Base.{
  ℕ, zero, suc, ◌+◌, ◌-◌, ◌≤◌, ◌<◌, String, Bool, true, false, Option, some, List, [], ◌∷◌, leb,
  if◌then◌else◌, ◌≡◌, refl, ap, arith, Bool-cases, inl, inr,
}
use data_lineup.Inventory.Iterate.{Decimal}
use data_lineup.Inventory.Iterate.Static.{IsLawful}
use data_lineup.Sources.{is_past, iterate_from, loop_begin, iterate_loop}

-- The k numbers from n on, and the first elements of a list that pass a test.
abbrev pub numbers : (n k : ℕ) → List ℕ
numbers n zero = []
numbers n (suc k) = n ∷ numbers (n + 1) k

abbrev pub take_while : (ℕ → Bool) → List ℕ → List ℕ
take_while test [] = []
take_while test (n ∷ ns) = let rest = take_while test ns in if test n then n ∷ rest else []

iterate_from-numbers :
    (is_running : ℕ → Bool) (to fuel n : ℕ)
    → to ≤ n + fuel
    → iterate_from is_running (some to) (suc fuel) n
      ≡ (take_while is_running (numbers n (to - n)), true)
unfolding iterate_from
iterate_from-numbers is_running to zero n h =
    let past : leb to n ≡ true = ground (arith, h) in
    let nothing : to - n ≡ 0 = omega (arith, h) in rw (past, nothing) refl
iterate_from-numbers is_running to (suc fuel) n h = elim (Bool-cases (leb to n)) [
  | inl e ↦
      let below : to ≤ n = ground (arith, e) in
      let nothing : to - n ≡ 0 = omega (arith, below) in rw (e, nothing) refl
  | inr e ↦
      let above : n < to = ground (arith, e) in
      let one_more : to - n ≡ suc (to - (n + 1)) = omega (arith, above) in
      let later = iterate_from-numbers is_running to fuel (n + 1) (omega (arith, h)) in
      elim (Bool-cases (is_running n)) [
        | inl f ↦ rw (e, one_more, f, later) refl
        | inr f ↦ rw (e, one_more, f) refl
      ]
]

-- A loop with an end stops, and yields the numbers from where it begins to before the end, in
-- order and up to the first one at which a stop has come, without that one. Given that it begins
-- at a number, and with fuel for every number up to the end.
pub iterate_loop-numbers :
    (decimal : Decimal) (is_running : ℕ → Bool) (to fuel begin : ℕ) (after : Option String)
    → loop_begin decimal after ≡ some begin
    → to ≤ begin + fuel
    → iterate_loop decimal is_running (some to) (suc fuel) after
      ≡ some (take_while is_running (numbers begin (to - begin)), true)
unfolding iterate_loop
iterate_loop-numbers decimal is_running to fuel begin after e h =
    rw (e, iterate_loop) (ap some (iterate_from-numbers is_running to fuel begin h))

-- A loop that is restarted after the item n, from the cursor of this item, yields n once more.
pub iterate_loop-again :
    (decimal : Decimal) (is_running : ℕ → Bool) (max_iterations : Option ℕ) (fuel n : ℕ)
    → IsLawful decimal
    → is_past max_iterations n ≡ false
    → is_running n ≡ true
    → (later : List ℕ) × (ended : Bool) × (iterate_loop decimal is_running max_iterations
          (suc fuel)
          (some (decimal.str n))
        ≡ some (n ∷ later, ended))
unfolding iterate_loop iterate_from
iterate_loop-again decimal is_running max_iterations fuel n lawful past running =
    let begins : loop_begin decimal (some (decimal.str n)) ≡ some n =
      rw (lawful.str_nonempty n, loop_begin) (lawful.int-str n) in
    let rest = iterate_from is_running max_iterations fuel (n + 1) in
    let here : iterate_from is_running max_iterations (suc fuel) n ≡ (n ∷ rest.0, rest.1) =
      ground (arith, past, running) in
    (rest.0, rest.1, rw (begins, iterate_loop) (ap some here))
