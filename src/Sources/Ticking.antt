-- ===== src/Sources/Ticking.antt =====
-- A periodic inventory that is restarted from a tick.
use data_lineup.Base.{
  ℕ, ◌≤◌, ◌<◌, String, Option, none, some, List, [], ◌∷◌, All, keep, ltb, nat_eq, ==_iff, ◌≡◌, refl,
  ap, arith, Bool-cases, inl, inr,
}
use data_lineup.Sources.{iterate_ticks, iterate_periodic}

abbrev pub Increasing : List ℕ → Type 0
Increasing [] = Unit
Increasing (k ∷ ks) = All (λ j. k < j) ks × Increasing ks

-- What the code relies on: `croniter` yields the ticks of a schedule that are after its start, in
-- order, and a date is read back from its text.
pub record IsSchedule (schedule : List ℕ) (croniter : ℕ → List ℕ) (isoformat : ℕ → String)
    (fromisoformat : String → Option ℕ) : Type 0 where
  pub increasing : Increasing schedule
  pub yields : (start : ℕ) → croniter start ≡ keep (λ k. ltb start k) schedule
  pub fromisoformat-isoformat : (t : ℕ) → fromisoformat (isoformat t) ≡ some t

ticks_over :
    (t to : ℕ) (ks : List ℕ)
    → All (λ k. to < k) ks
    → iterate_ticks (some t) (some to) (keep (λ k. ltb t k) ks) ≡ []
ticks_over t to [] h = refl
ticks_over t to (k ∷ ks) h = ground (arith, h.0, ticks_over t to ks h.1, ==_iff k t)

All-later : (a b : ℕ) (ks : List ℕ) → a < b → All (λ k. b < k) ks → All (λ k. a < k) ks
All-later a b [] le h = tt
All-later a b (k ∷ ks) le h = (omega (arith, h.0), All-later a b ks le h.1)

ticks_after :
    (start t : ℕ) (end_date : Option ℕ) (ks : List ℕ)
    → start ≤ t
    → Increasing ks
    → iterate_ticks (some t) end_date (keep (λ k. ltb t k) ks)
      ≡ keep (λ k. ltb t k) (iterate_ticks none end_date (keep (λ k. ltb start k) ks))
ticks_after start t end_date [] le h = refl
ticks_after start t none (k ∷ ks) le h =
    ground (arith, ticks_after start t none ks le h.1, ==_iff k t)
ticks_after start t (some to) (k ∷ ks) le h = elim (Bool-cases (ltb to k)) [
  | inl e ↦
      let none_left = ticks_over t to ks (All-later to k ks (ground (arith, e)) h.0) in
      ground (arith, e, ticks_after start t (some to) ks le h.1, none_left, ==_iff k t)
  | inr e ↦ ground (arith, e, ticks_after start t (some to) ks le h.1, ==_iff k t)
]

-- A periodic inventory that is restarted from a tick yields exactly the ticks after it that the
-- uninterrupted run yields.
pub iterate_periodic-after :
    (schedule : List ℕ) (croniter : ℕ → List ℕ) (isoformat : ℕ → String)
    (fromisoformat : String → Option ℕ) (start_date t : ℕ) (end_date : Option ℕ)
    → IsSchedule schedule croniter isoformat fromisoformat
    → start_date ≤ t
    → (items : List ℕ) × (iterate_periodic fromisoformat croniter start_date end_date none
        ≡ some items)
      × (iterate_periodic fromisoformat croniter start_date end_date (some (isoformat t))
          ≡ some (keep (λ k. ltb t k) items))
unfolding iterate_periodic
iterate_periodic-after schedule croniter isoformat fromisoformat start_date t end_date h le = (
  iterate_ticks none end_date (croniter start_date),
  refl,
  rw (h.fromisoformat-isoformat t, iterate_periodic)
      (rw (h.yields t, h.yields start_date)
        (ap some (ticks_after start_date t end_date schedule le h.increasing))),
)
