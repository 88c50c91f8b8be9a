-- ===== src/Start/Due.antt =====
-- Which job of a definition is the last one, and what `_sync_jobs` decides from it, told apart from
-- how the code finds it.
use data_lineup.Base.{
  ℕ, ◌≤◌, ◌<◌, String, Bool, true, false, Option, none, some, List, [], ◌∷◌, string_eq, ==_iff, ltb,
  leb, keep, All, if◌then◌else◌, ◌≡◌, refl, ◌⊎◌, inl, inr, arith, is_some, Option-cases, Bool-cases,
}
use data_lineup.Inventory.{is_empty, truthy}
use data_lineup.Stores.{Job, is_value, latest}
use data_lineup.Start.{JobDefinition, is_due, resume_cursor}

abbrev pub IsOf : String → Job → Type 0
IsOf definition j = j.job_definition_name ≡ some definition

-- One of these jobs.
abbrev pub IsAmong : Job → List Job → Type 0
IsAmong j [] = ⊥
IsAmong j (k ∷ ks) = (k ≡ j) ⊎ IsAmong j ks

-- The last job of a definition among these: one that none of the others started after.
abbrev pub IsLast : (definition : String) → List Job → Option Job → Type 0
IsLast definition js none = All (λ j. IsOf definition j → ⊥) js
IsLast definition js (some b) =
    IsAmong b js × IsOf definition b × All (λ j. IsOf definition j → j.started_at ≤ b.started_at) js

-- What an accumulator has become: it, or a later job.
Later : (definition : String) → Job → List Job → Job → Type 0
Later definition a js b =
    (a.started_at ≤ b.started_at)
    × ((a ≡ b) ⊎ (IsAmong b js × IsOf definition b))
    × All (λ j. IsOf definition j → j.started_at ≤ b.started_at) js

of : String → Job → Bool
of definition j = is_value j.job_definition_name definition

of_iff :
    (definition : String) (j : Job)
    → (of definition j ≡ true → IsOf definition j) × (IsOf definition j → of definition j ≡ true)
unfolding of
of_iff definition j = elim (Option-cases j.job_definition_name) [
  | inl e ↦ (λ h. absurd (ground (arith, e)), λ h. absurd (ground (arith, e)))
  | inr (n, e) ↦
      (λ h. ground (arith, e, ==_iff n definition), λ h. ground (arith, e, ==_iff n definition))
]

latest-Later :
    (definition : String) (a : Job) (js : List Job)
    → (b : Job) × (latest (some a) (keep (of definition) js) ≡ some b) × Later definition a js b
unfolding Later
latest-Later definition a [] = (a, refl, (omega arith, inl refl, tt))
latest-Later definition a (j ∷ js) = elim (Bool-cases (of definition j)) [
  | inr e ↦
      let (b, f, (le, from, all)) = latest-Later definition a js in
      (
        b,
        rw e f,
        (
          le,
          elim from [ inl s ↦ inl s | inr (m, o) ↦ inr (inr m, o) ],
          ((λ o. absurd (ground (arith, e, of_iff definition j))), all),
        ),
      )
  | inl e ↦ elim (Bool-cases (ltb a.started_at j.started_at)) [
    | inl less ↦
        let (b, f, (le, from, all)) = latest-Later definition j js in
        let before : a.started_at < j.started_at = ground (arith, less) in
        (
          b,
          ground (arith, e, less, f),
          (
            omega (arith, before, le),
            inr (elim from [
              | inl s ↦ (inl s, rw s at ((of_iff definition j).0 e))
              | inr (m, o) ↦ (inr m, o)
            ]),
            ((λ o. le), all),
          ),
        )
    | inr least ↦
        let (b, f, (le, from, all)) = latest-Later definition a js in
        let no_later : j.started_at ≤ a.started_at = ground (arith, least) in
        (
          b,
          ground (arith, e, least, f),
          (
            le,
            elim from [ inl s ↦ inl s | inr (m, o) ↦ inr (inr m, o) ],
            ((λ o. omega (arith, no_later, le)), all),
          ),
        )
  ]
]

skip-IsLast :
    (definition : String) (j : Job) (js : List Job) (r : Option Job)
    → (IsOf definition j → ⊥)
    → IsLast definition js r
    → IsLast definition (j ∷ js) r
skip-IsLast definition j js none other h = (other, h)
skip-IsLast definition j js (some b) other (m, o, all) = (inr m, o, ((λ p. absurd (other p)), all))

first-IsLast :
    (definition : String) (j : Job) (js : List Job) (b : Job)
    → IsOf definition j
    → Later definition j js b
    → IsLast definition (j ∷ js) (some b)
unfolding Later
first-IsLast definition j js b o (le, inl same, all) = (inl same, rw same at o, ((λ p. le), all))
first-IsLast definition j js b o (le, inr (m, p), all) = (inr m, p, ((λ q. le), all))

abbrev pub HasNoError : Job → Type 0
HasNoError j = (j.error ≡ none) ⊎ ((e : String) × (j.error ≡ some e) × (is_empty e ≡ true))

pub latest-IsLast :
    (definition : String) (js : List Job)
    → IsLast definition js (latest none (keep (λ j. is_value j.job_definition_name definition) js))
unfolding Later of
latest-IsLast definition [] = tt
latest-IsLast definition (j ∷ js) = elim (Bool-cases (of definition j)) [
  | inr e ↦ rw e (
      skip-IsLast definition j js (latest none (keep (of definition) js))
        (λ o. absurd (ground (arith, e, of_iff definition j))) (latest-IsLast definition js))
  | inl e ↦
      let (b, f, later) = latest-Later definition j js in
      rw (e, f) (first-IsLast definition j js b ((of_iff definition j).0 e) later)
]

-- What is decided from the last job: nothing, or a new job that resumes at a cursor.
pub data Decision (next_run : String → ℕ → ℕ) (d : JobDefinition) (now : ℕ)
    : Option Job → Option (Option String) → Type 0 where
  is_first : Decision next_run d now none (some none)
  still_runs : {last : Job} → last.completed_at ≡ none → Decision next_run d now (some last) none
  has_failed :
      {last : Job} (t : ℕ) (error : String)
      → last.completed_at ≡ some t
      → last.error ≡ some error
      → is_empty error ≡ false
      → Decision next_run d now (some last) (some last.cursor)
  has_elapsed :
      {last : Job} (t : ℕ)
      → last.completed_at ≡ some t
      → HasNoError last
      → next_run d.minimal_interval last.started_at ≤ now
      → Decision next_run d now (some last) (some none)
  still_waits :
      {last : Job} (t : ℕ)
      → last.completed_at ≡ some t
      → HasNoError last
      → now < next_run d.minimal_interval last.started_at
      → Decision next_run d now (some last) none

module _ (stamp : String → ℕ → String) (next_run : String → ℕ → ℕ) (d : JobDefinition)
    (now : ℕ) where
  -- What the code decides, in one value.
  abbrev pub decided : Option Job → Option (Option String)
  decided last =
      if is_due stamp next_run d now last then some (resume_cursor stamp next_run last) else none

  in_time :
      (last : Job) (t : ℕ)
      → last.completed_at ≡ some t
      → HasNoError last
      → is_some (truthy last.error) ≡ false
      → Decision next_run d now (some last) (decided (some last))
  in_time last t e h none_ =
      elim (Bool-cases (leb (next_run d.minimal_interval last.started_at) now)) [
        | inl f ↦
            let same : decided (some last) ≡ some none = ground (arith, e, none_, f) in
            rw same (has_elapsed t e h (ground (arith, f)))
        | inr f ↦
            let same : decided (some last) ≡ none = ground (arith, e, none_, f) in
            rw same (still_waits t e h (ground (arith, f)))
      ]

  pub decided-Decision : (last : Option Job) → Decision next_run d now last (decided last)
  decided-Decision none = is_first
  decided-Decision (some last) = elim (Option-cases last.completed_at) [
    | inl e ↦ let same : decided (some last) ≡ none = ground (arith, e) in rw same (still_runs e)
    | inr (t, e) ↦ elim (Option-cases last.error) [
      | inl f ↦ in_time last t e (inl f) (ground (arith, f))
      | inr (error, f) ↦ elim (Bool-cases (is_empty error)) [
        | inl g ↦ in_time last t e (inr (error, f, g)) (ground (arith, f, g))
        | inr g ↦
            let same : decided (some last) ≡ some last.cursor = ground (arith, e, f, g) in
            rw same (has_failed t error e f g)
      ]
    ]
  ]
