-- ===== src/Credits/Progress.antt =====
-- Every call of the scheduler with something ready chooses something, and credits stay in bounds.
use data_lineup.Base.{
  ℕ, ◌≤◌, true, Option, none, some, List, [], ◌∷◌, leb, eqb, nat_eq, eqb_iff, if◌then◌else◌, ◌≡◌,
  ◌≢◌, refl, ◌∙◌, arith, ◌⊎◌, inl, inr, Option-cases, Bool-cases, All,
}
use native.Mathlib.Decide.{dec_le}
use data_lineup.Dict.{Dict, lookup, insert, lookup-insert, elem}
use data_lineup.Credits.{
  Credits, cost, add_credits, schedule_one, min_cost, add_all, yield_ready, schedule,
}

-- No iterator has more credits than its priority.
abbrev pub InBounds : Dict ℕ Credits → Type 0
InBounds d = (i : ℕ) (c : Credits) → lookup i d ≡ some c → c.credits ≤ c.priority

-- Every iterator of the list has credits.
abbrev pub Known : Dict ℕ Credits → List ℕ → Type 0
Known d ready = All (λ i. (c : Credits) × (lookup i d ≡ some c)) ready

-- One of the iterators has these credits.
abbrev SomeHas : (Credits → Type 0) → Dict ℕ Credits → List ℕ → Type 0
SomeHas P d [] = ⊥
SomeHas P d (i ∷ ready) = ((c : Credits) × (lookup i d ≡ some c) × P c) ⊎ SomeHas P d ready

abbrev Costs : ℕ → Credits → Type 0
Costs m c = cost c ≡ m

abbrev IsFull : Credits → Type 0
IsFull c = c.priority ≤ c.credits

lookup-add_all :
    (n i : ℕ) (d : Dict ℕ Credits)
    → lookup i (add_all n d)
      ≡ elim (lookup i d) as (λ _. Option Credits) [ none ↦ none | some c ↦ some (add_credits n c) ]
unfolding add_all
lookup-add_all n i [] = refl
lookup-add_all n i ((j, c) ∷ d) = ground (arith, lookup-add_all n i d)

-- The minimum exists and is the cost of one of the iterators.
min_cost-attained :
    (d : Dict ℕ Credits) (i : ℕ) (ready : List ℕ)
    → Known d (i ∷ ready)
    → (m : ℕ) × (min_cost d (i ∷ ready) ≡ some m) × SomeHas (Costs m) d (i ∷ ready)
unfolding min_cost
min_cost-attained d i [] ((c, e), _) = (cost c, ground arith, inl (c, e, refl))
min_cost-attained d i (j ∷ ready) ((c, e), known) =
    let (m, found, attained) = min_cost-attained d j ready known in
    elim (dec_le (cost c) m) [
      | yes h ↦ (cost c, ground (arith, found), inl (c, e, refl))
      | no h ↦ (m, ground (arith, found), inr attained)
    ]

SomeHas-map :
    (P Q : Credits → Type 0) (d d' : Dict ℕ Credits) (ready : List ℕ)
    → ((i : ℕ) (c : Credits)
        → lookup i d ≡ some c
        → P c
        → (c' : Credits) × (lookup i d' ≡ some c') × Q c')
    → SomeHas P d ready
    → SomeHas Q d' ready
SomeHas-map P Q d d' [] f h = h
SomeHas-map P Q d d' (i ∷ ready) f (inl (c, e, p)) = inl (f i c e p)
SomeHas-map P Q d d' (i ∷ ready) f (inr h) = inr (SomeHas-map P Q d d' ready f h)

Known-map :
    (d d' : Dict ℕ Credits) (ready : List ℕ)
    → ((i : ℕ) (c : Credits) → lookup i d ≡ some c → (c' : Credits) × (lookup i d' ≡ some c'))
    → Known d ready
    → Known d' ready
Known-map d d' [] f h = tt
Known-map d d' (i ∷ ready) f ((c, e), h) = (f i c e, Known-map d d' ready f h)

abbrev reset : Option Credits → Option Credits
reset none = none
reset (some c) = some (record c { credits = 0 })

-- What the last loop returns: what it yields is set back to 0 and was ready, all else is unchanged.
abbrev pub Resets : Dict ℕ Credits → List ℕ → List ℕ → Dict ℕ Credits → Type 0
Resets d ready out d' =
    (j : ℕ)
    → (lookup j d' ≡ (if elem j out then reset (lookup j d) else lookup j d))
      × (elem j out ≡ true → elem j ready ≡ true)

insert-Known :
    (d : Dict ℕ Credits) (i : ℕ) (c : Credits) (ready : List ℕ)
    → Known d ready
    → Known (insert i c d) ready
insert-Known d i c ready = Known-map d (insert i c d) ready λ j q e. elim (Bool-cases (eqb i j)) [
  | inl h ↦ (c, ground (arith, lookup-insert i j c d))
  | inr h ↦ (q, ground (arith, lookup-insert i j c d))
]

yield_ready-Resets :
    (d : Dict ℕ Credits) (ready : List ℕ)
    → Known d ready
    → (out : List ℕ) × (d' : Dict ℕ Credits) × (yield_ready d ready ≡ some (out, d'))
      × Resets d ready out d'
unfolding yield_ready
yield_ready-Resets d [] known = ([], d, refl, λ j. (refl, λ e. e))
yield_ready-Resets d (i ∷ ready) ((c, e), known) =
    let c' : Credits = (schedule_one c).0 in
    let (out, d', found, resets) =
      yield_ready-Resets (insert i c' d) ready (insert-Known d i c' ready known) in
    elim (Bool-cases (leb c.priority c.credits)) [
      | inl full ↦ (
        i ∷ out,
        d',
        ground (arith, found),
        λ j. ground (arith, eqb_iff i j, resets j, lookup-insert i j c' d),
      )
      | inr short ↦ (
        out,
        d',
        ground (arith, found),
        λ j. ground (arith, eqb_iff i j, resets j, lookup-insert i j c' d),
      )
    ]

yield_ready-ne_nil :
    (d : Dict ℕ Credits) (ready : List ℕ) (out : List ℕ) (d' : Dict ℕ Credits)
    → Known d ready
    → SomeHas IsFull d ready
    → yield_ready d ready ≡ some (out, d')
    → out ≢ []
unfolding yield_ready
yield_ready-ne_nil d [] out d' known h found = absurd h
yield_ready-ne_nil d (i ∷ ready) out d' ((c, e), known) (inl (q, e', full)) found =
    let (rest, d'', tail, _) =
      yield_ready-Resets (insert i (schedule_one c).0 d) ready
        (insert-Known d i (schedule_one c).0 ready known) in
    ground (arith, tail)
yield_ready-ne_nil d (i ∷ ready) out d' ((c, e), known) (inr h) found =
    let (rest, d'', tail, _) =
      yield_ready-Resets (insert i (schedule_one c).0 d) ready
        (insert-Known d i (schedule_one c).0 ready known) in
    elim (Bool-cases (leb c.priority c.credits)) [
      | inl full ↦ ground (arith, tail)
      | inr short ↦
          let same : (schedule_one c).0 ≡ c = ground arith in
          let kept : SomeHas IsFull (insert i c d) ready =
            SomeHas-map IsFull IsFull d (insert i c d) ready
              (λ j q p f. (q, ground (arith, eqb_iff i j, lookup-insert i j c d), f)) h in
          let (more, d₁, next, _) =
            yield_ready-Resets (insert i c d) ready (insert-Known d i c ready known) in
          let later : more ≢ [] =
            yield_ready-ne_nil (insert i c d) ready more d₁ (insert-Known d i c ready known) kept
              next in
          ground (arith, next, later, same)
    ]

module _ (d : Dict ℕ Credits) (bounded : InBounds d) where
  abbrev topped_up : ℕ → Dict ℕ Credits
  topped_up m = if eqb m 0 then d else add_all m d

  lookup-topped_up :
      (m i : ℕ)
      → lookup i (topped_up m) ≡ elim (lookup i d) as (λ _. Option Credits) [
        | none ↦ none
        | some c ↦ some (add_credits m c)
      ]
  lookup-topped_up m i = elim (Bool-cases (eqb m 0)) [
    | inl e ↦ elim (Option-cases (lookup i d)) [
      | inl absent ↦ ground (arith, absent)
      | inr (c, found) ↦ ground (arith, eqb_iff m 0, bounded i c found)
    ]
    | inr e ↦ ground (arith, lookup-add_all m i d)
  ]

  schedule-topped_up :
      (ready : List ℕ) (m : ℕ)
      → min_cost d ready ≡ some m
      → schedule d ready ≡ yield_ready (topped_up m) ready
  unfolding schedule
  schedule-topped_up ready m e = rw (e, schedule)

  -- With credits in bounds, and known iterators of which at least one is ready, a call of the
  -- scheduler returns: it yields at least one iterator, only ready ones, each set back to 0
  -- credits. Every other iterator, ready or not, has the same number of credits added, up to its
  -- priority; and credits stay in bounds.
  pub schedule-progress :
      (i : ℕ) (ready : List ℕ)
      → Known d (i ∷ ready)
      → (out : List ℕ) × (d' : Dict ℕ Credits) × (m : ℕ) × (schedule d (i ∷ ready) ≡ some (out, d'))
        × (out ≢ [])
        × ((j : ℕ) → elem j out ≡ true → elem j (i ∷ ready) ≡ true)
        × ((j : ℕ) (c : Credits)
            → lookup j d ≡ some c
            → lookup j d' ≡ some (if elem j out then record c { credits = 0 } else add_credits m c))
        × InBounds d'
  schedule-progress i ready known =
      let (m, found, attained) = min_cost-attained d i ready known in
      let all = i ∷ ready in
      let known' : Known (topped_up m) all =
        Known-map d (topped_up m) all
          (λ j c e. (add_credits m c, ground (arith, lookup-topped_up m j))) known in
      let full : SomeHas IsFull (topped_up m) all =
        SomeHas-map (Costs m) IsFull d (topped_up m) all
          (λ j c e h. (add_credits m c, ground (arith, lookup-topped_up m j), omega arith))
          attained in
      let (out, d', ran, resets) = yield_ready-Resets (topped_up m) all known' in
      (
        out,
        d',
        m,
        schedule-topped_up all m found ∙ ran,
        yield_ready-ne_nil (topped_up m) all out d' known' full ran,
        λ j. (resets j).1,
        λ j c e. ground (arith, (resets j).0, lookup-topped_up m j),
        λ j c e. elim (Option-cases (lookup j d)) [
          | inl absent ↦ absurd (ground (arith, (resets j).0, lookup-topped_up m j))
          | inr (q, e') ↦ ground (arith, (resets j).0, lookup-topped_up m j)
        ],
      )
