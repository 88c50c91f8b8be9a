-- ===== src/Usage/Stages.antt =====
-- At which stage a message is counted.
use data_lineup.Base.{
  ℕ, String, Bool, true, false, ◌&&◌, Option, none, some, List, [], Eq, ◌==◌, ==_iff, nat_eq, eqb,
  if◌then◌else◌, ◌≡◌, inl, inr, refl, arith, Bool-cases, sym, ap, ◌∙◌,
}
use data_lineup.Dict.{Dict, lookup, insert, lookup-insert, elem, elem-add, elem-discard}
use data_lineup.Usage.{
  PipelineState, PipelineName, name_eq, Readings, Stage, polling, scheduling, submitting, executing,
  processing_results, publishing, waiting_publish, StagesState, get_stage, set_stage, enter,
  entered, leave, flush, push, pop, ExecutableMessage, name_of, push_at, pop_at,
}

abbrev pub index : Stage → ℕ
index polling = 0
index scheduling = 1
index submitting = 2
index executing = 3
index processing_results = 4
index publishing = 5
index waiting_publish = 6

abbrev pub messages_of : Option PipelineState → List ℕ
messages_of none = []
messages_of (some s) = s.messages

elem-entered :
    (r : Readings) (m m' : ℕ) (o : Option PipelineState)
    → elem m' (entered r m o).messages ≡ (if m == m' then true else elem m' (messages_of o))
unfolding entered enter flush
elem-entered r m m' none = elem-add m m' []
elem-entered r m m' (some s) = elem-add m m' s.messages

elem-leave :
    (r : Readings) (m m' : ℕ) (s : PipelineState)
    → elem m' (leave r.now r.flushed m s).messages ≡ (if m == m' then false else elem m' s.messages)
unfolding leave flush
elem-leave r m m' s = ground (arith, elem-discard m m' s.messages, ==_iff m m')

module _ {L : Type 0} where
  get_stage-set_stage :
      (j k : Stage) (d : Dict (PipelineName L) PipelineState) (s : StagesState L)
      → get_stage k (set_stage j d s) ≡ (if eqb (index j) (index k) then d else get_stage k s)
  get_stage-set_stage j k d s = ground arith

  get_stage-same :
      (j k : Stage) (s : StagesState L)
      → eqb (index j) (index k) ≡ true
      → get_stage j s ≡ get_stage k s
  get_stage-same j k s f = ground (arith, f)

module _ {L : Type 0} ⦃e : Eq L⦄ where
  -- Is the message among those of the pipeline with this name?
  abbrev pub is_counted : ℕ → PipelineName L → Dict (PipelineName L) PipelineState → Bool
  is_counted m name d = elem m (messages_of (lookup name d))

  lookup-same :
      (n n' : PipelineName L) (d : Dict (PipelineName L) PipelineState)
      → (n == n') ≡ true
      → lookup n' d ≡ lookup n d
  lookup-same n n' d e = ap (λ k. lookup k d) (sym ((==_iff n n').0 e))

  is_counted-insert :
      (n n' : PipelineName L) (s : PipelineState) (m : ℕ) (d : Dict (PipelineName L) PipelineState)
      → is_counted m n' (insert n s d) ≡ (if n == n' then elem m s.messages else is_counted m n' d)
  is_counted-insert n n' s m d =
      ap (λ o. elem m (messages_of o)) (lookup-insert n n' s d) ∙ go (n == n')
    where
      go :
          (b : Bool)
          → elem m (messages_of (if b then some s else lookup n' d))
            ≡ (if b then elem m s.messages else is_counted m n' d)
      go true = refl
      go false = refl

  is_counted-push :
      (n n' : PipelineName L) (r : Readings) (m m' : ℕ) (d : Dict (PipelineName L) PipelineState)
      → is_counted m' n' (push n r m d)
        ≡ (if n == n' then (if m == m' then true else is_counted m' n' d) else is_counted m' n' d)
  is_counted-push n n' r m m' d =
      let inserted = is_counted-insert n n' (entered r m (lookup n d)) m' d in
      let same : (e : (n == n') ≡ true)
          → (if m == m' then true else is_counted m' n d)
            ≡ (if m == m' then true else is_counted m' n' d) =
        λ e.
          ap (λ o. if m == m' then true else elem m' (messages_of o))
            (sym (lookup-same n n' d e)) in
      elim (Bool-cases (n == n')) [
        | inl e ↦ rw e (rw e at inserted ∙ (elem-entered r m m' (lookup n d) ∙ same e))
        | inr e ↦ rw e (rw e at inserted)
      ]

  is_counted-pop :
      (n n' : PipelineName L) (r : Readings) (m m' : ℕ) (d : Dict (PipelineName L) PipelineState)
      → is_counted m' n' (pop n r m d)
        ≡ (if n == n' then (if m == m' then false else is_counted m' n' d) else is_counted m' n' d)
  is_counted-pop n n' r m m' d = go (lookup n d) refl
    where
      go :
          (o : Option PipelineState)
          → lookup n d ≡ o
          → is_counted m' n' (elim o as (λ _. Dict (PipelineName L) PipelineState) [
            | none ↦ d
            | some s ↦ insert n (leave r.now r.flushed m s) d
          ])
            ≡ (if n == n'
                then (if m == m' then false else is_counted m' n' d)
                else is_counted m' n' d)
      go none f = elim (Bool-cases (n == n')) [
        | inl e ↦ rw (e, lookup-same n n' d e, f) (ground arith)
        | inr e ↦ rw e refl
      ]
      go (some s) f =
          let inserted = is_counted-insert n n' (leave r.now r.flushed m s) m' d in
          elim (Bool-cases (n == n')) [
            | inl e ↦ rw e (rw e at inserted ∙ rw (lookup-same n n' d e, f) (elem-leave r m m' s))
            | inr e ↦ rw e (rw e at inserted)
          ]

-- How the parts of a `push` or `pop` at a stage join, with what they write as `v`.
count_lem :
    (same_stage same_key same_message v x counted old here : Bool)
    → x ≡ (if same_stage then counted else here)
    → counted ≡ (if same_key then (if same_message then v else old) else old)
    → (same_stage ≡ true → old ≡ here)
    → (same_message ≡ true → same_key ≡ true)
    → x ≡ (if same_stage && same_message then v else here)
count_lem a b c v x counted old here h i j k = ground (arith, h, i, j, k)

module _ {L : Type 0} ⦃e : Eq L⦄ (frozenset : Dict String String → L)
    (message : ℕ → ExecutableMessage) where
  -- Is the message counted at this stage?
  abbrev pub is_in : Stage → ℕ → StagesState L → Bool
  is_in k m s = is_counted m (name_of frozenset message m) (get_stage k s)

  same_message :
      (m m' : ℕ)
      → (m == m') ≡ true
      → (name_of frozenset message m == name_of frozenset message m') ≡ true
  same_message m m' f =
      (==_iff (name_of frozenset message m) (name_of frozenset message m')).1
        (ap (name_of frozenset message) ((==_iff m m').0 f))

  is_in-set :
      (j k : Stage) (m : ℕ) (d : Dict (PipelineName L) PipelineState) (s : StagesState L)
      → is_in k m (set_stage j d s) ≡ (
          if eqb (index j) (index k)
          then is_counted m (name_of frozenset message m) d
          else is_in k m s)
  is_in-set j k m d s = elim (Bool-cases (eqb (index j) (index k))) [
    | inl f ↦ rw f (
        ap (is_counted m (name_of frozenset message m))
          (rw f at (get_stage-set_stage {L = L} j k d s)))
    | inr f ↦ rw f (
        ap (is_counted m (name_of frozenset message m))
          (rw f at (get_stage-set_stage {L = L} j k d s)))
  ]

  pub is_in-push_at :
      (j k : Stage) (r : Readings) (m m' : ℕ) (s : StagesState L)
      → is_in k m' (push_at frozenset message j r m s)
        ≡ (if eqb (index j) (index k) && m == m' then true else is_in k m' s)
  is_in-push_at j k r m m' s =
      let n = name_of frozenset message m in
      let n' = name_of frozenset message m' in
      let d = get_stage j s in
      count_lem (eqb (index j) (index k)) (n == n') (m == m') true _ _ (is_counted m' n' d) _
        (is_in-set j k m' (push n r m d) s) (is_counted-push n n' r m m' d)
        (λ f. ap (is_counted m' n') (get_stage-same j k s f)) (same_message m m')

  pub is_in-pop_at :
      (j k : Stage) (r : Readings) (m m' : ℕ) (s : StagesState L)
      → is_in k m' (pop_at frozenset message j r m s)
        ≡ (if eqb (index j) (index k) && m == m' then false else is_in k m' s)
  is_in-pop_at j k r m m' s =
      let n = name_of frozenset message m in
      let n' = name_of frozenset message m' in
      let d = get_stage j s in
      count_lem (eqb (index j) (index k)) (n == n') (m == m') false _ _ (is_counted m' n' d) _
        (is_in-set j k m' (pop n r m d) s) (is_counted-pop n n' r m m' d)
        (λ f. ap (is_counted m' n') (get_stage-same j k s f)) (same_message m m')
