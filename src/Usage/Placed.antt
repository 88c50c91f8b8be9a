-- ===== src/Usage/Placed.antt =====
-- The stage of each message, through the life that the executors give it.
use data_lineup.Base.{
  ℕ, String, Bool, false, Option, none, some, Eq, ◌==◌, ==_iff, nat_eq, eqb, if◌then◌else◌, ◌≡◌,
  arith,
}
use data_lineup.Dict.{Dict}
use data_lineup.Usage.{
  Readings, Stage, polling, scheduling, submitting, executing, processing_results, publishing,
  waiting_publish, StagesState, no_stages, ExecutableMessage, push_at, pop_at, move,
  on_message_polled, on_message_scheduled, on_message_submitted, begin_executed, end_executed,
  begin_results, end_results, begin_published, end_published, begin_blocked, end_blocked,
}
use data_lineup.Usage.Stages.{index, is_in, is_in-push_at, is_in-pop_at}

abbrev pub is_at : Stage → Option Stage → Bool
is_at k none = false
is_at k (some j) = eqb (index j) (index k)

abbrev pub put : ℕ → Option Stage → (ℕ → Option Stage) → ℕ → Option Stage
put m p place k = if m == k then p else place k

module _ {L : Type 0} ⦃e : Eq L⦄ (frozenset : Dict String String → L)
    (message : ℕ → ExecutableMessage) where
  -- The states of the service, with the place of each message. A message is scheduled after it was
  -- polled, and so on; the hooks of its outputs run one after the other within the hook of its
  -- results; the hook of a blocked output runs within the one of its publication.
  pub data Placed : StagesState L → (ℕ → Option Stage) → Type 0 where
    opened : Placed no_stages (λ _. none)
    polled :
        {s : StagesState L} {place : ℕ → Option Stage} (r : Readings) (m : ℕ)
        → Placed s place
        → place m ≡ none
        → Placed (on_message_polled frozenset message r m s) (put m (some polling) place)
    scheduled :
        {s : StagesState L} {place : ℕ → Option Stage} (r r' : Readings) (m : ℕ)
        → Placed s place
        → place m ≡ some polling
        → Placed (on_message_scheduled frozenset message r r' m s) (put m (some scheduling) place)
    submitted :
        {s : StagesState L} {place : ℕ → Option Stage} (r r' : Readings) (m : ℕ)
        → Placed s place
        → place m ≡ some scheduling
        → Placed (on_message_submitted frozenset message r r' m s) (put m (some submitting) place)
    executes :
        {s : StagesState L} {place : ℕ → Option Stage} (r r' : Readings) (m : ℕ)
        → Placed s place
        → place m ≡ some submitting
        → Placed (begin_executed frozenset message r r' m s) (put m (some executing) place)
    executed :
        {s : StagesState L} {place : ℕ → Option Stage} (r : Readings) (m : ℕ)
        → Placed s place
        → place m ≡ some executing
        → Placed (end_executed frozenset message r m s) (put m none place)
    processes :
        {s : StagesState L} {place : ℕ → Option Stage} (r : Readings) (m : ℕ)
        → Placed s place
        → place m ≡ none
        → Placed (begin_results frozenset message r m s) (put m (some processing_results) place)
    processed :
        {s : StagesState L} {place : ℕ → Option Stage} (r : Readings) (m : ℕ)
        → Placed s place
        → place m ≡ some processing_results
        → Placed (end_results frozenset message r m s) (put m none place)
    publishes :
        {s : StagesState L} {place : ℕ → Option Stage} (r r' : Readings) (m : ℕ)
        → Placed s place
        → place m ≡ some processing_results
        → Placed (begin_published frozenset message r r' m s) (put m (some publishing) place)
    published :
        {s : StagesState L} {place : ℕ → Option Stage} (r r' : Readings) (m : ℕ)
        → Placed s place
        → place m ≡ some publishing
        → Placed (end_published frozenset message r r' m s) (put m (some processing_results) place)
    -- After the hook of a blocked output the message is at no stage.
    published_late :
        {s : StagesState L} {place : ℕ → Option Stage} (r r' : Readings) (m : ℕ)
        → Placed s place
        → place m ≡ none
        → Placed (end_published frozenset message r r' m s) (put m (some processing_results) place)
    blocks :
        {s : StagesState L} {place : ℕ → Option Stage} (r r' : Readings) (m : ℕ)
        → Placed s place
        → place m ≡ some publishing
        → Placed (begin_blocked frozenset message r r' m s) (put m (some waiting_publish) place)
    unblocked :
        {s : StagesState L} {place : ℕ → Option Stage} (r : Readings) (m : ℕ)
        → Placed s place
        → place m ≡ some waiting_publish
        → Placed (end_blocked frozenset message r m s) (put m none place)

  abbrev pub IsPlaced : StagesState L → (ℕ → Option Stage) → Type 0
  IsPlaced s place = (k : Stage) (m : ℕ) → is_in frozenset message k m s ≡ is_at k (place m)

  nowhere : (k : Stage) (m : ℕ) → is_in frozenset message k m no_stages ≡ false
  nowhere k m = ground arith

  push_at-IsPlaced :
      (j : Stage) (r : Readings) (m : ℕ) {s : StagesState L} (place : ℕ → Option Stage)
      → IsPlaced s place
      → place m ≡ none
      → IsPlaced (push_at frozenset message j r m s) (put m (some j) place)
  push_at-IsPlaced j r m {s} place h free k m' =
      ground (arith, free, h k m', is_in-push_at frozenset message j k r m m' s, ==_iff m m')

  pop_at-IsPlaced :
      (j : Stage) (r : Readings) (m : ℕ) {s : StagesState L} (place : ℕ → Option Stage)
      → IsPlaced s place
      → place m ≡ some j
      → IsPlaced (pop_at frozenset message j r m s) (put m none place)
  pop_at-IsPlaced j r m {s} place h here k m' =
      ground (arith, here, h k m', is_in-pop_at frozenset message j k r m m' s, ==_iff m m')

  pop_at-absent :
      (j : Stage) (r : Readings) (m : ℕ) {s : StagesState L} (place : ℕ → Option Stage)
      → IsPlaced s place
      → place m ≡ none
      → IsPlaced (pop_at frozenset message j r m s) place
  pop_at-absent j r m {s} place h free k m' =
      ground (arith, free, h k m', is_in-pop_at frozenset message j k r m m' s, ==_iff m m')

  move-IsPlaced :
      (j to : Stage) (r r' : Readings) (m : ℕ) {s : StagesState L} (place : ℕ → Option Stage)
      → IsPlaced s place
      → place m ≡ some j
      → IsPlaced (move frozenset message j to r r' m s) (put m (some to) place)
  move-IsPlaced j to r r' m {s} place h here k m' =
      let freed : put m none place m ≡ none = ground (arith, ==_iff m m) in
      let moved =
        push_at-IsPlaced to r' m (put m none place) (pop_at-IsPlaced j r m place h here) freed in
      ground (arith, moved k m')

module _ {L : Type 0} ⦃e : Eq L⦄ {frozenset : Dict String String → L}
    {message : ℕ → ExecutableMessage} where
  -- Whatever the order of the hooks of different messages, each message is counted at the stage
  -- where it is, at no other one, and nowhere while it is at none.
  pub Placed-is_in :
      {s : StagesState L} {place : ℕ → Option Stage}
      → Placed frozenset message s place
      → (k : Stage) (m : ℕ) → is_in frozenset message k m s ≡ is_at k (place m)
  Placed-is_in opened = λ k m. nowhere frozenset message k m
  Placed-is_in (polled r m h i) =
      push_at-IsPlaced frozenset message polling r m _ (Placed-is_in h) i
  Placed-is_in (scheduled r r' m h i) =
      move-IsPlaced frozenset message polling scheduling r r' m _ (Placed-is_in h) i
  Placed-is_in (submitted r r' m h i) =
      move-IsPlaced frozenset message scheduling submitting r r' m _ (Placed-is_in h) i
  Placed-is_in (executes r r' m h i) =
      move-IsPlaced frozenset message submitting executing r r' m _ (Placed-is_in h) i
  Placed-is_in (executed r m h i) =
      pop_at-IsPlaced frozenset message executing r m _ (Placed-is_in h) i
  Placed-is_in (processes r m h i) =
      push_at-IsPlaced frozenset message processing_results r m _ (Placed-is_in h) i
  Placed-is_in (processed r m h i) =
      pop_at-IsPlaced frozenset message processing_results r m _ (Placed-is_in h) i
  Placed-is_in (publishes r r' m h i) =
      move-IsPlaced frozenset message processing_results publishing r r' m _ (Placed-is_in h) i
  Placed-is_in (published r r' m h i) =
      move-IsPlaced frozenset message publishing processing_results r r' m _ (Placed-is_in h) i
  Placed-is_in (published_late r r' m h i) =
      push_at-IsPlaced frozenset message processing_results r' m _
        (pop_at-absent frozenset message publishing r m _ (Placed-is_in h) i) i
  Placed-is_in (blocks r r' m h i) =
      move-IsPlaced frozenset message publishing waiting_publish r r' m _ (Placed-is_in h) i
  Placed-is_in (unblocked r m h i) =
      pop_at-IsPlaced frozenset message waiting_publish r m _ (Placed-is_in h) i
