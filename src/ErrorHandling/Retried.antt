-- ===== src/ErrorHandling/Retried.antt =====
-- How often a message is published again.
use data_lineup.Base.{
  ℕ, zero, suc, ◌+◌, ◌-◌, List, [], ◌∷◌, ◌++◌, ◌≡◌, refl, arith, length, length-append, min,
}
use data_lineup.ErrorHandling.{
  RepublishOptions, TopicMessage, PipelineOutput, retries_of, republished, republish,
}

-- The outputs of `rounds` failures of one message in a row.
unfoldable pub republish_rounds : ℕ → TopicMessage → List RepublishOptions → List PipelineOutput
unfolding republish
republish_rounds zero m hs = []
republish_rounds (suc k) m hs = let (out, m') = republish m hs in out ++ republish_rounds k m' hs

-- What each handler still allows of so many rounds.
abbrev pub allowed : (rounds retried : ℕ) → List RepublishOptions → ℕ
allowed k retried [] = 0
allowed k retried (h ∷ hs) = min k (h.max_retry - retried) + allowed k retried hs

allowed-zero : (retried : ℕ) (hs : List RepublishOptions) → allowed 0 retried hs ≡ 0
allowed-zero retried [] = refl
allowed-zero retried (h ∷ hs) = omega (arith, allowed-zero retried hs)

allowed-suc :
    (k retried : ℕ) (hs : List RepublishOptions)
    → length (republished retried hs) + allowed k (retried + 1) hs ≡ allowed (suc k) retried hs
allowed-suc k retried [] = refl
allowed-suc k retried (h ∷ hs) = ground (arith, allowed-suc k retried hs)

-- The number of times that a message is published again over any number of failures in a row is
-- the sum, over the handlers, of that number or, if it is smaller, of what `max_retry` exceeds the
-- retries by that the message had before.
pub length-republish_rounds :
    (k : ℕ) (m : TopicMessage) (hs : List RepublishOptions)
    → length (republish_rounds k m hs) ≡ allowed k (retries_of m) hs
unfolding republish_rounds
length-republish_rounds zero m hs = omega (arith, allowed-zero (retries_of m) hs)
length-republish_rounds (suc k) m hs =
    let m' = (republish m hs).1 in
    omega (
      arith,
      length-append (republished (retries_of m) hs) (republish_rounds k m' hs),
      length-republish_rounds k m' hs,
      allowed-suc k (retries_of m) hs,
    )
