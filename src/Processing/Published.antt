-- ===== src/Processing/Published.antt =====
-- Which outputs are offered to which topics.
use mathlib.Core.List.{reverse, reverse_aux, reverse_aux-append}
use data_lineup.Base.{
  ℕ, zero, suc, String, Bool, true, false, Option, none, some, List, [], ◌∷◌, ◌++◌, nat_eq,
  string_eq, is_some, ◌≡◌, ◌↔◌, refl, arith, Bool-cases, Option-cases, inl, inr,
}
use data_lineup.Dict.{Dict, elem, elem-discard}
use data_lineup.ExecutorQueue.{begin_output, ExecutorQueue}
use data_lineup.Processing.{
  Output, Attempt, Topics, Consuming, Raised, output_errors, is_published, publish_output,
  publish_topics, topics_of, publish_all, consume_output,
}

-- Each topic of the channel of each output, in order; a channel may name no topic.
abbrev pub with_topics : Output → List (Option ℕ) → List (ℕ × Output)
with_topics o [] = []
with_topics o (none ∷ ts) = with_topics o ts
with_topics o (some t ∷ ts) = (t, o) ∷ with_topics o ts

abbrev pub targets : Dict String (List (Option ℕ)) → List Output → List (ℕ × Output)
targets topics [] = []
targets topics (o ∷ os) = with_topics o (topics_of topics o) ++ targets topics os

abbrev pub offer : ℕ → Output → Bool → Attempt
offer t o wait = record { topic = t; output = o; wait = wait }

-- The attempts for these targets and the number of those that failed, all latest first: one that
-- does not wait, and where that is no success one that waits, which fails if it raises.
pub data Published (publish : Topics) : List (ℕ × Output) → List Attempt → ℕ → Type 0 where
  nothing : Published publish [] [] 0
  at_once :
      {ps : List (ℕ × Output)} {tried : List Attempt} {n : ℕ} (t : ℕ) (o : Output)
      → Published publish ps tried n
      → is_published (publish tried (offer t o false)) ≡ true
      → Published publish ((t, o) ∷ ps) (offer t o false ∷ tried) n
  waited :
      {ps : List (ℕ × Output)} {tried : List Attempt} {n : ℕ} (t : ℕ) (o : Output)
      → Published publish ps tried n
      → is_published (publish tried (offer t o false)) ≡ false
      → is_some (publish (offer t o false ∷ tried) (offer t o true)) ≡ true
      → Published publish ((t, o) ∷ ps) (offer t o true ∷ offer t o false ∷ tried) n
  failed :
      {ps : List (ℕ × Output)} {tried : List Attempt} {n : ℕ} (t : ℕ) (o : Output)
      → Published publish ps tried n
      → is_published (publish tried (offer t o false)) ≡ false
      → publish (offer t o false ∷ tried) (offer t o true) ≡ none
      → Published publish ((t, o) ∷ ps) (offer t o true ∷ offer t o false ∷ tried) (suc n)

raised_iff :
    (n : ℕ)
    → (elim n as (λ _. Option Raised) [ zero ↦ none | suc k ↦ some (output_errors (suc k)) ] ≡ none)
      ↔ (n ≡ 0)
raised_iff zero = (λ e. refl, λ e. refl)
raised_iff (suc n) = (λ e. absurd (cc e), λ e. absurd (omega (arith, e)))

module _ (publish : Topics) (xmsg : ℕ) where
  publish_output-Published :
      (o : Output) (t : ℕ) (s : Consuming) (ps : List (ℕ × Output))
      → Published publish ps s.attempts s.errors
      → let s' = publish_output publish xmsg o (some t) s in
        Published publish ((t, o) ∷ ps) s'.attempts s'.errors
  unfolding publish_output
  publish_output-Published o t s ps h =
      elim (Bool-cases (is_published (publish s.attempts (offer t o false)))) [
        | inl e ↦ rw e (at_once t o h e)
        | inr e ↦ elim (Option-cases (publish (offer t o false ∷ s.attempts) (offer t o true))) [
          | inl f ↦ rw (e, f) (failed t o h e f)
          | inr (b, f) ↦ rw (e, f) (waited t o h e (rw f refl))
        ]
      ]

  publish_topics-Published :
      (o : Output) (ts : List (Option ℕ)) (s : Consuming) (ps : List (ℕ × Output))
      → Published publish ps s.attempts s.errors
      → let s' = publish_topics publish xmsg o ts s in
        Published publish (reverse_aux (with_topics o ts) ps) s'.attempts s'.errors
  unfolding publish_output
  publish_topics-Published o [] s ps h = h
  publish_topics-Published o (none ∷ ts) s ps h = publish_topics-Published o ts s ps h
  publish_topics-Published o (some t ∷ ts) s ps h =
      publish_topics-Published o ts (publish_output publish xmsg o (some t) s) ((t, o) ∷ ps)
        (publish_output-Published o t s ps h)

  publish_all-Published :
      (topics : Dict String (List (Option ℕ))) (os : List Output) (s : Consuming)
      (ps : List (ℕ × Output))
      → Published publish ps s.attempts s.errors
      → let s' = publish_all publish xmsg topics os s in
        Published publish (reverse_aux (targets topics os) ps) s'.attempts s'.errors
  publish_all-Published topics [] s ps h = h
  publish_all-Published topics (o ∷ os) s ps h =
      rw (reverse_aux-append (with_topics o (topics_of topics o)) (targets topics os) ps) (
        publish_all-Published topics os (publish_topics publish xmsg o (topics_of topics o) s)
          (reverse_aux (with_topics o (topics_of topics o)) ps)
          (publish_topics-Published o (topics_of topics o) s ps h))

  -- Whatever the topics answer, each output is offered once to each topic of its channel, in
  -- order, a second time where the first attempt is no success, and no failure keeps the others
  -- from their attempts. An exception is raised exactly if one of the second attempts raised, and
  -- afterwards the message keeps the queue parked no more.
  pub consume_output-Published :
      (topics : Dict String (List (Option ℕ))) (outputs : List Output) (q : ExecutorQueue)
      → let (raised, s) = consume_output publish xmsg topics outputs [] q in
        Published publish (reverse (targets topics outputs)) s.attempts s.errors
        × ((raised ≡ none) ↔ (s.errors ≡ 0))
        × (elem xmsg s.queue.parkers ≡ false)
  unfolding consume_output
  consume_output-Published topics outputs q =
      let begin : Consuming = record { queue = begin_output xmsg q; attempts = []; errors = 0 } in
      let s = publish_all publish xmsg topics outputs begin in
      (
        publish_all-Published topics outputs begin [] nothing,
        raised_iff s.errors,
        ground (arith, elem-discard xmsg xmsg s.queue.parkers),
      )
