-- ===== src/Processing/Contexts.antt =====
-- With what the context of a message ends.
use data_lineup.Base.{
  ℕ, String, Bool, true, false, Option, none, some, List, string_eq, ◌≡◌, ◌≢◌, ◌↔◌, refl, subst,
  Option-cases, inl, inr,
}
use data_lineup.Dict.{Dict}
use data_lineup.ErrorHandling.{
  Text, OutputDefinition, TopicMessage, PipelineOutput, Processed, unmatched, handled_error,
  process_pipeline_exception,
}
use data_lineup.ExecutorQueue.{ExecutorQueue}
use data_lineup.Processing.{
  Output, Executed, returned, failed, cancelled, Raised, pipeline_error, cancelled_error,
  after_error, PipelineResults, HeldResource, Run, finish, run_message, error_results, Topics,
  Attempt, consume_output, process_results,
}

module _ (publish : Topics) (xmsg : ℕ) (topics : Dict String (List (Option ℕ)))
    (attempts : List Attempt) (q : ExecutorQueue) where
  -- What the context of the message sees: it ends with `process_results` where there are results,
  -- and with `run_queue` where there are none.
  unfoldable pub context_exit : Run → Option Raised
  context_exit run = elim run.task [
    | none ↦ run.raised
    | some (results, error) ↦ (process_results publish xmsg topics results error attempts q).raised
  ]

  -- What the outputs raise.
  abbrev pub outputs_raise : List Output → Option Raised
  outputs_raise outputs = (consume_output publish xmsg topics outputs attempts q).0

  process_results-raised :
      (r : PipelineResults) (error : Option Raised)
      → ((process_results publish xmsg topics r error attempts q).raised ≡ none)
        ↔ ((outputs_raise r.outputs ≡ none) × (error ≡ none))
  unfolding process_results
  process_results-raised r error = elim (Option-cases (outputs_raise r.outputs)) [
    | inl e ↦ (λ f. (e, rw (e, process_results) at f), λ (f, g). rw (e, process_results) g)
    | inr (x, e) ↦
        (λ f. absurd (cc (rw (e, process_results) at f)), λ (f, g). absurd (cc (rw e at f)))
  ]

-- Did the pipeline return, or was its exception matched and marked as handled, with these outputs?
abbrev pub Settled :
    Text → List (String × List OutputDefinition) → TopicMessage → Executed → List Output → Type 0
Settled text channels m (returned r) outputs = r.outputs ≡ outputs
Settled text channels m (failed e) outputs =
    (sent : List PipelineOutput) × ((process_pipeline_exception text channels e m).0
      ≡ handled_error sent true)
    × ((error_results sent).outputs ≡ outputs)
Settled text channels m cancelled outputs = ⊥

module _ (publish : Topics) (xmsg : ℕ) (topics : Dict String (List (Option ℕ)))
    (attempts : List Attempt) (q : ExecutorQueue) (text : Text)
    (channels : List (String × List OutputDefinition)) (held : Dict String HeldResource)
    (m : TopicMessage) where
  finish-exit :
      (r : PipelineResults) (error : Option Bool) (m' : TopicMessage)
      → (context_exit publish xmsg topics attempts q (finish r error held m') ≡ none)
        ↔ ((outputs_raise publish xmsg topics attempts q r.outputs ≡ none) × (error ≢ some false))
  unfolding context_exit
  finish-exit r none m' =
      let (there, back) = process_results-raised publish xmsg topics attempts q r none in
      (λ e. ((there e).0, λ f. absurd (cc f)), λ (e, f). back (e, refl))
  finish-exit r (some true) m' =
      let (there, back) = process_results-raised publish xmsg topics attempts q r none in
      (λ e. ((there e).0, λ f. absurd (cc f)), λ (e, f). back (e, refl))
  finish-exit r (some false) m' =
      let (there, back) =
        process_results-raised publish xmsg topics attempts q r (some pipeline_error) in
      (λ e. absurd (cc (there e).1), λ (e, f). absurd (f refl))

  raised-exit :
      (x : Raised) (m' : TopicMessage)
      → context_exit publish xmsg topics attempts q
          (record { task = none; raised = some x; held = held; message = m' })
        ≢ none
  unfolding context_exit
  raised-exit x m' e = absurd (cc e)

  after_error-exit :
      (p : Processed) (m' : TopicMessage)
      → (context_exit publish xmsg topics attempts q (after_error p held m') ≡ none) ↔ (
          (outputs : List Output) × ((sent : List PipelineOutput) × (p ≡ handled_error sent true)
            × ((error_results sent).outputs ≡ outputs))
          × (outputs_raise publish xmsg topics attempts q outputs ≡ none))
  unfolding context_exit
  after_error-exit unmatched m' = (λ e. absurd (cc e), λ (os, (sent, e, g), f). absurd (cc e))
  after_error-exit (handled_error sent true) m' =
      let (there, back) = finish-exit (error_results sent) (some true) m' in
      (
        λ e. ((error_results sent).outputs, (sent, refl, refl), (there e).0),
        λ (os, (sent', e, g), f).
            let same : sent' ≡ sent = cc e in
            let all : (error_results sent).outputs ≡ os =
              subst (λ l. (error_results l).outputs ≡ os) same g in
            back (rw all f, λ h. absurd (cc h)),
      )
  after_error-exit (handled_error sent false) m' =
      let (there, back) = finish-exit (error_results sent) (some false) m' in
      (λ e. absurd ((there e).1 refl), λ (os, (sent', e, g), f). absurd (cc e))

  -- The context of a message ends without an exception exactly if the pipeline returned or its
  -- exception was matched and is marked as handled, and all the outputs of this were published.
  pub run_message-context_exit :
      (x : Executed)
      → (context_exit publish xmsg topics attempts q (run_message text channels x held m) ≡ none)
        ↔ ((outputs : List Output) × Settled text channels m x outputs
            × (outputs_raise publish xmsg topics attempts q outputs ≡ none))
  unfolding run_message
  run_message-context_exit (returned r) =
      let (there, back) = finish-exit r none m in
      (λ e. (r.outputs, refl, (there e).0), λ (os, e, f). back (rw e f, λ g. absurd (cc g)))
  run_message-context_exit (failed e) =
      let (p, m') = process_pipeline_exception text channels e m in after_error-exit p m'
  run_message-context_exit cancelled =
      (λ e. absurd (raised-exit cancelled_error m e), λ (os, e, f). absurd e)
