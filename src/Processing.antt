-- ===== src/Processing.antt =====
-- worker/executors/queue.py: `run_queue` and `process_results`, from a message that was polled to
-- the end of its contexts, with `ExecutableMessage.update_resources_used`. What the executor
-- answers is an argument, and what topics answer is a function of all the attempts before, latest
-- first. Hooks keep the outcome of their scope (Hooks), and are left out but for the events.
pub mod Published
pub mod Contexts
use data_lineup.Base.{
  ℕ, zero, suc, String, Bool, true, false, not, ◌||◌, Option, none, some, List, [], ◌∷◌, ◌++◌, map,
  string_eq, if◌then◌else◌, is_some,
}
use data_lineup.Dict.{Dict, lookup, insert}
use data_lineup.ResourcesManager.{ResourceContext, release_later}
use data_lineup.ErrorHandling.{
  Text, OutputDefinition, ExceptionDetails, TopicMessage, PipelineOutput, error_output,
  message_output, Processed, unmatched, handled_error, process_pipeline_exception,
}
use data_lineup.ExecutorQueue.{
  ExecutorQueue, begin_output, block_output, unblock_output, end_output,
}

-- What a pipeline emits, or what an error channel answers.
pub data Output : Type 0 where
  emitted : (channel message : String) → Output
  error_result : PipelineOutput → Output

abbrev pub channel_of : Output → String
channel_of (emitted c m) = c
channel_of (error_result (error_output c e)) = c
channel_of (error_result (message_output c)) = c

pub record ResourceUsed : Type 0 where
  pub type : String
  pub release_at : Option ℕ
  pub state : Option String

pub record PipelineResults : Type 0 where
  pub outputs : List Output
  pub resources : List ResourceUsed
  pub events : List String

-- `cancelled` is an exception that is no `Exception`.
pub data Executed : Type 0 where
  returned : PipelineResults → Executed
  failed : ExceptionDetails → Executed
  cancelled : Executed

-- What a context sees: the pipeline's exception, the `HandledError`, the `ExceptionGroup` of the
-- outputs, and the others.
pub data Raised : Type 0 where
  pipeline_error the_handled_error cancelled_error missing_key : Raised
  output_errors : (count : ℕ) → Raised

-- A context of a resource, and the state of the resource where it was updated.
pub record HeldResource : Type 0 where
  pub context : ResourceContext
  pub state : Option String

-- `self.resources[…].release_later(…)`, `self.resources[…].update_state(…)`; `none` is a
-- `KeyError`.
abbrev pub use_release : Option ℕ → HeldResource → HeldResource
use_release none h = h
use_release (some t) h = record h { context = release_later t h.context }

abbrev pub use_state : Option String → HeldResource → HeldResource
use_state none h = h
use_state (some s) h = if is_some h.context.resource then record h { state = some s } else h

abbrev pub use_resource :
    ResourceUsed → Dict String HeldResource → Option (Dict String HeldResource)
use_resource u held =
    if is_some u.release_at || is_some u.state
    then (elim (lookup u.type held) [
      | none ↦ none
      | some h ↦ some (insert u.type (use_state u.state (use_release u.release_at h)) held)
    ])
    else some held

-- The loop, with whether it ended.
abbrev pub use_all : List ResourceUsed → Dict String HeldResource → Bool × Dict String HeldResource
use_all [] held = (true, held)
use_all (u ∷ us) held = elim (use_resource u held) [
  | none ↦ (false, held)
  | some held' ↦ use_all us held'
]

unfoldable pub update_resources_used :
    List ResourceUsed → Dict String HeldResource → Bool × Dict String HeldResource
update_resources_used used [] = (true, [])
update_resources_used used (h ∷ held) = use_all used (h ∷ held)

-- A message after its execution: the task of `process_results` with its results and its
-- `context_error`, to which the message's context goes, and what `_executing_context` sees.
pub record Run : Type 0 where
  pub task : Option (PipelineResults × Option Raised)
  pub raised : Option Raised
  pub held : Dict String HeldResource
  pub message : TopicMessage

-- `error.reraise()`
abbrev pub reraised : (handled : Bool) → Raised
reraised handled = if handled then the_handled_error else pipeline_error

-- The `finally` and what follows, where there are results; `error` is the `handled` of the error.
abbrev pub finish : PipelineResults → Option Bool → Dict String HeldResource → TopicMessage → Run
finish results error held message =
    let context_error : Option Raised = elim error [
      | none ↦ none
      | some handled ↦ if handled then none else some pipeline_error
    ] in
    let (ended, held') = update_resources_used results.resources held in
    let raised : Option Raised =
      if ended
      then (elim error [ none ↦ none | some handled ↦ some (reraised handled) ])
      else some missing_key in
    record {
      task = some (results, context_error);
      raised = raised;
      held = held';
      message = message;
    }

abbrev pub error_results : List PipelineOutput → PipelineResults
error_results outputs = record { outputs = map error_result outputs; resources = []; events = [] }

-- After `process_pipeline_exception`; unless it raises a `HandledError`, the exception goes on.
abbrev pub after_error : Processed → Dict String HeldResource → TopicMessage → Run
after_error unmatched held m = record {
  task = none;
  raised = some pipeline_error;
  held = held;
  message = m;
}
after_error (handled_error outputs handled) held m =
    finish (error_results outputs) (some handled) held m

-- One round of the loop of `run_queue`, of a message with these error channels.
unfoldable pub run_message :
    Text
    → List (String × List OutputDefinition)
    → Executed
    → Dict String HeldResource
    → TopicMessage
    → Run
unfolding process_pipeline_exception update_resources_used
run_message text channels (returned results) held m = finish results none held m
run_message text channels cancelled held m = record {
  task = none;
  raised = some cancelled_error;
  held = held;
  message = m;
}
run_message text channels (failed e) held m =
    let (processed, m') = process_pipeline_exception text channels e m in
    after_error processed held m'

pub record Attempt : Type 0 where
  pub topic : ℕ
  pub output : Output
  pub wait : Bool

-- What `topic.publish` does: a value, or an exception (`none`).
abbrev pub Topics : Type 0
Topics = List Attempt → Attempt → Option Bool

pub record Consuming : Type 0 where
  pub queue : ExecutorQueue
  pub attempts : List Attempt
  pub errors : ℕ

-- Is the attempt a success, where it does not wait?
abbrev pub is_published : Option Bool → Bool
is_published none = false
is_published (some b) = b

-- `processable.output.get(item.channel, [])`
abbrev pub topics_of : Dict String (List (Option ℕ)) → Output → List (Option ℕ)
topics_of topics output = elim (lookup (channel_of output) topics) [ none ↦ [] | some ts ↦ ts ]

module _ (publish : Topics) (xmsg : ℕ) where
  -- `scope` in `consume_output`, of one topic, with `errors.append`.
  unfoldable pub publish_output : Output → Option ℕ → Consuming → Consuming
  publish_output output none s = s
  publish_output output (some t) s =
      let first : Attempt = record { topic = t; output = output; wait = false } in
      let second : Attempt = record { topic = t; output = output; wait = true } in
      let tried = first ∷ s.attempts in
      if is_published (publish s.attempts first) then record s { attempts = tried } else record {
        queue = unblock_output xmsg (block_output xmsg s.queue);
        attempts = second ∷ tried;
        errors = elim (publish tried second) [ none ↦ suc s.errors | some _ ↦ s.errors ];
      }

  abbrev pub publish_topics : Output → List (Option ℕ) → Consuming → Consuming
  publish_topics output [] s = s
  publish_topics output (t ∷ ts) s = publish_topics output ts (publish_output output t s)

  abbrev pub publish_all : Dict String (List (Option ℕ)) → List Output → Consuming → Consuming
  publish_all topics [] s = s
  publish_all topics (o ∷ os) s = publish_all topics os (publish_topics o (topics_of topics o) s)

  -- With what it raises, and its `finally`.
  unfoldable pub consume_output :
      Dict String (List (Option ℕ))
      → List Output
      → List Attempt
      → ExecutorQueue
      → Option Raised × Consuming
  unfolding publish_output
  consume_output topics outputs attempts q =
      let s =
        publish_all topics outputs
          (record { queue = begin_output xmsg q; attempts = attempts; errors = 0 }) in
      let raised : Option Raised = elim s.errors [
        | zero ↦ none
        | suc n ↦ some (output_errors (suc n))
      ] in
      (raised, record s { queue = end_output xmsg s.queue })

-- `process_results`: the events that are emitted, and what the message's context sees.
pub record ResultsProcessed : Type 0 where
  pub events : List String
  pub raised : Option Raised
  pub consuming : Consuming

unfoldable pub process_results :
    Topics
    → ℕ
    → Dict String (List (Option ℕ))
    → PipelineResults
    → (context_error : Option Raised) → List Attempt
    → ExecutorQueue
    → ResultsProcessed
unfolding consume_output
process_results publish xmsg topics results context_error attempts q =
    let (raised, s) = consume_output publish xmsg topics results.outputs attempts q in
    elim raised [
      | some e ↦ record { events = []; raised = some e; consuming = s }
      | none ↦ record { events = results.events; raised = context_error; consuming = s }
    ]
