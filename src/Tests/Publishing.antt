-- ===== src/Tests/Publishing.antt =====
-- A pipeline that returns one output, for two topics of which the second one is blocked and fails
-- then, and a pipeline whose exception no channel takes.
use data_lineup.Base.{
  ℕ, String, true, false, Option, none, some, List, [], ◌∷◌, nat_eq, string_eq, eqb, if◌then◌else◌,
  ◌≡◌, refl,
}
use data_lineup.Dict.{Dict}
use data_lineup.ErrorHandling.{Text, TopicMessage}
use data_lineup.ExecutorQueue.{ExecutorQueue}
use data_lineup.Processing.{
  Output, emitted, Topics, PipelineResults, returned, consume_output, publish_output, run_message,
}
use data_lineup.Processing.Published.{Published, consume_output-Published}
use data_lineup.Processing.Contexts.{context_exit, run_message-context_exit}

abbrev second_blocked : Topics
second_blocked tried a = if eqb a.topic 1 then some true else if a.wait then none else some false

abbrev idle : ExecutorQueue
idle = record {
  manager = record { resources = []; delayed = [] };
  parkers = [];
  submitted = [];
  delayed = [];
  consuming = [];
  blocked = [];
  attached = [];
}

abbrev channels : Dict String (List (Option ℕ))
channels = ("default", some 1 ∷ none ∷ some 2 ∷ []) ∷ []

abbrev order : Output
order = emitted "default" "order"

consume_output-Published_example :
    Published second_blocked
      ((2, order) ∷ (1, order) ∷ [])
      (consume_output second_blocked 7 channels (order ∷ []) [] idle).1.attempts
      1
unfolding consume_output publish_output
consume_output-Published_example =
    (consume_output-Published second_blocked 7 channels (order ∷ []) idle).0

abbrev no_text : Text
no_text = record {
  split_colon = λ s. s ∷ [];
  strip = λ s. s;
  escape = λ s. s;
  append = λ s t. s;
  contains_dot = λ s. false;
  after_last_dot = λ s. s;
  int = λ s. none;
  compiles = λ s. true;
  matches = λ p s. true;
}

abbrev polled : TopicMessage
polled = record { id = "m"; retried = none }

abbrev results : PipelineResults
results = record { outputs = order ∷ []; resources = []; events = [] }

abbrev all_published : Topics
all_published tried a = some true

run_message-context_exit_example :
    context_exit all_published 7 channels [] idle
      (run_message no_text [] (returned results) [] polled)
    ≡ none
unfolding consume_output publish_output
run_message-context_exit_example =
    (run_message-context_exit all_published 7 channels [] idle no_text [] [] polled
        (returned results)).1
      (order ∷ [], refl, refl)
