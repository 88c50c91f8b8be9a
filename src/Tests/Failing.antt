-- ===== src/Tests/Failing.antt =====
-- An exception with the message "boom", and a message that keeps failing.
use data_lineup.Base.{
  String, Bool, All, ◌≢◌, ◌↔◌, ◌⊎◌, true, false, none, some, List, [], ◌∷◌, ◌++◌, string_eq, ◌==◌,
  ◌≡◌, refl, length, if◌then◌else◌,
}
use data_lineup.ErrorHandling.{
  Text, ExceptionDetails, OutputDefinition, component_definition, error_handler, RepublishOptions,
  TopicMessage, handled_error, error_output, process_pipeline_exception,
}
use data_lineup.ErrorHandling.Channels.{
  answers, SetsHandled, NeverRepublishes, Passed, process_pipeline_exception-first,
}
use data_lineup.ErrorHandling.Retried.{republish_rounds, length-republish_rounds}

-- Patterns match what they are equal to, and two texts have a colon after "error".
abbrev text : Text
text = record {
  split_colon = λ s.
      if s == "error:boom"
      then "error" ∷ "boom" ∷ []
      else if s == "error:pop"
      then "error" ∷ "pop" ∷ []
      else s ∷ [];
  strip = λ s. s;
  escape = λ s. s;
  append = λ s t. s;
  contains_dot = λ s. false;
  after_last_dot = λ s. s;
  int = λ s. none;
  compiles = λ s. true;
  matches = λ p s. p == s;
}

abbrev boom : ExceptionDetails
boom = record {
  message = "boom";
  exception_type = "builtins.ValueError";
  module_name = "orders";
  lineno = 7;
}

abbrev message : TopicMessage
message = record { id = "m1"; retried = some 1 }

abbrev again : RepublishOptions
again = record { channel = "again"; max_retry = 3 }

abbrev retry : List OutputDefinition
retry = error_handler (record { set_handled = true; republish = some again }) ∷ []

abbrev earlier : List (String × List OutputDefinition)
earlier = ("default", component_definition "topic" ∷ []) ∷ ("error:pop", retry) ∷ []

earlier-Passed : Passed text boom message earlier
earlier-Passed = (refl, (refl, tt))

process_pipeline_exception-first_example :
    let outputs = earlier ++ ("error:boom", retry) ∷ [] in
    let after = (process_pipeline_exception text outputs boom message).1 in
    (handled : Bool) × ((process_pipeline_exception text outputs boom message).0
      ≡ handled_error (error_output "error:boom" boom ∷ answers 1 retry) handled)
    × ((handled ≡ true)
        ↔ (All SetsHandled retry × (All NeverRepublishes retry ⊎ (answers 1 retry ≢ []))))
    × (All NeverRepublishes retry → after ≡ message)
    × ((All NeverRepublishes retry → ⊥) → after ≡ record message { retried = some 2 })
process_pipeline_exception-first_example =
    process_pipeline_exception-first text boom message earlier [] "error:boom" retry earlier-Passed
      refl

length-republish_rounds_example : length (republish_rounds 5 message (again ∷ [])) ≡ 2
length-republish_rounds_example = length-republish_rounds 5 message (again ∷ [])
