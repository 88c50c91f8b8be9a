-- ===== src/ErrorHandling.antt =====
-- worker/error_handling.py: how an exception of a pipeline is matched with the error channels of a
-- queue, and how its message is published again. All outputs of one exception share the message
-- object, which is returned once. A compiled pattern is its text; methods of `str` and `re` are
-- operations of `Text`. The exception's details are taken as given.
pub mod Channels
pub mod Matched
pub mod Retried
use Prim.Native.Char.{Char, code}
use Prim.Native.String
use data_lineup.Base.{
  ℕ, zero, suc, ◌+◌, String, Bool, true, false, not, ◌&&◌, ◌||◌, Option, none, some, List, [], ◌∷◌,
  ◌++◌, map, ◌==◌, string_eq, eqb, ltb, leb, length, if◌then◌else◌, or_else, keep, is_some,
}
use data_lineup.Inventory.{is_empty}

-- What `int` returns.
pub data ℤ : Type 0 where
  pos negsuc : ℕ → ℤ

pub record Text : Type 0 where
  pub split_colon : String → List String
  pub strip : String → String
  pub escape : String → String
  pub append : String → String → String
  pub contains_dot : String → Bool
  pub after_last_dot : String → String
  pub int : String → Option ℤ
  pub compiles : (pattern : String) → Bool  -- does `re.compile` return?
  pub matches : (pattern text : String) → Bool

pub record ExceptionDetails : Type 0 where
  pub message : String
  pub exception_type : String
  pub module_name : String
  pub lineno : ℕ

pub record ExceptionFilter : Type 0 where
  pub message_pattern : Option String
  pub exception_type : Option String
  pub module_pattern : Option String
  pub lineno : ℕ

pub record RepublishOptions : Type 0 where
  pub channel : String
  pub max_retry : ℕ

pub record ErrorHandler : Type 0 where
  pub set_handled : Bool
  pub republish : Option RepublishOptions

pub data OutputDefinition : Type 0 where
  component_definition : (name : String) → OutputDefinition
  error_handler : ErrorHandler → OutputDefinition

-- `retried` is `metadata["error_handler"]["retried"]`, where it is set.
pub record TopicMessage : Type 0 where
  pub id : String
  pub retried : Option ℕ

pub data PipelineOutput : Type 0 where
  error_output : (channel : String) → ExceptionDetails → PipelineOutput
  message_output : (channel : String) → PipelineOutput

-- `unmatched` is a return; `handled_error` is the raised `HandledError`.
pub data Processed : Type 0 where
  unmatched : Processed
  handled_error : List PipelineOutput → (handled : Bool) → Processed

abbrev pub begins_with : String → String → Bool
begins_with String.[] s = true
begins_with (String.◌∷◌ c p) String.[] = false
begins_with (String.◌∷◌ c p) (String.◌∷◌ d s) = eqb (code c) (code d) && begins_with p s

abbrev pub is_output_error_handler : String → Bool
is_output_error_handler channel = begins_with "error:" channel

module _ (text : Text) where
  open text use {
    split_colon, strip, escape, append, contains_dot, after_last_dot, int, compiles, matches,
  }

  -- `re.compile(pattern) if pattern else None`; the outer `none` is a raised `re.error`.
  abbrev compile_pattern : String → Option (Option String)
  compile_pattern p = if is_empty p then some none else if compiles p then some (some p) else none

  abbrev parse_lineno : String → Option ℕ
  parse_lineno s =
      if is_empty s
      then some 0
      else elim (int s) [ none ↦ none | some (pos n) ↦ some n | some (negsuc n) ↦ none ]

  abbrev escaped : Bool → String → String → String
  escaped flag suffix s = if flag && not (is_empty s) then append (escape s) suffix else s

  -- `while len(parts) < 5: parts.append("")`, and more than 5 are refused.
  abbrev pad : ℕ → List String → Option (List String)
  pad zero [] = some []
  pad zero (p ∷ ps) = none
  pad (suc n) [] = elim (pad n []) [ none ↦ none | some rest ↦ some ("" ∷ rest) ]
  pad (suc n) (p ∷ ps) = elim (pad n ps) [ none ↦ none | some rest ↦ some (p ∷ rest) ]

  abbrev build_filter : Bool → List String → Option ExceptionFilter
  build_filter flag (action ∷ message ∷ category ∷ name ∷ lineno ∷ []) =
      elim (parse_lineno lineno) [
        | none ↦ none
        | some n ↦ elim (compile_pattern (escaped flag "" message)) [
          | none ↦ none
          | some m ↦ elim (compile_pattern (escaped flag "\\Z" category)) [
            | none ↦ none
            | some c ↦ elim (compile_pattern (escaped flag "\\Z" name)) [
              | none ↦ none
              | some d ↦ some (record {
                message_pattern = m;
                exception_type = c;
                module_pattern = d;
                lineno = n;
              })
            ]
          ]
        ]
      ]
  build_filter flag _ = none

  -- `none` where an exception is raised.
  unfoldable pub parse_warning_filter : String → Bool → Option ExceptionFilter
  parse_warning_filter arg flag = elim (pad 5 (split_colon arg)) [
    | none ↦ none
    | some parts ↦ build_filter flag (map strip parts)
  ]

  abbrev pub match_exception_name : String → String → Bool
  match_exception_name pattern name =
      matches pattern name || (contains_dot name && matches pattern (after_last_dot name))

  abbrev is_match : (String → Bool) → Option String → Bool
  is_match test none = true
  is_match test (some pattern) = test pattern

  unfoldable pub does_error_match : ExceptionDetails → ExceptionFilter → Bool
  does_error_match e f =
      is_match (λ p. matches p e.message) f.message_pattern
      && (is_match (λ p. match_exception_name p e.exception_type) f.exception_type
          && (is_match (λ p. matches p e.module_name) f.module_pattern
              && (eqb f.lineno 0 || eqb e.lineno f.lineno)))

abbrev pub republish_handlers : List OutputDefinition → List RepublishOptions
republish_handlers [] = []
republish_handlers (component_definition n ∷ hs) = republish_handlers hs
republish_handlers (error_handler h ∷ hs) =
    let rest = republish_handlers hs in elim h.republish [ none ↦ rest | some r ↦ r ∷ rest ]

abbrev pub is_handled : List OutputDefinition → Bool
is_handled [] = true
is_handled (component_definition n ∷ hs) = is_handled hs
is_handled (error_handler h ∷ hs) = h.set_handled && is_handled hs

-- The number of retries so far; it is read before it is increased.
abbrev pub retries_of : TopicMessage → ℕ
retries_of m = elim m.retried [ none ↦ 0 | some n ↦ n ]

abbrev pub republished : ℕ → List RepublishOptions → List PipelineOutput
republished retried [] = []
republished retried (h ∷ hs) =
    let rest = republished retried hs in
    if leb h.max_retry retried then rest else message_output h.channel ∷ rest

unfoldable pub republish : TopicMessage → List RepublishOptions → List PipelineOutput × TopicMessage
republish m handlers =
    (republished (retries_of m) handlers, record m { retried = some (retries_of m + 1) })

abbrev pub is_nil {ℓ} : {A : Type ℓ} → List A → Bool
is_nil [] = true
is_nil (_ ∷ _) = false

-- The outputs of a channel that was matched, from `output_msgs = …` on.
unfoldable pub handle_error :
    String → List OutputDefinition → ExceptionDetails → TopicMessage → Processed × TopicMessage
unfolding republish
handle_error channel handlers e m =
    let options = republish_handlers handlers in
    let (messages, m') = republish m options in
    if is_nil options
    then (handled_error (error_output channel e ∷ []) (is_handled handlers), m)
    else (
      handled_error (error_output channel e ∷ messages)
          (if is_nil messages then false else is_handled handlers),
      m',
    )

unfoldable pub process_pipeline_exception :
    Text
    → List (String × List OutputDefinition)
    → ExceptionDetails
    → TopicMessage
    → Processed × TopicMessage
unfolding handle_error parse_warning_filter does_error_match
process_pipeline_exception text [] e m = (unmatched, m)
process_pipeline_exception text ((channel, handlers) ∷ outputs) e m =
    let rest = process_pipeline_exception text outputs e m in
    if is_output_error_handler channel
    then (elim (parse_warning_filter text channel false) [
      | none ↦ handle_error channel handlers e m
      | some f ↦ if does_error_match text e f then handle_error channel handlers e m else rest
    ])
    else rest
