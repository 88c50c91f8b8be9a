-- ===== src/ErrorHandling/Channels.antt =====
-- Which error channel takes an exception, and when the exception counts as handled.
use data_lineup.Base.{
  ℕ, String, Bool, true, false, not, ◌&&◌, ◌||◌, none, some, List, [], ◌∷◌, ◌++◌, ◌≡◌, ◌≢◌, refl,
  arith, All, if◌then◌else◌, Bool-cases, Option-cases, ◌⊎◌, inl, inr, ltb, ◌∙◌, sym, ap, ◌+◌, ◌↔◌,
}
use data_lineup.ErrorHandling.{
  Text, ExceptionDetails, OutputDefinition, component_definition, error_handler, RepublishOptions,
  TopicMessage, PipelineOutput, message_output, unmatched, handled_error, error_output,
  parse_warning_filter, republish_handlers, is_handled, retries_of, republished, is_nil,
  handle_error, process_pipeline_exception,
}
use data_lineup.ErrorHandling.Matched.{takes, parse_warning_filter-takes}

-- The messages that handlers publish again: one for each that has a retry left.
abbrev pub answers : ℕ → List OutputDefinition → List PipelineOutput
answers retried [] = []
answers retried (component_definition n ∷ hs) = answers retried hs
answers retried (error_handler h ∷ hs) =
    let rest = answers retried hs in
    elim h.republish [
      | none ↦ rest
      | some o ↦ if ltb retried o.max_retry then message_output o.channel ∷ rest else rest
    ]

-- The handler says that the exception is handled; a component says nothing.
abbrev pub SetsHandled : OutputDefinition → Type 0
SetsHandled (component_definition n) = Unit
SetsHandled (error_handler h) = h.set_handled ≡ true

abbrev pub NeverRepublishes : OutputDefinition → Type 0
NeverRepublishes (component_definition n) = Unit
NeverRepublishes (error_handler h) = h.republish ≡ none

republished-answers :
    (retried : ℕ) (hs : List OutputDefinition)
    → republished retried (republish_handlers hs) ≡ answers retried hs
republished-answers retried [] = refl
republished-answers retried (component_definition n ∷ hs) = republished-answers retried hs
republished-answers retried (error_handler h ∷ hs) = elim (Option-cases h.republish) [
  | inl e ↦ ground (arith, e, republished-answers retried hs)
  | inr (o, e) ↦ ground (arith, e, republished-answers retried hs)
]

is_handled-SetsHandled : (hs : List OutputDefinition) → (is_handled hs ≡ true) ↔ All SetsHandled hs
is_handled-SetsHandled [] = (λ e. tt, λ h. refl)
is_handled-SetsHandled (component_definition n ∷ hs) =
    let (only, all) = is_handled-SetsHandled hs in (λ e. (tt, only e), λ h. all h.1)
is_handled-SetsHandled (error_handler h ∷ hs) =
    let (only, all) = is_handled-SetsHandled hs in
    (λ e. (ground (arith, e), only (ground (arith, e))), λ k. ground (arith, k.0, all k.1))

is_nil-NeverRepublishes :
    (hs : List OutputDefinition) → (is_nil (republish_handlers hs) ≡ true) ↔ All NeverRepublishes hs
is_nil-NeverRepublishes [] = (λ e. tt, λ h. refl)
is_nil-NeverRepublishes (component_definition n ∷ hs) =
    let (only, all) = is_nil-NeverRepublishes hs in (λ e. (tt, only e), λ h. all h.1)
is_nil-NeverRepublishes (error_handler h ∷ hs) =
    let (only, all) = is_nil-NeverRepublishes hs in
    elim (Option-cases h.republish) [
      | inl f ↦ (λ e. (f, only (ground (arith, e, f))), λ k. ground (arith, f, all k.1))
      | inr (o, f) ↦ (λ e. absurd (ground (arith, e, f)), λ k. absurd (ground (arith, f, k.0)))
    ]

is_nil-nil : {A : Type 0} (xs : List A) → (is_nil xs ≡ false) ↔ (xs ≢ [])
is_nil-nil [] = (λ e. absurd (cc e), λ h. absurd (h refl))
is_nil-nil (x ∷ xs) = (λ e f. absurd (cc f), λ h. refl)

is_nil-republished :
    (retried : ℕ) (hs : List RepublishOptions) → is_nil hs ≡ true → republished retried hs ≡ []
is_nil-republished retried [] h = refl
is_nil-republished retried (x ∷ hs) h = cc

and_iff : (a b : Bool) → ((a && b) ≡ true) ↔ ((a ≡ true) × (b ≡ true))
and_iff a b = ground arith

or_iff : (a b : Bool) → ((a || b) ≡ true) ↔ ((a ≡ true) ⊎ (b ≡ true))
or_iff a b = ground arith

module _ (text : Text) (e : ExceptionDetails) (m : TopicMessage) where
  process-step :
      (channel : String) (handlers : List OutputDefinition)
      (rest : List (String × List OutputDefinition))
      → process_pipeline_exception text ((channel, handlers) ∷ rest) e m ≡ (
          if takes text e channel
          then handle_error channel handlers e m
          else process_pipeline_exception text rest e m)
  unfolding process_pipeline_exception
  process-step channel handlers rest =
      let read = parse_warning_filter-takes text e channel in
      elim (Option-cases (parse_warning_filter text channel false)) [
        | inl f ↦ ground (arith, f, rw f at read)
        | inr (filter, f) ↦ ground (arith, f, rw f at read)
      ]

  -- None of these channels takes the exception.
  abbrev pub Passed : List (String × List OutputDefinition) → Type 0
  Passed = All (λ o. takes text e o.0 ≡ false)

  skip-Passed :
      (before rest : List (String × List OutputDefinition))
      → Passed before
      → process_pipeline_exception text (before ++ rest) e m
        ≡ process_pipeline_exception text rest e m
  skip-Passed [] rest h = refl
  skip-Passed ((channel, handlers) ∷ before) rest h =
      ground (arith, process-step channel handlers (before ++ rest), skip-Passed before rest h.1)

  -- Whether the code takes the exception as handled.
  abbrev counts_as_handled : List OutputDefinition → Bool
  counts_as_handled handlers =
      let options = republish_handlers handlers in
      is_handled handlers && (is_nil options || not (is_nil (republished (retries_of m) options)))

  handle_error_lem :
      (channel : String) (handlers : List OutputDefinition)
      → (handle_error channel handlers e m).0
        ≡ handled_error
            (error_output channel e ∷ answers (retries_of m) handlers)
            (counts_as_handled handlers)
  unfolding handle_error
  handle_error_lem channel handlers = ground (
    arith,
    sym (republished-answers (retries_of m) handlers),
    is_nil-republished (retries_of m) (republish_handlers handlers),
  )

  counts_as_handled_iff :
      (handlers : List OutputDefinition)
      → (counts_as_handled handlers ≡ true) ↔ (
          All SetsHandled handlers
          × (All NeverRepublishes handlers ⊎ (answers (retries_of m) handlers ≢ [])))
  counts_as_handled_iff handlers =
      let options = republish_handlers handlers in
      let left = is_nil (republished (retries_of m) options) in
      let (set, is_set) = is_handled-SetsHandled handlers in
      let (never, is_never) = is_nil-NeverRepublishes handlers in
      let same = republished-answers (retries_of m) handlers in
      let (some_left, is_left) = is_nil-nil (republished (retries_of m) options) in
      (
        (λ h.
            let (a, b) = (and_iff (is_handled handlers) (is_nil options || not left)).0 h in
            (
              set a,
              elim ((or_iff (is_nil options) (not left)).0 b) [
                | inl n ↦ inl (never n)
                | inr n ↦ inr (rw same at (some_left (ground (arith, n))))
              ],
            )),
        (λ h.
            let a = is_set h.0 in
            elim h.1 [
              | inl n ↦ ground (arith, a, is_never n)
              | inr n ↦ ground (arith, a, is_left (rw same n))
            ]),
      )

  handle_error-message :
      (channel : String) (handlers : List OutputDefinition)
      → let after = (handle_error channel handlers e m).1 in
        (All NeverRepublishes handlers → after ≡ m)
        × ((All NeverRepublishes handlers → ⊥)
            → after ≡ record m { retried = some (retries_of m + 1) })
  unfolding handle_error
  handle_error-message channel handlers =
      let (never, is_never) = is_nil-NeverRepublishes handlers in
      (
        (λ h. ground (arith, is_never h)),
        (λ h. elim (Bool-cases (is_nil (republish_handlers handlers))) [
          | inl n ↦ absurd (h (never n))
          | inr n ↦ ground (arith, n)
        ]),
      )

  -- The first error channel that takes the exception answers it: one that is malformed, or all of
  -- whose fields are blank or fit. The answer is its error message, then the message itself for
  -- every handler that has a retry left. The exception counts as handled exactly if every handler
  -- of the channel says so and, where some of them publish the message again, one of those had a
  -- retry left; and the number of retries grows by one exactly where some of them do. Given that no
  -- channel before takes the exception.
  pub process_pipeline_exception-first :
      (before rest : List (String × List OutputDefinition)) (channel : String)
      (handlers : List OutputDefinition)
      → Passed before
      → takes text e channel ≡ true
      → let outputs = before ++ (channel, handlers) ∷ rest in
        let after = (process_pipeline_exception text outputs e m).1 in
        (handled : Bool) × ((process_pipeline_exception text outputs e m).0
          ≡ handled_error (error_output channel e ∷ answers (retries_of m) handlers) handled)
        × ((handled ≡ true) ↔ (
            All SetsHandled handlers
            × (All NeverRepublishes handlers ⊎ (answers (retries_of m) handlers ≢ []))))
        × (All NeverRepublishes handlers → after ≡ m)
        × ((All NeverRepublishes handlers → ⊥)
            → after ≡ record m { retried = some (retries_of m + 1) })
  process_pipeline_exception-first before rest channel handlers h t =
      let outputs = before ++ (channel, handlers) ∷ rest in
      let found : process_pipeline_exception text outputs e m ≡ handle_error channel handlers e m =
        skip-Passed before ((channel, handlers) ∷ rest) h
        ∙ rw (process-step channel handlers rest, t) in
      let (same, more) = handle_error-message channel handlers in
      (
        counts_as_handled handlers,
        ap (λ r. r.0) found ∙ handle_error_lem channel handlers,
        counts_as_handled_iff handlers,
        (λ n. ap (λ r. r.1) found ∙ same n),
        (λ n. ap (λ r. r.1) found ∙ more n),
      )

  -- The exception is left to its caller, with the message untouched, exactly if no error channel
  -- takes it.
  pub process_pipeline_exception-unmatched :
      (outputs : List (String × List OutputDefinition))
      → (process_pipeline_exception text outputs e m ≡ (unmatched, m)) ↔ Passed outputs
  unfolding process_pipeline_exception handle_error
  process_pipeline_exception-unmatched [] = ((λ h. tt), (λ h. refl))
  process_pipeline_exception-unmatched ((channel, handlers) ∷ rest) =
      elim (Bool-cases (takes text e channel)) [
        | inl t ↦ (
          (λ h. absurd (
              ground
                (arith, process-step channel handlers rest, handle_error_lem channel handlers))),
          (λ h. absurd (ground (arith, h.0))),
        )
        | inr f ↦
            let (only, whole) = process_pipeline_exception-unmatched rest in
            let same = process-step channel handlers rest ∙ rw f in
            ((λ h. (f, only (sym same ∙ h))), (λ h. same ∙ whole h.1))
      ]
