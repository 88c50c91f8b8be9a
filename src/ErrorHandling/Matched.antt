-- ===== src/ErrorHandling/Matched.antt =====
-- Which exceptions the text after `error:` of a channel's name takes, read off its fields.
use data_lineup.Base.{
  ℕ, zero, suc, String, Bool, true, false, not, ◌&&◌, ◌||◌, Option, none, some, List, [], ◌∷◌, map,
  string_eq, eqb, leb, length, ◌≡◌, refl, ◌∙◌, ap, ◌⊎◌, inl, inr, arith, Option-cases, Bool-cases,
}
use data_lineup.Inventory.{is_empty}
use data_lineup.ErrorHandling.{
  ℤ, pos, negsuc, Text, ExceptionDetails, ExceptionFilter, compile_pattern, parse_lineno, pad,
  build_filter, parse_warning_filter, does_error_match, is_match, begins_with,
}

-- The n-th of the parts, and the empty text after the last.
abbrev pub part : ℕ → List String → String
part n [] = ""
part zero (p ∷ ps) = p
part (suc n) (p ∷ ps) = part n ps

-- A field that is left blank restricts nothing.
abbrev pub blank_or : (String → Bool) → String → Bool
blank_or test s = is_empty s || test s

abbrev pub is_number : Option ℤ → Bool
is_number none = false
is_number (some (pos n)) = true
is_number (some (negsuc n)) = false

-- The line 0 stands for any.
abbrev pub is_line : ℕ → Option ℤ → Bool
is_line lineno none = false
is_line lineno (some (pos n)) = eqb n 0 || eqb lineno n
is_line lineno (some (negsuc n)) = false

module _ (text : Text) where
  open text use {split_colon, strip, contains_dot, after_last_dot, int, compiles, matches}

  abbrev pub field : ℕ → String → String
  field n channel = strip (part n (split_colon channel))

  -- The fields are the action, the message, the type, the module and the line.
  abbrev pub is_well_formed : String → Bool
  is_well_formed channel =
      leb (length (split_colon channel)) 5
      && (blank_or compiles (field 1 channel)
          && (blank_or compiles (field 2 channel)
              && (blank_or compiles (field 3 channel)
                  && blank_or (λ s. is_number (int s)) (field 4 channel))))

  -- A type also matches by its name without the modules before it.
  abbrev by_name : ExceptionDetails → String → Bool
  by_name e p =
      matches p e.exception_type
      || (contains_dot e.exception_type && matches p (after_last_dot e.exception_type))

  abbrev pub is_fitting : ExceptionDetails → String → Bool
  is_fitting e channel =
      blank_or (λ p. matches p e.message) (field 1 channel)
      && (blank_or (by_name e) (field 2 channel)
          && (blank_or (λ p. matches p e.module_name) (field 3 channel)
              && blank_or (λ s. is_line e.lineno (int s)) (field 4 channel)))

  -- An error channel that takes the exception: it is malformed, or all of its fields fit.
  abbrev pub takes : ExceptionDetails → String → Bool
  takes e channel =
      begins_with "error:" channel && (not (is_well_formed channel) || is_fitting e channel)

  compile_pattern-cases :
      (p : String)
      → ((compile_pattern text p ≡ none) × (blank_or compiles p ≡ false))
        ⊎ ((o : Option String) × (compile_pattern text p ≡ some o)
            × (blank_or compiles p ≡ true)
            × ((test : String → Bool) → is_match text test o ≡ blank_or test p))
  compile_pattern-cases p = elim (Bool-cases (is_empty p)) [
    | inl e ↦ inr (none, ground (arith, e), ground (arith, e), λ test. ground (arith, e))
    | inr e ↦ elim (Bool-cases (compiles p)) [
      | inl f ↦ inr (some p, ground (arith, e, f), ground (arith, e, f), λ test. ground (arith, e))
      | inr f ↦ inl (ground (arith, e, f), ground (arith, e, f))
    ]
  ]

  parse_lineno-cases :
      (s : String)
      → ((parse_lineno text s ≡ none) × (blank_or (λ s. is_number (int s)) s ≡ false))
        ⊎ ((n : ℕ) × (parse_lineno text s ≡ some n)
            × (blank_or (λ s. is_number (int s)) s ≡ true)
            × ((k : ℕ) → (eqb n 0 || eqb k n) ≡ blank_or (λ s. is_line k (int s)) s))
  parse_lineno-cases s = elim (Bool-cases (is_empty s)) [
    | inl e ↦ inr (0, ground (arith, e), ground (arith, e), λ k. ground (arith, e))
    | inr e ↦ elim (Option-cases (int s)) [
      | inl f ↦ inl (ground (arith, e, f), ground (arith, e, f))
      | inr (pos n, f) ↦
          inr (n, ground (arith, e, f), ground (arith, e, f), λ k. ground (arith, e, f))
      | inr (negsuc n, f) ↦ inl (ground (arith, e, f), ground (arith, e, f))
    ]
  ]

  -- More than five parts are refused, and fewer are filled up.
  pad-cases :
      (ps : List String)
      → ((pad text 5 ps ≡ none) × (leb (length ps) 5 ≡ false))
        ⊎ ((pad text 5 ps ≡ some (part 0 ps ∷ part 1 ps ∷ part 2 ps ∷ part 3 ps ∷ part 4 ps ∷ []))
            × (leb (length ps) 5 ≡ true))
  pad-cases [] = inr (refl, refl)
  pad-cases (a ∷ []) = inr (refl, refl)
  pad-cases (a ∷ b ∷ []) = inr (refl, refl)
  pad-cases (a ∷ b ∷ c ∷ []) = inr (refl, refl)
  pad-cases (a ∷ b ∷ c ∷ d ∷ []) = inr (refl, refl)
  pad-cases (a ∷ b ∷ c ∷ d ∷ e ∷ []) = inr (refl, refl)
  pad-cases (a ∷ b ∷ c ∷ d ∷ e ∷ f ∷ ps) = inl (refl, ground arith)

  -- Does this filter, or the lack of one, take the exception?
  abbrev filter_takes : ExceptionDetails → Option ExceptionFilter → Bool
  filter_takes e none = true
  filter_takes e (some f) = does_error_match text e f

  build_filter-takes :
      (e : ExceptionDetails) (a m c d l : String)
      → filter_takes e (build_filter text false (a ∷ m ∷ c ∷ d ∷ l ∷ [])) ≡ (
          not (
            blank_or compiles m
            && (blank_or compiles c
                && (blank_or compiles d && blank_or (λ s. is_number (int s)) l)))
          || (blank_or (λ p. matches p e.message) m
              && (blank_or (by_name e) c
                  && (blank_or (λ p. matches p e.module_name) d
                      && blank_or (λ s. is_line e.lineno (int s)) l))))
  unfolding does_error_match
  build_filter-takes e a m c d l =
      let built = build_filter text false (a ∷ m ∷ c ∷ d ∷ l ∷ []) in
      let refused = λ (f : built ≡ none). ap (filter_takes e) f in
      elim (parse_lineno-cases l) [
        | inl (f, g) ↦ refused (ground (arith, f)) ∙ ground (arith, g)
        | inr (n, f, g, line) ↦ elim (compile_pattern-cases m) [
          | inl (f1, g1) ↦ refused (ground (arith, f, f1)) ∙ ground (arith, g1)
          | inr (m', f1, g1, t1) ↦ elim (compile_pattern-cases c) [
            | inl (f2, g2) ↦ refused (ground (arith, f, f1, f2)) ∙ ground (arith, g2)
            | inr (c', f2, g2, t2) ↦ elim (compile_pattern-cases d) [
              | inl (f3, g3) ↦ refused (ground (arith, f, f1, f2, f3)) ∙ ground (arith, g3)
              | inr (d', f3, g3, t3) ↦
                  let whole : built
                      ≡ some (record {
                        message_pattern = m';
                        exception_type = c';
                        module_pattern = d';
                        lineno = n;
                      }) =
                    ground (arith, f, f1, f2, f3) in
                  ap (filter_takes e) whole
                  ∙ rw
                      (
                        t1 (λ p. matches p e.message),
                        t2 (by_name e),
                        t3 (λ p. matches p e.module_name),
                        line e.lineno,
                        g1,
                        g2,
                        g3,
                        g,
                      )
                      refl
            ]
          ]
        ]
      ]

  pub parse_warning_filter-takes :
      (e : ExceptionDetails) (channel : String)
      → filter_takes e (parse_warning_filter text channel false)
        ≡ (not (is_well_formed channel) || is_fitting e channel)
  unfolding parse_warning_filter
  parse_warning_filter-takes e channel = elim (pad-cases (split_colon channel)) [
    | inl (f, g) ↦ ap (filter_takes e) (refused f) ∙ ground (arith, g)
    | inr (f, g) ↦
        ap (filter_takes e) (parsed f)
        ∙ rw g (
            build_filter-takes e (field 0 channel) (field 1 channel) (field 2 channel)
              (field 3 channel) (field 4 channel))
  ]
    where
      parsed :
          pad text 5 (split_colon channel)
            ≡ some (
                part 0 (split_colon channel)
                ∷ part 1 (split_colon channel)
                ∷ part 2 (split_colon channel)
                ∷ part 3 (split_colon channel)
                ∷ part 4 (split_colon channel)
                ∷ [])
          → parse_warning_filter text channel false
            ≡ build_filter text false (
                field 0 channel
                ∷ field 1 channel
                ∷ field 2 channel
                ∷ field 3 channel
                ∷ field 4 channel
                ∷ [])
      parsed f =
          ap
            (λ o. elim o as (λ _. Option ExceptionFilter) [
              | none ↦ none
              | some parts ↦ build_filter text false (map strip parts)
            ])
            f

      refused :
          pad text 5 (split_colon channel) ≡ none → parse_warning_filter text channel false ≡ none
      refused f =
          ap
            (λ o. elim o as (λ _. Option ExceptionFilter) [
              | none ↦ none
              | some parts ↦ build_filter text false (map strip parts)
            ])
            f
