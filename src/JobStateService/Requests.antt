-- ===== src/JobStateService/Requests.antt =====
-- The keys of a request and the cursors they stand for, for one format.
use data_lineup.Base.{
  String, true, Option, none, some, List, [], ◌∷◌, ◌==◌, ==_iff, ==_self, string_eq, if◌then◌else◌,
  or_else, ◌≡◌, refl, ◌∙◌, ap, arith, Bool-cases, Option-cases, inl, inr, ◌⊎◌,
}
use data_lineup.Dict.{
  Dict, lookup, insert, keys, elem, has_key, Distinct, lookup-insert, has_key-lookup,
  has_key-insert,
}
use data_lineup.JobStateService.{
  CursorFormat, format, FormattedRequest, extend_request, from_cursors, all_cursors, map_key,
  map_states, States,
}

-- No two of the cursors have the same key.
abbrev pub IsInjectiveOn : List String → (String → String) → Type 0
IsInjectiveOn cursors f =
    (a b : String) → elem a cursors ≡ true → elem b cursors ≡ true → f a ≡ f b → a ≡ b

module _ (hexdigest : String → String) (form : CursorFormat) where
  abbrev key_of : String → String
  key_of c = format hexdigest form c

  lookup-extend_request :
      (k : String) (cursors : List String) (r : FormattedRequest) (c : String)
      → lookup k (extend_request hexdigest (form ∷ []) cursors r).by_formatted ≡ some c
      → ((elem c cursors ≡ true) × (key_of c ≡ k)) ⊎ (lookup k r.by_formatted ≡ some c)
  lookup-extend_request k [] r c e = inr e
  lookup-extend_request k (a ∷ cursors) r c e =
      let r' : FormattedRequest = record {
        by_cursor = insert a (key_of a ∷ []) r.by_cursor;
        by_formatted = insert (key_of a) a r.by_formatted;
      } in
      elim (lookup-extend_request k cursors r' c e) [
        | inl (here, same) ↦ inl (ground (arith, here), same)
        | inr old ↦ ground (
          arith,
          old,
          lookup-insert (key_of a) k a r.by_formatted,
          ==_iff a c,
          ==_iff (key_of a) k,
        )
      ]

  has_key-extend_request :
      (k : String) (cursors : List String) (r : FormattedRequest)
      → has_key k r.by_formatted ≡ true
      → has_key k (extend_request hexdigest (form ∷ []) cursors r).by_formatted ≡ true
  has_key-extend_request k [] r e = e
  has_key-extend_request k (a ∷ cursors) r e =
      has_key-extend_request k cursors
        (record {
          by_cursor = insert a (key_of a ∷ []) r.by_cursor;
          by_formatted = insert (key_of a) a r.by_formatted;
        })
        (ground (arith, e, has_key-insert (key_of a) k a r.by_formatted))

  has_key-requested :
      (c : String) (cursors : List String) (r : FormattedRequest)
      → elem c cursors ≡ true
      → has_key (key_of c) (extend_request hexdigest (form ∷ []) cursors r).by_formatted ≡ true
  has_key-requested c [] r e = absurd (cc e)
  has_key-requested c (a ∷ cursors) r e =
      let r' : FormattedRequest = record {
        by_cursor = insert a (key_of a ∷ []) r.by_cursor;
        by_formatted = insert (key_of a) a r.by_formatted;
      } in
      elim (Bool-cases (a == c)) [
        | inl same ↦ has_key-extend_request (key_of c) cursors r' (
            ground (
              arith,
              same,
              ==_iff a c,
              ==_self (key_of c),
              has_key-insert (key_of a) (key_of c) a r.by_formatted,
            ))
        | inr other ↦ has_key-requested c cursors r' (ground (arith, e, other))
      ]

elem-keys : {V : Type 0} (k : String) (d : Dict String V) → elem k (keys d) ≡ has_key k d
elem-keys k [] = refl
elem-keys k ((j, v) ∷ d) = ground (arith, elem-keys k d)

module _ (hexdigest : String → String) (form : CursorFormat) (cursors : List String) where
  abbrev pub request : FormattedRequest
  request = from_cursors hexdigest (form ∷ []) cursors

  map_key-back :
      (k c : String)
      → map_key request k ≡ some c
      → (elem c cursors ≡ true) × (format hexdigest form c ≡ k)
  map_key-back k c e =
      elim (lookup-extend_request hexdigest form k cursors
        (record { by_cursor = []; by_formatted = [] }) c e) [
          | inl there ↦ there
          | inr old ↦ absurd (cc old)
        ]

  pub elem-all_cursors :
      (c : String)
      → elem c cursors ≡ true
      → elem (format hexdigest form c) (all_cursors request) ≡ true
  elem-all_cursors c e =
      elem-keys (format hexdigest form c) request.by_formatted
      ∙ has_key-requested hexdigest form c cursors (record { by_cursor = []; by_formatted = [] }) e

  module _ (inj : IsInjectiveOn cursors (format hexdigest form)) where
    pub map_key-requested :
        (c : String) → elem c cursors ≡ true → map_key request (format hexdigest form c) ≡ some c
    map_key-requested c e = elim (Option-cases (map_key request (format hexdigest form c))) [
      | inl lost ↦ absurd (
          ground (
            arith,
            lost,
            has_key-lookup (format hexdigest form c) request.by_formatted,
            has_key-requested hexdigest form c cursors
                (record { by_cursor = []; by_formatted = [] }) e,
          ))
      | inr (a, found) ↦
          let (there, same) = map_key-back (format hexdigest form c) a found in
          found ∙ ap some (inj a c there e same)
    ]

    -- What a response holds for a cursor that was asked for.
    abbrev pub answer : {S : Type 0} → String → States S → Option S
    answer c states = elim (lookup (format hexdigest form c) states) [ none ↦ none | some v ↦ v ]

    pub lookup-map_states :
        {S : Type 0} (c : String) (states : States S) (mapped : Dict String S)
        → Distinct states
        → lookup c (map_states request states mapped)
          ≡ or_else (if elem c cursors then answer c states else none) (lookup c mapped)
    lookup-map_states c [] mapped d = ground arith
    lookup-map_states c ((k, none) ∷ states) mapped d = ground (
      arith,
      lookup-map_states c states mapped d.1,
      has_key-lookup k states,
      d.0,
      ==_iff k (format hexdigest form c),
    )
    lookup-map_states c ((k, some v) ∷ states) mapped d = elim (Option-cases (map_key request k)) [
      | inl lost ↦ ground (
        arith,
        lost,
        lookup-map_states c states mapped d.1,
        map_key-requested c,
        ==_iff k (format hexdigest form c),
      )
      | inr (a, found) ↦ ground (
        arith,
        found,
        lookup-map_states c states (insert a v mapped) d.1,
        lookup-insert a c v mapped,
        map_key-requested c,
        map_key-back k a found,
        has_key-lookup k states,
        d.0,
        ==_iff k (format hexdigest form c),
        ==_iff a c,
      )
    ]
