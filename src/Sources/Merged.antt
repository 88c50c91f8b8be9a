-- ===== src/Sources/Merged.antt =====
-- A fan-in that is restarted from its cursor.
use data_lineup.Base.{
  ℕ, String, false, Option, none, some, [], ◌∷◌, map, drop, string_eq, ◌==◌, ==_iff, ◌≡◌, refl,
  subst, ◌∙◌, ap, arith, Bool-cases, Option-cases, inl, inr,
}
use data_lineup.Dict.{Dict, lookup, has_key, Distinct}
use data_lineup.Inventory.{truthy}
use data_lineup.Composite.{Cursors, get_cursor}
use data_lineup.Sources.{Input, cursors_of, fanin_iterators, fanin_cursor}

-- What the code relies on of `json`, on the dictionary that it stores.
pub record IsInverse (json : Cursors) (d : Dict String (Option String)) : Type 0 where
  pub loads-dumps : json.loads (json.dumps d) ≡ d
  pub dumps_nonempty : truthy (some (json.dumps d)) ≡ some (json.dumps d)

module _ {A : Type 0} where
  -- The cursor after k items leads to what is left after them.
  abbrev pub Resumes : Input A → Type 0
  Resumes i = (k : ℕ) → i.run (i.cursor k) ≡ drop k (i.run none)

  cursors_of-absent :
      (ended : String → ℕ) (name : String) (inputs : Dict String (Input A))
      → has_key name inputs ≡ false
      → get_cursor name (cursors_of ended inputs) ≡ none
  cursors_of-absent ended name [] e = refl
  cursors_of-absent ended name ((n, i) ∷ inputs) e = elim (Option-cases (i.cursor (ended n))) [
    | inl f ↦ ground (arith, e, f, cursors_of-absent ended name inputs)
    | inr (c, f) ↦ ground (arith, e, f, cursors_of-absent ended name inputs)
  ]

  get_cursor-cursors_of :
      (ended : String → ℕ) (name : String) (i : Input A) (inputs : Dict String (Input A))
      → Distinct inputs
      → lookup name inputs ≡ some i
      → get_cursor name (cursors_of ended inputs) ≡ i.cursor (ended name)
  get_cursor-cursors_of ended name i [] h e = absurd (cc e)
  get_cursor-cursors_of ended name i ((n, j) ∷ inputs) h e = elim (Bool-cases (n == name)) [
    | inl f ↦
        let same : n ≡ name = (==_iff n name).0 f in
        let found : j ≡ i = ground (arith, e, f) in
        let cursor : j.cursor (ended n) ≡ i.cursor (ended name) =
          ap (λ x. x.cursor (ended n)) found ∙ ap (λ x. i.cursor (ended x)) same in
        let absent : has_key name inputs ≡ false = subst (λ x. has_key x inputs ≡ false) same h.0 in
        let rest = cursors_of-absent ended name inputs absent in
        elim (Option-cases (j.cursor (ended n))) [
          | inl g ↦ ground (arith, f, g, rest, cursor)
          | inr (c, g) ↦ ground (arith, f, g, cursor)
        ]
    | inr f ↦
        let rest = get_cursor-cursors_of ended name i inputs h.1 (ground (arith, e, f)) in
        elim (Option-cases (j.cursor (ended n))) [
          | inl g ↦ ground (arith, f, g, rest)
          | inr (c, g) ↦ ground (arith, f, g, rest)
        ]
  ]

  lookup-iterators :
      (cursors : Dict String (Option String)) (name : String) (i : Input A)
      (inputs : Dict String (Input A))
      → lookup name inputs ≡ some i
      → lookup name (map (λ p. (p.0, p.1.run (get_cursor p.0 cursors))) inputs)
        ≡ some (i.run (get_cursor name cursors))
  lookup-iterators cursors name i [] e = absurd (cc e)
  lookup-iterators cursors name i ((n, j) ∷ inputs) e = elim (Bool-cases (n == name)) [
    | inl f ↦
        let same : n ≡ name = (==_iff n name).0 f in
        let found : j ≡ i = ground (arith, e, f) in
        rw f (
          ap some (
            ap (λ x. x.run (get_cursor n cursors)) found
            ∙ ap (λ x. i.run (get_cursor x cursors)) same))
    | inr f ↦ rw f (lookup-iterators cursors name i inputs (ground (arith, e, f)))
  ]

  -- A fan-in that is restarted from its cursor gives each of its inputs, whatever the order in
  -- which they were merged, exactly the items that had not ended, where each input by itself
  -- resumes after the items that ended.
  pub fanin_iterators-Resumes :
      (json : Cursors) (ended : String → ℕ) (name : String) (i : Input A)
      (inputs : Dict String (Input A))
      → IsInverse json (cursors_of ended inputs)
      → Distinct inputs
      → lookup name inputs ≡ some i
      → Resumes i
      → lookup name (fanin_iterators json (some (fanin_cursor json ended inputs)) inputs)
        ≡ some (drop (ended name) (i.run none))
  unfolding fanin_iterators fanin_cursor
  fanin_iterators-Resumes json ended name i inputs lawful distinct e resumes =
      let d = cursors_of ended inputs in
      let parsed : json.loads (json.dumps d) ≡ d = lawful.loads-dumps in
      rw (lawful.dumps_nonempty, fanin_iterators)
        (rw parsed (
          lookup-iterators d name i inputs e
          ∙ ap (λ c. some (i.run c)) (get_cursor-cursors_of ended name i inputs distinct e)
          ∙ ap some (resumes (ended name))))
