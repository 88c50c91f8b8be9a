-- ===== src/Composite/Resumed.antt =====
-- A chained inventory that is restarted from its cursor.
use mathlib.Core.List.{append_assoc}
use data_lineup.Base.{
  ℕ, zero, suc, ◌+◌, ◌≤◌, String, false, Option, none, some, List, [], ◌∷◌, ◌++◌, map, string_eq,
  ◌==◌, ==_iff, ==_self, ◌≡◌, refl, sym, ◌∙◌, ap, arith, drop, length,
}
use data_lineup.Dict.{Dict}
use data_lineup.Inventory.{truthy}
use data_lineup.Composite.{
  Part, Cursors, first_named, start_inventories, get_cursor, run_parts, iterate_chained,
  chained_cursor,
}

-- What the code relies on of `json`.
pub record IsLawful (json : Cursors) : Type 0 where
  pub loads-dumps :
      (n : String) (c : Option String) → json.loads (json.dumps ((n, c) ∷ [])) ≡ (n, c) ∷ []
  pub dumps_nonempty :
      (d : Dict String (Option String)) → truthy (some (json.dumps d)) ≡ some (json.dumps d)

module _ {A : Type 0} where
  -- No part has this name.
  abbrev pub Unnamed : String → List (Part A) → Type 0
  Unnamed n [] = Unit
  Unnamed n (p ∷ ps) = ((p.name == n) ≡ false) × Unnamed n ps

  first_named-skips :
      (n : String) (c : Option String) (before : List (Part A)) (p : Part A) (later : List (Part A))
      → Unnamed n before
      → p.name ≡ n
      → first_named ((n, c) ∷ []) (before ++ p ∷ later) ≡ some (p ∷ later)
  first_named-skips n c [] p later u e = ground (arith, e, ==_iff n p.name)
  first_named-skips n c (q ∷ before) p later (h, u) e =
      ground (arith, first_named-skips n c before p later u e, h, ==_iff n q.name, ==_iff q.name n)

  run_parts-fresh :
      (n : String) (c : Option String) (ps : List (Part A))
      → Unnamed n ps
      → run_parts ((n, c) ∷ []) ps ≡ run_parts [] ps
  run_parts-fresh n c [] u = refl
  run_parts-fresh n c (q ∷ ps) (h, u) =
      let other : (n == q.name) ≡ false = ground (arith, h, ==_iff n q.name, ==_iff q.name n) in
      let fresh : get_cursor q.name ((n, c) ∷ []) ≡ none = ground (arith, other) in
      ap
        (λ (r : List (String × A)).
          map (λ i. (q.name, i)) (q.run (get_cursor q.name ((n, c) ∷ []))) ++ r)
        (run_parts-fresh n c ps u)
      ∙ ap (λ (g : Option String). map (λ i. (q.name, i)) (q.run g) ++ run_parts [] ps) fresh

  run_parts-append :
      (d : Dict String (Option String)) (ps qs : List (Part A))
      → run_parts d (ps ++ qs) ≡ run_parts d ps ++ run_parts d qs
  run_parts-append d [] qs = refl
  run_parts-append d (p ∷ ps) qs = rw (run_parts-append d ps qs) (
      sym (
        append_assoc (map (λ i. (p.name, i)) (p.run (get_cursor p.name d))) (run_parts d ps)
          (run_parts d qs)))

drop-after {ℓ} : {B : Type ℓ} (xs ys : List B) (k : ℕ) → drop (length xs + k) (xs ++ ys) ≡ drop k ys
drop-after [] ys k = let z : 0 + k ≡ k = omega arith in rw z refl
drop-after (x ∷ xs) ys k = rw (shift (length xs) k) (drop-after xs ys k)
  where
    shift : (a b : ℕ) → suc a + b ≡ suc (a + b)
    shift a b = omega arith

drop-append {ℓ} :
    {B : Type ℓ} (xs ys : List B) (k : ℕ) → k ≤ length xs → drop k (xs ++ ys) ≡ drop k xs ++ ys
drop-append xs ys zero h = refl
drop-append [] ys (suc k) h = absurd (omega (arith, h))
drop-append (x ∷ xs) ys (suc k) h = drop-append xs ys k (omega (arith, h))

drop-map {ℓ κ} :
    {B : Type ℓ} {C : Type κ} (f : B → C) (k : ℕ) (xs : List B)
    → drop k (map f xs) ≡ map f (drop k xs)
drop-map f zero xs = refl
drop-map f (suc k) [] = refl
drop-map f (suc k) (x ∷ xs) = drop-map f k xs

length-map {ℓ κ} :
    {B : Type ℓ} {C : Type κ} (f : B → C) (xs : List B) → length (map f xs) ≡ length xs
length-map f [] = refl
length-map f (x ∷ xs) = ap suc (length-map f xs)

module _ {A : Type 0} (json : Cursors) (lawful : IsLawful json) where
  first_named-none : (ps : List (Part A)) → first_named [] ps ≡ none
  first_named-none [] = refl
  first_named-none (p ∷ ps) = first_named-none ps

  iterate_chained-fresh : (ps : List (Part A)) → iterate_chained json none ps ≡ run_parts [] ps
  unfolding iterate_chained
  iterate_chained-fresh ps = ground (arith, first_named-none ps)

  iterate_chained_lem :
      (n : String) (c : Option String) (ps : List (Part A))
      → iterate_chained json (some (json.dumps ((n, c) ∷ []))) ps
        ≡ run_parts ((n, c) ∷ []) (start_inventories ((n, c) ∷ []) ps)
  unfolding iterate_chained
  iterate_chained_lem n c ps =
      ground (arith, lawful.dumps_nonempty ((n, c) ∷ []), lawful.loads-dumps n c)

  -- A run that is restarted from the cursor of one of its parts yields exactly what the first run
  -- yields after all the parts before that one and the first `k` items of it. Given that no other
  -- part has its name and that the part itself, from its cursor on, leaves out its first `k` items.
  pub iterate_chained-resumes :
      (before : List (Part A)) (p : Part A) (later : List (Part A)) (c : Option String) (k : ℕ)
      → Unnamed p.name before
      → Unnamed p.name later
      → k ≤ length (p.run none)
      → p.run c ≡ drop k (p.run none)
      → iterate_chained json (chained_cursor json (some (p.name, c))) (before ++ p ∷ later)
        ≡ drop
            (length (iterate_chained json none before) + k)
            (iterate_chained json none (before ++ p ∷ later))
  unfolding chained_cursor
  iterate_chained-resumes before p later c k u w h e =
      let d : Dict String (Option String) = (p.name, c) ∷ [] in
      let tag : A → String × A = λ i. (p.name, i) in
      let first = map tag (p.run none) in
      let rest = run_parts [] later in
      let own : get_cursor p.name d ≡ c = ground (arith, ==_self p.name) in
      let start : start_inventories d (before ++ p ∷ later) ≡ p ∷ later =
        ground (arith, first_named-skips p.name c before p later u refl) in
      let kept : k ≤ length first = rw (length-map tag (p.run none)) h in
      iterate_chained_lem p.name c (before ++ p ∷ later)
      ∙ ap (run_parts d) start
      ∙ ap (λ (g : Option String). map tag (p.run g) ++ run_parts d later) own
      ∙ rw
          (
            e,
            run_parts-fresh p.name c later w,
            ← drop-map tag k (p.run none),
            ← drop-append first rest k kept,
            ← drop-after (run_parts [] before) (first ++ rest) k,
            ← run_parts-append [] before (p ∷ later),
            iterate_chained-fresh before,
            iterate_chained-fresh (before ++ p ∷ later),
          )
          refl
