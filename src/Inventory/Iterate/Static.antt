-- ===== src/Inventory/Iterate/Static.antt =====
-- inventories/static.py under `Inventory.iterate`: every item, in order; with `repeat`, forever.
use native.Mathlib.Nat.{zero-add}
use mathlib.Core.List.{append-nil, append_assoc}
use data_lineup.Base.{
  ℕ, zero, suc, ◌+◌, ◌-◌, ◌%◌, ◌≤◌, String, true, false, Option, none, some, List, [], ◌∷◌, ◌++◌,
  ◌≡◌, refl, ap, sym, ◌∙◌, arith, length, drop,
}
use data_lineup.Inventory.{Item, truthy}
use data_lineup.Inventory.Iterate.{
  batch, returned, out_of_fuel, iterate_from, next_after, iterate, Decimal, numbered, number_from,
  static_next_batch, static_source,
}
use data_lineup.Inventory.Iterate.Steps.{iterate_from-nil, iterate_from-cons}

-- What the code relies on of `str` and `int`.
pub record IsLawful (decimal : Decimal) : Type 0 where
  pub int-str : (n : ℕ) → decimal.int (decimal.str n) ≡ some n
  pub str_nonempty : (n : ℕ) → truthy (some (decimal.str n)) ≡ some (decimal.str n)

drop_all {ℓ} : {A : Type ℓ} (n : ℕ) (xs : List A) → length xs ≤ n → drop n xs ≡ []
drop_all zero [] h = refl
drop_all (suc n) [] h = refl
drop_all zero (x ∷ xs) h = absurd (omega arith)
drop_all (suc n) (x ∷ xs) h = drop_all n xs (omega arith)

length-drop {ℓ} : {A : Type ℓ} (n : ℕ) (xs : List A) → length (drop n xs) ≡ length xs - n
length-drop zero xs = omega arith
length-drop (suc n) [] = omega arith
length-drop (suc n) (x ∷ xs) = omega (arith, length-drop n xs)

module _ (decimal : Decimal) (lawful : IsLawful decimal) {Args : Type 0} where
  open lawful use {int-str, str_nonempty}

  next_after-number_from :
      (i : Item Args) (n : ℕ) (xs : List Args)
      → i.cursor ≡ some (decimal.str n)
      → next_after i (number_from decimal (n + 1) xs) ≡ some (decimal.str (n + length xs))
  next_after-number_from i n [] e = ground arith
  next_after-number_from i n (x ∷ xs) e =
      ground (arith, next_after-number_from (numbered decimal (n + 1) x) (n + 1) xs)

  module _ (items : List Args) where
    source_at :
        (n call : ℕ)
        → static_source decimal items false call (some (decimal.str n))
          ≡ batch (number_from decimal (n + 1) (drop (n + 1) items))
    unfolding static_next_batch
    source_at n call = ground (arith, int-str n)

    last_batch :
        (f call n : ℕ) (out : List (Item Args))
        → length items ≤ n + 1
        → iterate_from (static_source decimal items false) (suc f) call 0 (some (decimal.str n)) out
          ≡ returned out
    last_batch f call n out h =
        iterate_from-nil (static_source decimal items false) f call 0 (some (decimal.str n)) out (
          source_at n call
          ∙ ap (λ l. batch (number_from decimal (n + 1) l)) (drop_all (n + 1) items h))

    batch_and_last :
        (f call b : ℕ) (after : Option String) (out : List (Item Args)) (xs : List Args)
        → length xs ≡ length items - b
        → static_source decimal items false call after ≡ batch (number_from decimal b xs)
        → iterate_from (static_source decimal items false) (suc (suc f)) call 0 after out
          ≡ returned (out ++ number_from decimal b xs)
    batch_and_last f call b after out [] h e =
        iterate_from-nil (static_source decimal items false) (suc f) call 0 after out e
        ∙ ap returned (sym (append-nil out))
    batch_and_last f call b after out (x ∷ xs) h e =
        iterate_from-cons (static_source decimal items false) (suc f) call 0 after out _
          (number_from decimal (b + 1) xs) e
        ∙ rw (next_after-number_from (numbered decimal b x) b xs refl)
            (last_batch f (call + 1) (b + length xs) _ (omega arith))

    -- A static inventory that does not repeat yields, within two calls, all of its items in
    -- order; resumed after item `n` it yields exactly those behind it. Given that `int` reads
    -- back what `str` writes.
    pub static-iterate :
        (f : ℕ)
        → (iterate (static_source decimal items false) (suc (suc f)) none
            ≡ returned (number_from decimal 0 items))
          × ((n : ℕ)
              → iterate (static_source decimal items false) (suc (suc f)) (some (decimal.str n))
                ≡ returned (number_from decimal (n + 1) (drop (n + 1) items)))
    unfolding iterate static_next_batch
    static-iterate f = (
      batch_and_last f 0 0 none [] items (omega arith) refl,
      λ n.
          batch_and_last f 0 (n + 1) (some (decimal.str n)) [] (drop (n + 1) items)
            (length-drop (n + 1) items) (source_at n 0),
    )

  module _ (x : Args) (xs : List Args) where
    -- The whole inventory, `n` times over.
    abbrev pub rounds : ℕ → List (Item Args)
    rounds zero = []
    rounds (suc n) = number_from decimal 0 (x ∷ xs) ++ rounds n

    begin_again :
        (call : ℕ)
        → static_source decimal (x ∷ xs) true call (some (decimal.str (length xs)))
          ≡ batch (number_from decimal 0 (x ∷ xs))
    unfolding static_next_batch
    begin_again call = ground (
      arith,
      int-str (length xs),
      str_nonempty (length xs),
      let e : (length xs + 1) % suc (length xs) ≡ 0 = grind arith in e,
    )

    next_round :
        (f call : ℕ) (after : Option String) (out : List (Item Args))
        → static_source decimal (x ∷ xs) true call after ≡ batch (number_from decimal 0 (x ∷ xs))
        → iterate_from (static_source decimal (x ∷ xs) true) f call 0 after out
          ≡ out_of_fuel (out ++ rounds f)
    unfolding iterate_from
    next_round zero call after out e = ap out_of_fuel (sym (append-nil out))
    next_round (suc f) call after out e =
        iterate_from-cons (static_source decimal (x ∷ xs) true) f call 0 after out
          (numbered decimal 0 x) (number_from decimal 1 xs) e
        ∙ rw (next_after-number_from (numbered decimal 0 x) 0 xs refl) (
            next_round f (call + 1) (some (decimal.str (0 + length xs))) _
              (rw zero-add (begin_again (call + 1)))
            ∙ ap out_of_fuel (append_assoc out (number_from decimal 0 (x ∷ xs)) (rounds f)))

    -- A static inventory that repeats never ends: after any number of calls it has yielded the
    -- whole inventory that many times, in order. It has an item, and `int` reads back the
    -- non-empty text that `str` writes.
    pub static-iterate_repeat :
        (f : ℕ) → iterate (static_source decimal (x ∷ xs) true) f none ≡ out_of_fuel (rounds f)
    unfolding iterate static_next_batch
    static-iterate_repeat f = next_round f 0 none [] refl
