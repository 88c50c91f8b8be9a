-- ===== src/Tests/Codecs.antt =====
-- A lawful `Decimal` and a lawful `Codec`: numbers in unary, and a dictionary as pairs of a tag and
-- a character, read from the right.
use Prim.Native.Char.{Char, code}
use data_lineup.Base.{
  ℕ, suc, zero, String, true, false, Option, none, some, List, [], ◌∷◌, eqb, if◌then◌else◌, ◌≡◌,
  refl, ap, arith, string_eq, ==_iff,
}
use data_lineup.Inventory.{CursorDict, Codec, truthy}
use data_lineup.Inventory.Iterate.{Decimal}
use data_lineup.Inventory.Saved.{IsLawful}
use data_lineup.Inventory.Iterate.Static

abbrev unary_str : ℕ → String
unary_str zero = "|"
unary_str (suc n) = String.◌∷◌ "i" (unary_str n)

abbrev unary_count : String → ℕ
unary_count String.[] = 0
unary_count (String.◌∷◌ c s) = suc (unary_count s)

abbrev unary_int : String → Option ℕ
unary_int s = elim (unary_count s) [ zero ↦ none | suc n ↦ some n ]

abbrev pub unary : Decimal
unary = record { str = unary_str; int = unary_int }

count-str : (n : ℕ) → unary_count (unary_str n) ≡ suc n
count-str zero = refl
count-str (suc n) = ap suc (count-str n)

nonempty : (s : String) → (s ≡ "" → ⊥) → truthy (some s) ≡ some s
nonempty s h = ground (arith, ==_iff s "", h)

unary_nonempty : (n : ℕ) → truthy (some (unary_str n)) ≡ some (unary_str n)
unary_nonempty n =
    nonempty (unary_str n) (λ e. absurd (omega (arith, count-str n, ap unary_count e)))

pub unary-IsLawful : Static.IsLawful unary
unary-IsLawful = record {
  int-str = λ n. ap (λ m. elim m as (λ _. Option ℕ) [ zero ↦ none | suc k ↦ some k ]) (count-str n);
  str_nonempty = unary_nonempty;
}

abbrev with_first : Char → List String → List String
with_first c [] = []
with_first c (s ∷ ss) = String.◌∷◌ c s ∷ ss

-- What one pair adds to the dictionary read from the pairs after it.
abbrev add_pair : Char → Char → CursorDict → CursorDict
add_pair tag c d =
    if eqb (code tag) 97
    then record d { a = some "" }
    else if eqb (code tag) 98
    then record d { a = elim d.a [ none ↦ none | some s ↦ some (String.◌∷◌ c s) ] }
    else if eqb (code tag) 112
    then record d { p = some [] }
    else if eqb (code tag) 113
    then record d { p = elim d.p [ none ↦ none | some ss ↦ some ("" ∷ ss) ] }
    else record d { p = elim d.p [ none ↦ none | some ss ↦ some (with_first c ss) ] }

abbrev read_pairs : String → CursorDict
read_pairs String.[] = record { a = none; p = none }
read_pairs (String.◌∷◌ tag String.[]) = record { a = none; p = none }
read_pairs (String.◌∷◌ tag (String.◌∷◌ c s)) = add_pair tag c (read_pairs s)

abbrev pair : Char → Char → String → String
pair tag c s = String.◌∷◌ tag (String.◌∷◌ c s)

-- The characters of a text, each under the tag.
abbrev write_text : Char → String → String → String
write_text tag String.[] rest = rest
write_text tag (String.◌∷◌ c s) rest = pair tag c (write_text tag s rest)

abbrev write_texts : List String → String
write_texts [] = pair "p" "." ""
write_texts (s ∷ ss) = write_text "r" s (pair "q" "." (write_texts ss))

abbrev write_partials : Option (List String) → String
write_partials none = ""
write_partials (some ss) = write_texts ss

abbrev write_after : Option String → String → String
write_after none rest = rest
write_after (some s) rest = write_text "b" s (pair "a" "." rest)

abbrev pub pairs : Codec
pairs = record {
  sorted = λ xs. xs;
  dumps = λ d. String.◌∷◌ "<" (write_after d.a (write_partials d.p));
  loads = λ raw. elim raw [
    | String.[] ↦ none
    | String.◌∷◌ c s ↦
        some (record { is_dict = true; v = some 1; has_other_keys = false; fields = read_pairs s })
  ];
}

read-text_q :
    (s rest : String) (a : Option String) (ss : List String)
    → read_pairs rest ≡ record { a = a; p = some ss }
    → read_pairs (write_text "r" s (pair "q" "." rest)) ≡ record { a = a; p = some (s ∷ ss) }
read-text_q String.[] rest a ss e = rw e
read-text_q (String.◌∷◌ c s) rest a ss e = rw (read-text_q s rest a ss e)

read-texts : (ss : List String) → read_pairs (write_texts ss) ≡ record { a = none; p = some ss }
read-texts [] = refl
read-texts (s ∷ ss) = read-text_q s (write_texts ss) none ss (read-texts ss)

read-partials :
    (p : Option (List String)) → read_pairs (write_partials p) ≡ record { a = none; p = p }
read-partials none = refl
read-partials (some ss) = read-texts ss

read-after :
    (s rest : String) (p : Option (List String))
    → read_pairs rest ≡ record { a = none; p = p }
    → read_pairs (write_text "b" s (pair "a" "." rest)) ≡ record { a = some s; p = p }
read-after String.[] rest p e = rw e
read-after (String.◌∷◌ c s) rest p e = rw (read-after s rest p e)

read-write :
    (a : Option String) (p : Option (List String))
    → read_pairs (write_after a (write_partials p)) ≡ record { a = a; p = p }
read-write none p = read-partials p
read-write (some s) p = read-after s (write_partials p) p (read-partials p)

pub pairs-IsLawful : IsLawful pairs
pairs-IsLawful = record {
  elem-sorted = λ c xs. refl;
  length-sorted = λ xs. refl;
  loads-dumps = λ d. rw (read-write d.a d.p);
  dumps_nonempty = λ d. nonempty (pairs.dumps d) (λ e. absurd (omega (arith, ap unary_count e)));
}
