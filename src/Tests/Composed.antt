-- ===== src/Tests/Composed.antt =====
-- Two static parts in a chain, with a codec for a cursor by name, and a joined run.
use Prim.Native.Char.{Char, code}
use data_lineup.Base.{
  ℕ, String, Option, none, some, List, [], ◌∷◌, string_eq, ◌==◌, ==_iff, ◌≡◌, ◌+◌, refl, arith,
  drop, length, eqb, if◌then◌else◌, ap,
}
use data_lineup.Inventory.{truthy}
use data_lineup.Dict.{Dict}
use data_lineup.Composite.{
  Part, Cursors, iterate_chained, chained_cursor, multi_as_dict, multi_from_dict, sub_cursor_of,
}
use data_lineup.Composite.Resumed.{IsLawful, iterate_chained-resumes}
use data_lineup.Composite.Joined.{
  Ended, sub_ended, root_ended, cursors_after, resumes_at, root_resumes_at, sub_cursor_of-restored,
}

-- A name with a tag before each character, and then the cursor after a tag of its own.
abbrev pub write_cursor : String → Option String → String
write_cursor String.[] none = "."
write_cursor String.[] (some s) = String.◌∷◌ ":" s
write_cursor (String.◌∷◌ c n) o = String.◌∷◌ "n" (String.◌∷◌ c (write_cursor n o))

abbrev push_name : Char → Dict String (Option String) → Dict String (Option String)
push_name c [] = []
push_name c ((n, o) ∷ d) = (String.◌∷◌ c n, o) ∷ d

abbrev pub read_cursor : String → Dict String (Option String)
read_cursor String.[] = []
read_cursor (String.◌∷◌ t String.[]) =
    if eqb (code t) 46 then ("", none) ∷ [] else ("", some "") ∷ []
read_cursor (String.◌∷◌ t (String.◌∷◌ c s)) =
    let rest = read_cursor s in
    if eqb (code t) 110 then push_name c rest else ("", some (String.◌∷◌ c s)) ∷ []

abbrev pub dump_first : Dict String (Option String) → String
dump_first [] = "{}"
dump_first ((n, o) ∷ _) = write_cursor n o

abbrev pub by_name : Cursors
by_name = record { loads = read_cursor; dumps = dump_first }

read-write_cursor : (n : String) (o : Option String) → read_cursor (write_cursor n o) ≡ (n, o) ∷ []
read-write_cursor String.[] none = refl
read-write_cursor String.[] (some String.[]) = refl
read-write_cursor String.[] (some (String.◌∷◌ c s)) = refl
read-write_cursor (String.◌∷◌ c n) o = ap (push_name c) (read-write_cursor n o)

nonempty : (s : String) → (s ≡ "" → ⊥) → truthy (some s) ≡ some s
nonempty s h = ground (arith, ==_iff s "", h)

write_cursor_nonempty :
    (n : String) (o : Option String) → truthy (some (write_cursor n o)) ≡ some (write_cursor n o)
write_cursor_nonempty String.[] none = refl
write_cursor_nonempty String.[] (some s) = nonempty (String.◌∷◌ ":" s) (λ e. absurd (cc e))
write_cursor_nonempty (String.◌∷◌ c n) o =
    nonempty (String.◌∷◌ "n" (String.◌∷◌ c (write_cursor n o))) (λ e. absurd (cc e))

pub by_name-IsLawful : IsLawful by_name
by_name-IsLawful = record { loads-dumps = read-write_cursor; dumps_nonempty = dumps_text }
  where
    dumps_text :
        (d : Dict String (Option String)) → truthy (some (dump_first d)) ≡ some (dump_first d)
    dumps_text [] = refl
    dumps_text ((n, o) ∷ d) = write_cursor_nonempty n o

-- A part of three items, whose cursor "1" stands after the second.
abbrev static_run : Option String → List ℕ
static_run none = 0 ∷ 1 ∷ 2 ∷ []
static_run (some c) = if c == "1" then 2 ∷ [] else []

abbrev part : String → Part ℕ
part name = record { name = name; run = static_run }

iterate_chained-resumes_example :
    iterate_chained by_name
      (chained_cursor by_name (some ("b", some "1")))
      (part "a" ∷ part "b" ∷ part "c" ∷ [])
    ≡ drop
        (length (iterate_chained by_name none (part "a" ∷ [])) + 2)
        (iterate_chained by_name none (part "a" ∷ part "b" ∷ part "c" ∷ []))
iterate_chained-resumes_example =
    iterate_chained-resumes by_name by_name-IsLawful (part "a" ∷ []) (part "b") (part "c" ∷ [])
      (some "1") 2 (refl, tt) (refl, tt) (omega arith) refl

abbrev ended : List Ended
ended =
    sub_ended (some "p") (some "4")
    ∷ root_ended (some "q") (some "1")
    ∷ sub_ended (some "q") (some "9")
    ∷ []

sub_cursor_of-restored_example :
    let s = multi_from_dict (multi_as_dict (cursors_after ended)) in
    (s.root_after ≡ root_resumes_at ended) × (sub_cursor_of (some "p") s ≡ resumes_at ended "p")
sub_cursor_of-restored_example = sub_cursor_of-restored ended "p"
