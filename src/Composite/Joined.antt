-- ===== src/Composite/Joined.antt =====
-- The cursors of a joined inventory over any sequence of items that end, and after a restart.
use data_lineup.Base.{
  String, Option, none, some, List, [], ◌∷◌, string_eq, ◌==◌, if◌then◌else◌, ◌≡◌, refl, ◌∙◌, ap,
  arith, List-cases, inl, inr,
}
use data_lineup.Dict.{
  lookup, Distinct, lookup-insert, lookup-remove, insert-Distinct, remove-Distinct,
}
use data_lineup.Composite.{
  MultiCursorsState, multi_as_dict, multi_from_dict, process_root, process_sub, sub_cursor_of,
}

-- The end of an item of a sub-inventory, or of a root item, each with the two cursors it reads.
pub data Ended : Type 0 where
  sub_ended : (parent_cursor sub_cursor : Option String) → Ended
  root_ended : (item_cursor root_cursor : Option String) → Ended

abbrev pub end_one : Ended → MultiCursorsState → MultiCursorsState
end_one (sub_ended p c) s = process_sub p c s
end_one (root_ended i c) s = process_root i c s

-- The latest stands first.
abbrev pub cursors_after : List Ended → MultiCursorsState
cursors_after [] = record { root_after = none; partials = [] }
cursors_after (x ∷ xs) = end_one x (cursors_after xs)

-- Where the sub-inventory of a parent resumes: at its last cursor since the parent last ended.
abbrev pub resumes_at : List Ended → String → Option String
resumes_at [] c = none
resumes_at (sub_ended (some p) (some s) ∷ xs) c = if p == c then some s else resumes_at xs c
resumes_at (sub_ended none s ∷ xs) c = resumes_at xs c
resumes_at (sub_ended (some p) none ∷ xs) c = resumes_at xs c
resumes_at (root_ended (some i) r ∷ xs) c = if i == c then none else resumes_at xs c
resumes_at (root_ended none r ∷ xs) c = resumes_at xs c

-- The root inventory's cursor at the last end of a root item.
abbrev pub root_resumes_at : List Ended → Option String
root_resumes_at [] = none
root_resumes_at (sub_ended p s ∷ xs) = root_resumes_at xs
root_resumes_at (root_ended i r ∷ xs) = r

cursors_after-Distinct : (xs : List Ended) → Distinct (cursors_after xs).partials
unfolding process_sub process_root
cursors_after-Distinct [] = tt
cursors_after-Distinct (sub_ended none s ∷ xs) = cursors_after-Distinct xs
cursors_after-Distinct (sub_ended (some p) none ∷ xs) = cursors_after-Distinct xs
cursors_after-Distinct (sub_ended (some p) (some s) ∷ xs) =
    insert-Distinct p s (cursors_after xs).partials (cursors_after-Distinct xs)
cursors_after-Distinct (root_ended none r ∷ xs) = cursors_after-Distinct xs
cursors_after-Distinct (root_ended (some i) r ∷ xs) =
    remove-Distinct i (cursors_after xs).partials (cursors_after-Distinct xs)

lookup-cursors_after :
    (xs : List Ended) (c : String) → lookup c (cursors_after xs).partials ≡ resumes_at xs c
unfolding process_sub process_root
lookup-cursors_after [] c = refl
lookup-cursors_after (sub_ended none s ∷ xs) c = lookup-cursors_after xs c
lookup-cursors_after (sub_ended (some p) none ∷ xs) c = lookup-cursors_after xs c
lookup-cursors_after (sub_ended (some p) (some s) ∷ xs) c =
    lookup-insert p c s (cursors_after xs).partials
    ∙ ap (λ o. if p == c then some s else o) (lookup-cursors_after xs c)
lookup-cursors_after (root_ended none r ∷ xs) c = lookup-cursors_after xs c
lookup-cursors_after (root_ended (some i) r ∷ xs) c =
    lookup-remove i c (cursors_after xs).partials (cursors_after-Distinct xs)
    ∙ ap (λ o. if i == c then none else o) (lookup-cursors_after xs c)

root_after-cursors_after : (xs : List Ended) → (cursors_after xs).root_after ≡ root_resumes_at xs
unfolding process_sub process_root
root_after-cursors_after [] = refl
root_after-cursors_after (sub_ended none s ∷ xs) = root_after-cursors_after xs
root_after-cursors_after (sub_ended (some p) none ∷ xs) = root_after-cursors_after xs
root_after-cursors_after (sub_ended (some p) (some s) ∷ xs) = root_after-cursors_after xs
root_after-cursors_after (root_ended i r ∷ xs) = refl

multi_from_dict-multi_as_dict : (s : MultiCursorsState) → multi_from_dict (multi_as_dict s) ≡ s
unfolding multi_from_dict multi_as_dict
multi_from_dict-multi_as_dict s = elim (List-cases s.partials) [
  | inl e ↦ ground (arith, e)
  | inr (q, qs, e) ↦ ground (arith, e)
]

-- After a restart from what was stored, whatever items have ended in whatever order: the root
-- inventory resumes at its cursor of the last end of a root item, and the sub-inventory of every
-- parent at its own last cursor, or from the start where the parent itself has ended since.
pub sub_cursor_of-restored :
    (xs : List Ended) (c : String)
    → let s = multi_from_dict (multi_as_dict (cursors_after xs)) in
      (s.root_after ≡ root_resumes_at xs) × (sub_cursor_of (some c) s ≡ resumes_at xs c)
sub_cursor_of-restored xs c =
    rw (multi_from_dict-multi_as_dict (cursors_after xs))
      (root_after-cursors_after xs, lookup-cursors_after xs c)
