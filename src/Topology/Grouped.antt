-- ===== src/Topology/Grouped.antt =====
-- Under which kind and name the objects of a configuration are found.
use data_lineup.Base.{
  String, true, false, Option, none, some, List, [], ◌∷◌, string_eq, ◌==◌, ==_iff, if◌then◌else◌,
  or_else, ◌≡◌, refl, sym, subst, ◌∙◌, ap, arith, Bool-cases, inl, inr,
}
use data_lineup.Dict.{Dict, lookup, has_key, insert, lookup-insert, has_key-lookup}
use data_lineup.Topology.{UncompiledObject, is_named, of_kind, group_by_kind}

-- The first object of this kind and name.
abbrev pub first_object : (kind name : String) → List UncompiledObject → Option UncompiledObject
first_object kind name [] = none
first_object kind name (u ∷ us) =
    let rest = first_object kind name us in if is_named kind name u then some u else rest

abbrev pub find_object :
    (kind name : String) → Dict String (Dict String UncompiledObject) → Option UncompiledObject
find_object kind name by_kind = lookup name (of_kind kind by_kind)

of_kind-insert :
    (k j : String) (m : Dict String UncompiledObject)
    (d : Dict String (Dict String UncompiledObject))
    → of_kind j (insert k m d) ≡ (if k == j then m else of_kind j d)
of_kind-insert k j m d = elim (Bool-cases (k == j)) [
  | inl e ↦ ground (arith, e, lookup-insert k j m d)
  | inr e ↦ ground (arith, e, lookup-insert k j m d)
]

group_by_kind-step :
    (kind name : String) (u : UncompiledObject) (d : Dict String (Dict String UncompiledObject))
    (later : Option UncompiledObject)
    → has_key u.name (of_kind u.kind d) ≡ false
    → or_else (find_object kind name (insert u.kind (insert u.name u (of_kind u.kind d)) d)) later
      ≡ or_else (find_object kind name d) (if is_named kind name u then some u else later)
group_by_kind-step kind name u d later e = elim (Bool-cases (u.kind == kind)) [
  | inl f ↦
      let same : u.kind ≡ kind = (==_iff u.kind kind).0 f in
      let m = insert u.name u (of_kind u.kind d) in
      let moved : of_kind kind (insert u.kind m d) ≡ insert u.name u (of_kind kind d) =
        (rw f at (of_kind-insert u.kind kind m d)) ∙ ap (λ x. insert u.name u (of_kind x d)) same in
      let fresh : has_key u.name (of_kind kind d) ≡ false =
        subst (λ x. has_key u.name (of_kind x d) ≡ false) same e in
      let unnamed : (u.name == name) ≡ true → has_key name (of_kind kind d) ≡ false =
        λ g. subst (λ x. has_key x (of_kind kind d) ≡ false) ((==_iff u.name name).0 g) fresh in
      ap (λ x. or_else (lookup name x) later) moved
      ∙ ground (
        arith,
        f,
        lookup-insert u.name name u (of_kind kind d),
        unnamed,
        has_key-lookup name (of_kind kind d),
      )
  | inr f ↦ ground (arith, f, of_kind-insert u.kind kind (insert u.name u (of_kind u.kind d)) d)
]

or_else-none {ℓ} : {A : Type ℓ} (o : Option A) → o ≡ or_else o none
or_else-none none = refl
or_else-none (some a) = refl

-- Where the grouping of the objects does not raise, it holds under each kind and name the first
-- object with these, and what it began with comes first.
pub group_by_kind-first_object :
    (us : List UncompiledObject) (d after : Dict String (Dict String UncompiledObject))
    (kind name : String)
    → group_by_kind us d ≡ some after
    → find_object kind name after ≡ or_else (find_object kind name d) (first_object kind name us)
unfolding group_by_kind
group_by_kind-first_object [] d after kind name e =
    let same : d ≡ after = ground (arith, e) in
    ap (find_object kind name) (sym same) ∙ or_else-none (find_object kind name d)
group_by_kind-first_object (u ∷ us) d after kind name e =
    let d' = insert u.kind (insert u.name u (of_kind u.kind d)) d in
    elim (Bool-cases (has_key u.name (of_kind u.kind d))) [
      | inl f ↦ absurd (cc (rw (f, group_by_kind) at e))
      | inr f ↦
          group_by_kind-first_object us d' after kind name (rw (f, group_by_kind) at e)
          ∙ group_by_kind-step kind name u d (first_object kind name us) f
    ]
