-- ===== src/Topology/Merged.antt =====
-- What is found in a dictionary that was merged.
use data_lineup.Base.{
  String, Bool, true, false, Option, none, some, List, [], ◌∷◌, string_eq, ◌==◌, ==_iff,
  if◌then◌else◌, ◌≡◌, refl, sym, subst, ◌∙◌, ap, arith, Bool-cases, Option-cases, inl, inr,
}
use data_lineup.Topology.{
  Value, scalar, object, Fields, end, field, get_field, put_field, deep_merge, merge_value,
}

-- No key stands twice, at any depth.
unfoldable mutual
  pub IsValue : Value → Type 0
  IsValue (scalar s) = Unit
  IsValue (object d) = IsFields d

  pub IsFields : Fields → Type 0
  IsFields end = Unit
  IsFields (field k v d) = (get_field k d ≡ none) × IsValue v × IsFields d

get_field-put_field :
    (k j : String) (v : Value) (d : Fields)
    → get_field j (put_field k v d) ≡ (if k == j then some v else get_field j d)
get_field-put_field k j v end = refl
get_field-put_field k j v (field i w d) =
    ground (arith, ==_iff k j, ==_iff i k, ==_iff i j, get_field-put_field k j v d)

-- The value of a key after a merge, by the values before.
abbrev merged_value : Option Value → Option Value → Option Value
merged_value old none = old
merged_value old (some v) = some (merge_value old v)

get_field-same : (k j : String) (d : Fields) → (k == j) ≡ true → get_field k d ≡ get_field j d
get_field-same k j d e = ap (λ x. get_field x d) ((==_iff k j).0 e)

get_field-deep_merge :
    (k : String) (a b : Fields)
    → IsFields b
    → get_field k (deep_merge a b) ≡ merged_value (get_field k a) (get_field k b)
unfolding deep_merge IsFields
get_field-deep_merge k a end h = refl
get_field-deep_merge k a (field j v b) h =
    let rest = get_field-deep_merge k (put_field j (merge_value (get_field j a) v) a) b h.2 in
    let put = get_field-put_field j k (merge_value (get_field j a) v) a in
    elim (Bool-cases (j == k)) [
      | inl e ↦
          let absent : get_field k b ≡ none = sym (get_field-same j k b e) ∙ h.0 in
          let merged : Option Value = some (merge_value (get_field j a) v) in
          rw e (
            rest
            ∙ (ap (λ o. merged_value o (get_field k b)) (rw e at put)
                ∙ (ap (merged_value merged) absent
                    ∙ ap (λ o. some (merge_value o v)) (get_field-same j k a e))))
      | inr e ↦ rw e (rest ∙ ap (λ o. merged_value o (get_field k b)) (rw e at put))
    ]

-- The value at a path of keys.
abbrev pub at_path : List String → Value → Option Value
at_path [] v = some v
at_path (k ∷ ks) (scalar s) = none
at_path (k ∷ ks) (object d) = elim (get_field k d) [ none ↦ none | some v ↦ at_path ks v ]

abbrev at_field : List String → Option Value → Option Value
at_field ks none = none
at_field ks (some v) = at_path ks v

-- A path along which a value says nothing: it leads to a key that is not there.
abbrev pub is_silent : List String → Value → Bool
is_silent [] v = false
is_silent (k ∷ ks) (scalar s) = false
is_silent (k ∷ ks) (object d) = elim (get_field k d) [ none ↦ true | some v ↦ is_silent ks v ]

merge_none : (v : Value) → merge_value none v ≡ v
unfolding deep_merge
merge_none (scalar s) = refl
merge_none (object d) = refl

IsValue-field :
    (k : String) (d : Fields) (v : Value) → IsFields d → get_field k d ≡ some v → IsValue v
unfolding IsFields
IsValue-field k end v h e = absurd (cc e)
IsValue-field k (field j w d) v h e = elim (Bool-cases (j == k)) [
  | inl f ↦ let same : w ≡ v = ground (arith, e, f) in subst IsValue same h.1
  | inr f ↦ IsValue-field k d v h.2 (ground (arith, e, f))
]

at_path-silent : (p : List String) (v : Value) → is_silent p v ≡ true → at_path p v ≡ none
at_path-silent [] v e = absurd (cc e)
at_path-silent (k ∷ ks) (scalar s) e = absurd (cc e)
at_path-silent (k ∷ ks) (object d) e = elim (Option-cases (get_field k d)) [
  | inl f ↦ rw (f, at_path) refl
  | inr (v, f) ↦ rw (f, at_path) (at_path-silent ks v (rw (f, is_silent) at e))
]

-- A step into a merge of two dictionaries.
at_path-merged :
    (k : String) (ks : List String) (a b : Fields)
    → IsFields b
    → at_path (k ∷ ks) (object (deep_merge a b))
      ≡ at_field ks (merged_value (get_field k a) (get_field k b))
at_path-merged k ks a b h = ap (at_field ks) (get_field-deep_merge k a b h)

at_path-found :
    (p : List String) (a : Option Value) (b : Value) (s : String)
    → IsValue b
    → at_path p b ≡ some (scalar s)
    → at_path p (merge_value a b) ≡ some (scalar s)
unfolding deep_merge IsFields
at_path-found p none b s h e = rw (merge_none b) e
at_path-found [] (some (scalar t)) (scalar u) s h e = e
at_path-found [] (some (object a)) (scalar u) s h e = e
at_path-found [] (some a) (object b) s h e = absurd (cc e)
at_path-found (k ∷ ks) (some a) (scalar u) s h e = absurd (cc e)
at_path-found (k ∷ ks) (some (scalar t)) (object b) s h e = e
at_path-found (k ∷ ks) (some (object a)) (object b) s h e = elim (Option-cases (get_field k b)) [
  | inl f ↦ absurd (cc (rw (f, at_path) at e))
  | inr (v, f) ↦
      at_path-merged k ks a b h
      ∙ (ap (λ o. at_field ks (merged_value (get_field k a) o)) f
          ∙ at_path-found ks (get_field k a) v s (IsValue-field k b v h f) (rw (f, at_path) at e))
]

at_path-kept :
    (p : List String) (a b : Value)
    → IsValue b
    → is_silent p b ≡ true
    → at_path p (merge_value (some a) b) ≡ at_path p a
unfolding deep_merge IsFields
at_path-kept [] a b h e = absurd (cc e)
at_path-kept (k ∷ ks) a (scalar u) h e = absurd (cc e)
at_path-kept (k ∷ ks) (scalar t) (object b) h e = at_path-silent (k ∷ ks) (object b) e
at_path-kept (k ∷ ks) (object a) (object b) h e =
    at_path-merged k ks a b h ∙ elim (Option-cases (get_field k b)) [
      | inl f ↦ ap (λ o. at_field ks (merged_value (get_field k a) o)) f
      | inr (v, f) ↦
          ap (λ o. at_field ks (merged_value (get_field k a) o)) f
          ∙ elim (Option-cases (get_field k a)) [
            | inl g ↦
                rw (g, at_path) (rw (merge_none v) (at_path-silent ks v (rw (f, is_silent) at e)))
            | inr (w, g) ↦
                rw (g, at_path)
                  (at_path-kept ks w v (IsValue-field k b v h f) (rw (f, is_silent) at e))
          ]
    ]

-- After a merge every text that the second dictionary has at a path of keys is found there, and at
-- a path along which it says nothing the result has what the first one has.
pub at_path-deep_merge :
    (p : List String) (a b : Fields)
    → IsFields b
    → ((s : String)
        → at_path p (object b) ≡ some (scalar s)
        → at_path p (object (deep_merge a b)) ≡ some (scalar s))
      × (is_silent p (object b) ≡ true → at_path p (object (deep_merge a b)) ≡ at_path p (object a))
unfolding deep_merge IsFields
at_path-deep_merge p a b h =
    (λ s. at_path-found p (some (object a)) (object b) s h, at_path-kept p (object a) (object b) h)
