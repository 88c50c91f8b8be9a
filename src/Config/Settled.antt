-- ===== src/Config/Settled.antt =====
-- Where the values of a loaded configuration come from.
use mathlib.Core.List.{reverse, reverse-cons}
use data_lineup.Base.{
  String, Bool, true, false, Option, none, some, List, [], ◌∷◌, ◌++◌, string_eq, ==_iff, or_else,
  ◌≡◌, refl, sym, ◌∙◌, ap, subst, arith, Option-cases, Bool-cases, inl, inr,
}
use data_lineup.Dict.{lookup, has_key, insert, elem, elem-append, lookup-insert}
use data_lineup.Config.{
  Value, Interface, complete, key, nested, Settings, Loaded, loaded, missing_key, invalid_type,
  key_path, get_attr, first_attr, get_config_value, sublayers, load_config_interface,
}

-- No string stands twice.
abbrev pub NoRepeat : List String → Type 0
NoRepeat [] = Unit
NoRepeat (x ∷ xs) = (elem x xs ≡ false) × NoRepeat xs

NoRepeat-append :
    (xs ys : List String)
    → NoRepeat (xs ++ ys)
    → NoRepeat xs × NoRepeat ys × ((k : String) → elem k xs ≡ true → elem k ys ≡ false)
NoRepeat-append [] ys h = (tt, h, λ k e. absurd (cc e))
NoRepeat-append (x ∷ xs) ys (h, d) =
    let (dx, dy, apart) = NoRepeat-append xs ys d in
    (
      (ground (arith, h, elem-append x xs ys), dx),
      dy,
      λ k e. ground (arith, e, apart k, h, elem-append x xs ys, ==_iff x k),
    )

module _ {V : Type 0} (lower : String → String) where
  -- The value in the last layer that has the name.
  abbrev pub latest : List (Value V) → String → Option (Value V)
  latest [] name = none
  latest (layer ∷ layers) name = or_else (latest layers name) (get_attr lower layer name)

  first_attr-append :
      (xs ys : List (Value V)) (name : String)
      → first_attr lower (xs ++ ys) name
        ≡ or_else (first_attr lower xs name) (first_attr lower ys name)
  first_attr-append [] ys name = refl
  first_attr-append (x ∷ xs) ys name = ground (arith, first_attr-append xs ys name)

  first_attr-reverse :
      (layers : List (Value V)) (name : String)
      → first_attr lower (reverse layers) name ≡ latest layers name
  first_attr-reverse [] name = refl
  first_attr-reverse (layer ∷ layers) name =
      ap (λ (ls : List (Value V)). first_attr lower ls name) (reverse-cons layer layers)
      ∙ first_attr-append (reverse layers) (layer ∷ []) name
      ∙ ground (arith, first_attr-reverse layers name)

  -- The places of an interface's keys.
  abbrev pub places : Interface V → (place : String) → List String
  places complete place = []
  places (key name check value default rest) place = key_path place (lower name) ∷ places rest place
  places (nested name inner rest) place =
      places inner (key_path place (lower name)) ++ places rest place

  -- What a key resolves to: the last layer that has it, the interface's value, or the default.
  abbrev pub resolved :
      List (Value V) → String → (value default : Option (Value V)) → Option (Value V)
  resolved layers name value default = or_else (or_else (latest layers name) value) default

  -- Every key has the value it resolves to, if it resolves to one, of its type; else `_MISSING`.
  abbrev pub Settled : Interface V → List (Value V) → (place : String) → Settings V → Type 0
  Settled complete layers place config = Unit
  Settled (key name check value default rest) layers place config =
      ((lookup (key_path place (lower name)) config ≡ some (resolved layers name value default))
        × ((v : Value V) → resolved layers name value default ≡ some v → check v ≡ true))
      × Settled rest layers place config
  Settled (nested name inner rest) layers place config =
      Settled inner (sublayers lower layers name) (key_path place (lower name)) config
      × Settled rest layers place config

  Settled-same :
      (i : Interface V) (layers : List (Value V)) (place : String) (c d : Settings V)
      → ((k : String) → elem k (places i place) ≡ true → lookup k d ≡ lookup k c)
      → Settled i layers place c
      → Settled i layers place d
  Settled-same complete layers place c d same h = tt
  Settled-same (key name check value default rest) layers place c d same ((here, checked), h) =
      let k = key_path place (lower name) in
      (
        (same k (ground (arith, ==_iff k k)) ∙ here, checked),
        Settled-same rest layers place c d (λ j e. same j (ground (arith, e))) h,
      )
  Settled-same (nested name inner rest) layers place c d same (h, h') =
      let p = key_path place (lower name) in
      (
        Settled-same inner (sublayers lower layers name) p c d
            (λ j e. same j (ground (arith, e, elem-append j (places inner p) (places rest place))))
            h,
        Settled-same rest layers place c d
            (λ j e. same j (ground (arith, e, elem-append j (places inner p) (places rest place))))
            h',
      )

  get_config_value_lem :
      (layers : List (Value V)) (name : String) (value : Option (Value V))
      → get_config_value lower layers name value ≡ or_else (latest layers name) value
  unfolding get_config_value
  get_config_value_lem layers name value =
      ap (λ (o : Option (Value V)). or_else o value) (first_attr-reverse layers name)

  -- What the load of one key does: it sets the place, to a value that was checked.
  load-key :
      (name : String) (check : Value V → Bool) (value default : Option (Value V))
      (rest : Interface V) (layers : List (Value V)) (path place : String) (c c' : Settings V)
      → load_config_interface lower (key name check value default rest) layers path place c
        ≡ loaded c'
      → (load_config_interface lower rest layers path place
            (insert (key_path place (lower name)) (resolved layers name value default) c)
          ≡ loaded c')
        × ((v : Value V) → resolved layers name value default ≡ some v → check v ≡ true)
  unfolding load_config_interface
  load-key name check value default rest layers path place c c' e =
      let k = key_path place (lower name) in
      let config_value = or_else (get_config_value lower layers name value) default in
      let same : config_value ≡ resolved layers name value default =
        ap (λ (o : Option (Value V)). or_else o default) (get_config_value_lem layers name value) in
      let moved =
        λ (o : Option (Value V)) (f : resolved layers name value default ≡ o)
            (g : load_config_interface lower rest layers path place (insert k o c) ≡ loaded c').
          subst
            (λ (r : Option (Value V)).
              load_config_interface lower rest layers path place (insert k r c) ≡ loaded c')
            (sym f) g in
      elim (Option-cases (resolved layers name value default)) [
        | inl f ↦
            let unset : config_value ≡ none = same ∙ f in
            elim (Bool-cases (has_key (key_path place name) c)) [
              | inl g ↦ (moved none f (ground (arith, unset, g, e)), λ v h. absurd (cc (sym f ∙ h)))
              | inr g ↦ absurd (ground (arith, unset, g, e))
            ]
        | inr (v, f) ↦
            let set : config_value ≡ some v = same ∙ f in
            elim (Bool-cases (check v)) [
              | inl g ↦
                  (moved (some v) f (ground (arith, set, g, e)), λ w h. ground (arith, f, h, g))
              | inr g ↦ absurd (ground (arith, set, g, e))
            ]
      ]

  load-nested :
      (name : String) (inner rest : Interface V) (layers : List (Value V)) (path place : String)
      (c c' : Settings V)
      → load_config_interface lower (nested name inner rest) layers path place c ≡ loaded c'
      → (between : Settings V) × (load_config_interface lower inner
            (sublayers lower layers name)
            (key_path path name)
            (key_path place (lower name))
            c
          ≡ loaded between)
        × (load_config_interface lower rest layers path place between ≡ loaded c')
  unfolding load_config_interface
  load-nested name inner rest layers path place c c' e =
      by_case
        (load_config_interface lower inner (sublayers lower layers name) (key_path path name)
          (key_path place (lower name)) c)
        refl
    where
      by_case :
          (l : Loaded V)
          → load_config_interface lower inner
              (sublayers lower layers name)
              (key_path path name)
              (key_path place (lower name))
              c
            ≡ l
          → (between : Settings V) × (l ≡ loaded between)
            × (load_config_interface lower rest layers path place between ≡ loaded c')
      by_case (loaded d) f = (d, refl, ground (arith, e, f))
      by_case (missing_key k) f = absurd (ground (arith, e, f))
      by_case (invalid_type k) f = absurd (ground (arith, e, f))

  load-complete :
      (layers : List (Value V)) (path place : String) (c c' : Settings V)
      → load_config_interface lower complete layers path place c ≡ loaded c'
      → c ≡ c'
  unfolding load_config_interface
  load-complete layers path place c c' e = cc e

  -- A load changes only the places of its interface.
  load-elsewhere :
      (i : Interface V) (layers : List (Value V)) (path place : String) (c c' : Settings V)
      (k : String)
      → load_config_interface lower i layers path place c ≡ loaded c'
      → elem k (places i place) ≡ false
      → lookup k c' ≡ lookup k c
  load-elsewhere complete layers path place c c' k e f =
      ap (λ (d : Settings V). lookup k d) (sym (load-complete layers path place c c' e))
  load-elsewhere (key name check value default rest) layers path place c c' k e f =
      let here = key_path place (lower name) in
      let (later, _) = load-key name check value default rest layers path place c c' e in
      load-elsewhere rest layers path place (insert here (resolved layers name value default) c) c'
        k later (ground (arith, f))
      ∙ ground (arith, f, lookup-insert here k (resolved layers name value default) c)
  load-elsewhere (nested name inner rest) layers path place c c' k e f =
      let p = key_path place (lower name) in
      let (d, first, later) = load-nested name inner rest layers path place c c' e in
      let apart = elem-append k (places inner p) (places rest place) in
      load-elsewhere rest layers path place d c' k later (ground (arith, f, apart))
      ∙ load-elsewhere inner (sublayers lower layers name) (key_path path name) p c d k first
          (ground (arith, f, apart))

  -- After a load without an error every key of the interface, nested ones included, has the value
  -- of the last layer that has it, or else the interface's value or its default, and that is of
  -- the key's type; a key with none of these is `_MISSING`, which replaces what was loaded before.
  -- Given that no two keys of the interface have the same place.
  pub load_config_interface-Settled :
      (i : Interface V) (layers : List (Value V)) (path place : String) (c c' : Settings V)
      → NoRepeat (places i place)
      → load_config_interface lower i layers path place c ≡ loaded c'
      → Settled i layers place c'
  load_config_interface-Settled complete layers path place c c' d e = tt
  load_config_interface-Settled (key name check value default rest) layers path place c c' (h, d)
        e =
      let here = key_path place (lower name) in
      let found = resolved layers name value default in
      let (later, checked) = load-key name check value default rest layers path place c c' e in
      (
        (
          load-elsewhere rest layers path place (insert here found c) c' here later h
              ∙ ground (arith, lookup-insert here here found c, ==_iff here here),
          checked,
        ),
        load_config_interface-Settled rest layers path place (insert here found c) c' d later,
      )
  load_config_interface-Settled (nested name inner rest) layers path place c c' d e =
      let p = key_path place (lower name) in
      let (between, first, later) = load-nested name inner rest layers path place c c' e in
      let (di, dr, apart) = NoRepeat-append (places inner p) (places rest place) d in
      (
        Settled-same inner (sublayers lower layers name) p between c'
            (λ k f. load-elsewhere rest layers path place between c' k later (apart k f))
            (load_config_interface-Settled inner (sublayers lower layers name) (key_path path name)
              p c between di first),
        load_config_interface-Settled rest layers path place between c' dr later,
      )
