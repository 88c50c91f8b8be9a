-- ===== src/Inventory.antt =====
-- worker/inventory.py: items, and `CursorsState`, which decides where a job resumes.
-- `process_item` is a context manager: `begin_item` is the part before its `yield`, with the
-- value yielded, and `finish_item` is its `finally` block.
pub mod Ledger
pub mod Commit
pub mod Saved
pub mod Iterate
use mathlib.Core.List.{reverse}
use data_lineup.Base.{
  ℕ, zero, suc, ◌-◌, String, Bool, true, false, not, ◌&&◌, Option, none, some, List, [], ◌∷◌, map,
  ◌==◌, eqb, nat_eq, string_eq, if◌then◌else◌, or_else, take, length,
}
use data_lineup.Dict.{Dict, insert, remove, values, elem, discard, union}

-- The `cursor` argument of `Item(...)`: left out, or given, possibly as `None`.
pub data CursorArg : Type 0 where
  missing : CursorArg
  given : Option String → CursorArg

-- `handle` is Python's `id(item)`. `args` is of any type; tags, metadata, config and the exit
-- stack are not read here.
pub record Item (Args : Type 0) : Type 0 where
  pub handle : ℕ
  pub id : String
  pub cursor : Option String
  pub args : Args

-- `partials.remove(cursor)`, reached only where the cursor is in the set.
abbrev drop_partial : Option String → List String → List String
drop_partial none ps = ps
drop_partial (some c) ps = discard c ps

abbrev pub is_empty : String → Bool
is_empty s = s == ""

-- `if cursor:` holds of a cursor that is neither `None` nor empty.
abbrev pub truthy : Option String → Option String
truthy none = none
truthy (some c) = if is_empty c then none else some c

module _ {Args : Type 0} where
  -- `__post_init__`: a missing cursor is the item's id.
  abbrev pub make_item : ℕ → String → CursorArg → Args → Item Args
  make_item handle id missing args = record {
    handle = handle;
    id = id;
    cursor = some id;
    args = args;
  }
  make_item handle id (given c) args = record { handle = handle; id = id; cursor = c; args = args }

pub record PendingItem (Args : Type 0) : Type 0 where
  pub is_pending : Bool
  pub item : Item Args

pub record CursorsState (Args : Type 0) : Type 0 where
  pub after : Option String
  pub partials : List String
  pub max_partials : Option ℕ
  pub pendings : Dict ℕ (PendingItem Args)

module _ {Args : Type 0} where
  -- The items at the front that are done.
  abbrev pub items_done : List (PendingItem Args) → List (Item Args)
  items_done [] = []
  items_done (p ∷ ps) = let rest = items_done ps in if p.is_pending then [] else p.item ∷ rest

  abbrev pub delete_all : List (Item Args) → Dict ℕ (PendingItem Args) → Dict ℕ (PendingItem Args)
  delete_all [] d = d
  delete_all (i ∷ is) d = delete_all is (remove i.handle d)

  -- `for item in …: if item.cursor: … break`
  abbrev pub first_cursor : List (Item Args) → Option String
  first_cursor [] = none
  first_cursor (i ∷ is) = or_else (truthy i.cursor) (first_cursor is)

  abbrev pub pending : Bool → Item Args → PendingItem Args
  pending b i = record { is_pending = b; item = i }

  -- Is the item one of those that an earlier run completed out of order?
  abbrev pub is_partial : Item Args → CursorsState Args → Bool
  is_partial i s = elim (truthy i.cursor) [ none ↦ false | some c ↦ elem c s.partials ]

  unfoldable pub begin_item : Item Args → CursorsState Args → CursorsState Args × Bool
  begin_item i s =
      let t = record s { pendings = insert i.handle (pending true i) s.pendings } in
      if is_partial i s
      then (record t { partials = drop_partial i.cursor s.partials }, false)
      else (t, true)

  unfoldable pub finish_item : Item Args → CursorsState Args → CursorsState Args
  finish_item i s =
      let noted = insert i.handle (pending false i) s.pendings in
      let done = items_done (values noted) in
      record s {
        pendings = delete_all done noted;
        after = or_else (first_cursor (reverse done)) s.after;
      }

  unfoldable pub has_pendings : CursorsState Args → Bool
  has_pendings s = elim s.pendings [ [] ↦ false | _ ∷ _ ↦ true ]

  -- `p.item.cursor for p in self._pendings.values() if not p.is_pending and … is not None`
  abbrev pub partials_cursors : List (PendingItem Args) → List String
  partials_cursors [] = []
  partials_cursors (p ∷ ps) =
      let rest = partials_cursors ps in
      if p.is_pending then rest else elim p.item.cursor [ none ↦ rest | some c ↦ c ∷ rest ]

-- The dictionary that is stored, without its constant `"v": 1`.
pub record CursorDict : Type 0 where
  pub a : Option String
  pub p : Option (List String)

-- A text parsed as JSON, as far as `from_cursor` looks at it.
pub record Parsed : Type 0 where
  pub is_dict : Bool
  pub v : Option ℕ
  pub has_other_keys : Bool
  pub fields : CursorDict

-- `sorted`, `json.dumps` and `json.loads` (`none` where it raises `JSONDecodeError`).
pub record Codec : Type 0 where
  pub sorted : List String → List String
  pub dumps : CursorDict → String
  pub loads : String → Option Parsed

module _ {Args : Type 0} where
  abbrev pub all_partials : CursorsState Args → List String
  all_partials s =
      let cursors = partials_cursors (values s.pendings) in
      elim s.max_partials [
        | none ↦ union s.partials (union [] cursors)
        | some n ↦
            let taken = union [] (take n cursors) in
            union (union [] (take (n - length taken) s.partials)) taken
      ]

module _ (codec : Codec) where
  abbrev is_current : Parsed → Bool
  is_current d = d.is_dict && elim d.v [ none ↦ false | some n ↦ eqb n 1 ] && not d.has_other_keys

  -- A text in no known format is a cursor of the old, unstructured kind.
  abbrev pub parse_cursor : String → CursorDict
  parse_cursor raw =
      let legacy : CursorDict = record { a = some raw; p = none } in
      elim (codec.loads raw) [ none ↦ legacy | some d ↦ if is_current d then d.fields else legacy ]

module _ (codec : Codec) {Args : Type 0} where
  unfoldable pub as_dict : CursorsState Args → CursorDict
  as_dict s =
      let ps : List String = elim s.max_partials [ some zero ↦ [] | _ ↦ all_partials s ] in
      record { a = s.after; p = elim ps [ [] ↦ none | q ∷ qs ↦ some (codec.sorted (q ∷ qs)) ] }

  unfoldable pub as_cursor : CursorsState Args → Option String
  unfolding as_dict
  as_cursor s =
      let d = as_dict s in
      elim d.a [
        | some _ ↦ some (codec.dumps d)
        | none ↦ elim d.p [ some _ ↦ some (codec.dumps d) | none ↦ none ]
      ]

  unfoldable pub from_dict : CursorDict → Option ℕ → CursorsState Args
  from_dict d max_partials = record {
    after = d.a;
    partials = elim d.p [ none ↦ [] | some ps ↦ union [] ps ];
    max_partials = max_partials;
    pendings = [];
  }

  unfoldable pub from_cursor : Option String → Option ℕ → CursorsState Args
  unfolding from_dict
  from_cursor raw max_partials = elim (truthy raw) [
    | none ↦ from_dict (record { a = none; p = none }) max_partials
    | some c ↦ from_dict (parse_cursor codec c) max_partials
  ]
