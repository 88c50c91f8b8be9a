-- ===== src/Services.antt =====
-- worker/services/manager.py: how `ServicesManager` loads the services that the configuration
-- names, where one may need others. A class is given by its identity, the names of what its
-- `Services` interface asks for besides the configuration, and whether its options and its
-- constructor are accepted; `open` and `close` of a service are entries of a log.
pub mod Ordered
pub mod Deferred
use mathlib.Core.List.{reverse}
use data_lineup.Base.{
  ℕ, zero, suc, String, Bool, true, false, not, ◌&&◌, ◌||◌, Option, none, some, List, [], ◌∷◌, ◌++◌,
  map, string_eq, eqb, if◌then◌else◌, keep, ◌==◌,
}
use data_lineup.Dict.{elem, discard}

pub record ServiceClass : Type 0 where
  pub id : ℕ
  pub name : String
  pub needs : List String
  pub options_valid : Bool
  pub constructs : Bool

pub data Call : Type 0 where
  opens closes : (name : String) → Call

-- `services` are the names in the namespace, latest first.
pub record ServicesManager : Type 0 where
  pub services : List String
  pub loaded_services : List ServiceClass
  pub is_opened : Bool
  pub log : List Call

abbrev pub base_services : List String
base_services = "config" ∷ "hooks" ∷ "resources_manager" ∷ []

abbrev pub init : ServicesManager
init = record { services = base_services; loaded_services = []; is_opened = false; log = [] }

-- `ServicesNamespace.cast`: is everything there that an interface asks for?
abbrev pub can_cast : List String → List String → Bool
can_cast [] services = true
can_cast (n ∷ ns) services = let rest = can_cast ns services in elem n services && rest

-- What `_load_service` comes to; `missing_service` and `value_error` are raised.
pub data Loading : Type 0 where
  loaded : ServicesManager → Loading
  missing_service value_error : Loading

unfoldable pub load_service : ServiceClass → ServicesManager → Loading
load_service c s =
    if elem c.name s.services || not c.options_valid
    then value_error
    else if not (can_cast c.needs s.services)
    then missing_service
    else if not c.constructs
    then value_error
    else loaded (record s {
      services = c.name ∷ s.services;
      loaded_services = s.loaded_services ++ (c ∷ []);
    })

-- One round over a list of classes, with those that are deferred. `none` is a `ValueError`.
unfoldable pub load_round :
    List ServiceClass → ServicesManager → Option (List ServiceClass × ServicesManager)
load_round [] s = some ([], s)
load_round (c ∷ cs) s = elim (load_service c s) [
  | loaded s' ↦ load_round cs s'
  | missing_service ↦ elim (load_round cs s) [ none ↦ none | some r ↦ some (c ∷ r.0, r.1) ]
  | value_error ↦ none
]

-- `raised` is a `ValueError`.
pub data Built : Type 0 where
  built : ServicesManager → Built
  raised out_of_fuel : Built

-- After `defered_services = defered_again` both names stand for one list, so that a class that is
-- deferred goes to the end of the list that the loop runs over. In the end the list equals itself.
-- Each class that is tried takes one unit of fuel.
unfoldable pub load_aliased : ℕ → List ServiceClass → ServicesManager → Built
load_aliased zero cs s = out_of_fuel
load_aliased (suc n) [] s = raised
load_aliased (suc n) (c ∷ cs) s = elim (load_service c s) [
  | loaded s' ↦ load_aliased n cs s'
  | missing_service ↦ load_aliased n (cs ++ (c ∷ [])) s
  | value_error ↦ raised
]

-- `==` of two lists of classes
abbrev pub same_classes : List ServiceClass → List ServiceClass → Bool
same_classes [] [] = true
same_classes (c ∷ cs) (d ∷ ds) = let rest = same_classes cs ds in eqb c.id d.id && rest
same_classes _ _ = false

-- The `while` loop, whose first round has two lists.
unfoldable pub load_deferred : ℕ → List ServiceClass → ServicesManager → Built
unfolding load_round load_aliased
load_deferred n [] s = built s
load_deferred n (d ∷ ds) s = elim (load_round (d ∷ ds) s) [
  | none ↦ raised
  | some r ↦
      if same_classes r.0 (d ∷ ds)
      then raised
      else (elim r.0 [ [] ↦ built r.1 | _ ∷ _ ↦ load_aliased n r.0 r.1 ])
]

-- `ServicesManager.__init__`, with these classes in the configuration.
unfoldable pub build : ℕ → List ServiceClass → Built
unfolding load_round load_deferred
build n classes = elim (load_round classes init) [
  | none ↦ raised
  | some r ↦ load_deferred n r.0 r.1
]

unfoldable pub open_services : ServicesManager → ServicesManager
open_services s =
    if s.is_opened
    then s
    else record s { log = s.log ++ map (λ c. opens c.name) s.loaded_services; is_opened = true }

-- It stays open.
unfoldable pub close_services : ServicesManager → ServicesManager
close_services s =
    if s.is_opened
    then record s { log = s.log ++ map (λ c. closes c.name) (reverse s.loaded_services) }
    else s

abbrev pub has_loaded : ServiceClass → ServicesManager → Bool
has_loaded c s = elem c.name s.services

-- `_reload_service`; names are unique among the loaded services.
unfoldable pub reload_service : ServiceClass → ServicesManager → Loading
unfolding load_service
reload_service c s =
    let s' =
      if has_loaded c s
      then record s {
        services = discard c.name s.services;
        loaded_services = keep (λ d. not (d.name == c.name)) s.loaded_services;
        log = s.log ++ (closes c.name ∷ []);
      }
      else s in
    elim (load_service c s') [
      | loaded t ↦ loaded (record t { log = t.log ++ (opens c.name ∷ []) })
      | missing_service ↦ missing_service
      | value_error ↦ value_error
    ]
