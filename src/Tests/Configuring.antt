-- ===== src/Tests/Configuring.antt =====
-- Two layers, of which the later one has one key of a nested namespace.
use data_lineup.Base.{ℕ, String, Bool, true, none, some, [], ◌∷◌, ◌≡◌, refl}
use data_lineup.Config.{
  Value, leaf, object, nothing, attribute, Interface, complete, key, nested, Settings, loaded,
  load_config_interface, get_config_value,
}
use data_lineup.Config.Settled.{Settled, load_config_interface-Settled}

-- Names in lower case.
abbrev as_is : String → String
as_is s = s

abbrev defaults : Value ℕ
defaults = object (
    attribute "job" (object (attribute "size" (leaf 10) (attribute "delay" (leaf 5) nothing)))
      nothing)

abbrev chosen : Value ℕ
chosen = object (attribute "job" (object (attribute "size" (leaf 20) nothing)) nothing)

abbrev any_value : Value ℕ → Bool
any_value v = true

abbrev interface : Interface ℕ
interface =
    nested "job" (key "size" any_value none none (key "delay" any_value none none complete))
      complete

abbrev settings : Settings ℕ
settings = ("job.size", some (leaf 20)) ∷ ("job.delay", some (leaf 5)) ∷ []

interface_loaded :
    load_config_interface as_is interface (defaults ∷ chosen ∷ []) "" "" [] ≡ loaded settings
unfolding load_config_interface get_config_value
interface_loaded = refl

load_config_interface-Settled_example : Settled as_is interface (defaults ∷ chosen ∷ []) "" settings
load_config_interface-Settled_example =
    load_config_interface-Settled as_is interface (defaults ∷ chosen ∷ []) "" "" [] settings
      (refl, (refl, tt)) interface_loaded
