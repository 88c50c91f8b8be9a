-- ===== src/Tests/Pool.antt =====
-- A pool of two resources, one of them in use.
use data_lineup.Base.{String, Bool, none, some, string_eq, nat_eq, ◌==◌, ◌≡◌, refl}
use data_lineup.Dict.{lookup}
use data_lineup.Resources.{ResourceData, ExclusiveResources, ok, empty, add, acquire_nowait}
use data_lineup.Resources.Invariant.{IsValid}
use data_lineup.Resources.Pool.{Reach, start, after_add, Reach-IsValid}

-- The limits library, with one strategy.
abbrev strategies : String → Bool
strategies s = s == "fixed-window"

abbrev first : ResourceData
first = record { handle = 1; name = "token-1"; rate_limit = some "fixed-window"; default_delay = 0 }

abbrev second : ResourceData
second = record { handle = 2; name = "token-2"; rate_limit = none; default_delay = 0 }

abbrev unlimited : ResourceData
unlimited = record {
  handle = 3;
  name = "token-3";
  rate_limit = some "sometimes";
  default_delay = 0;
}

abbrev with_one : ExclusiveResources
with_one = (add strategies first empty).1

abbrev with_two : ExclusiveResources
with_two = (add strategies second with_one).1

with_two_reached : Reach strategies with_two
unfolding add
with_two_reached =
    after_add second ((λ q e. absurd (cc e)), (λ q e. absurd (cc e)))
      (after_add first ((λ q e. absurd (cc e)), (λ q e. absurd (cc e))) start)

Reach-IsValid_example : IsValid with_two
Reach-IsValid_example = Reach-IsValid with_two_reached

first_acquired : (acquire_nowait with_two).0 ≡ ok first
unfolding add acquire_nowait
first_acquired = refl

second_registered : lookup "token-2" with_two.resources ≡ some second
unfolding add
second_registered = refl
