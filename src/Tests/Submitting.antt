-- ===== src/Tests/Submitting.antt =====
-- A message whose resource is missing, and another one whose output is blocked.
use data_lineup.Base.{ℕ, String, true, false, List, [], ◌∷◌, ◌||◌, ◌≡◌, refl, nat_eq}
use data_lineup.Dict.{elem}
use data_lineup.Resources.{ResourceData, acquire_nowait, try_acquire}
use data_lineup.ResourcesManager.{ResourcesManager, acquire_many, acquire_all}
use data_lineup.ExecutorQueue.{
  Message, ExecutorQueue, submit, acquire_resources, begin_output, block_output, locked,
}
use data_lineup.ExecutorQueue.Parked.{start, after_submit, after_begin, after_block, Reach-locked}

abbrev no_pools : ResourcesManager
no_pools = record { resources = []; delayed = [] }

abbrev fresh : ExecutorQueue
fresh = record {
  manager = no_pools;
  parkers = [];
  submitted = [];
  delayed = [];
  consuming = [];
  blocked = [];
  attached = [];
}

abbrev as_given : List String → List String
as_given types = types

abbrev no_limits : ResourceData → List (ℕ × ℕ)
no_limits r = []

abbrev waiting : Message
waiting = record { id = 1; missing_resources = "api" ∷ [] }

abbrev submitted_one : ExecutorQueue
submitted_one = (submit as_given 100 no_limits waiting fresh).1

abbrev parked : ExecutorQueue
parked = block_output 2 (begin_output 2 submitted_one)

waits_alone : elem 2 submitted_one.delayed ≡ false
unfolding submit acquire_resources acquire_many acquire_all acquire_nowait try_acquire
waits_alone = refl

is_consumed : elem 2 (begin_output 2 submitted_one).consuming ≡ true
unfolding submit acquire_resources acquire_many acquire_all acquire_nowait try_acquire
is_consumed = refl

Reach-locked_example :
    ((m : ℕ) → (elem m parked.delayed || elem m parked.blocked) ≡ true → locked parked ≡ true)
    × (((m : ℕ) → (elem m parked.delayed || elem m parked.consuming) ≡ false)
        → locked parked ≡ false)
Reach-locked_example = Reach-locked (
    after_block 2 (after_begin 2 (after_submit 100 waiting (start no_pools) refl refl) waits_alone)
      is_consumed)
