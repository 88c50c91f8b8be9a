-- ===== src/Tests/Locking.antt =====
-- Two reservations of a lock with room for two.
use data_lineup.Base.{ℕ, true, false, Option, none, some, List, [], ◌∷◌, nat_eq, ◌≡◌, refl}
use data_lineup.SharedLock.{SharedLock, take_slot, make_reservation, acquire}
use data_lineup.SharedLock.Exclusion.{
  Reach, start, slot_taken, reserved, acquired, IsBalanced, Reach-IsBalanced,
}

abbrev lock_of : Option ℕ → ℕ → List ℕ → SharedLock
lock_of locker slots reservations = record {
  max_reservations = 2;
  lock_held = elim locker [ none ↦ false | some _ ↦ true ];
  locker = locker;
  slots = slots;
  reservations = reservations;
}

second_locks : Reach 2 0 (lock_of (some 8) 2 (8 ∷ 7 ∷ []))
unfolding take_slot make_reservation acquire
second_locks =
    acquired {s = lock_of none 2 (8 ∷ 7 ∷ [])} 8
      (reserved {s = lock_of none 2 (7 ∷ [])} 8
        (slot_taken {w = 0} {s = lock_of none 1 (7 ∷ [])}
          (reserved {s = lock_of none 1 []} 7
            (slot_taken {w = 0} {s = lock_of none 0 []} start refl) refl refl)
          refl)
        refl refl)
      refl refl

Reach-IsBalanced_example : IsBalanced 2 0 (lock_of (some 8) 2 (8 ∷ 7 ∷ []))
Reach-IsBalanced_example = Reach-IsBalanced second_locks

eight_locks : acquire 8 (lock_of none 2 (8 ∷ 7 ∷ [])) ≡ some (lock_of (some 8) 2 (8 ∷ 7 ∷ []))
unfolding acquire
eight_locks = refl
