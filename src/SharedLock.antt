-- ===== src/SharedLock.antt =====
-- utils/asyncutils.py: `SharedLock` and its reservations. A reservation is named by a number, its
-- identity. An operation that would wait gives `none`; `asyncio.Lock` is whether it is held and
-- `asyncio.Semaphore` the number of slots that are taken, where `max_reservations` is 0 for none.
-- `reserve` is a context manager: `take_slot` and `make_reservation` run before its `yield`, and
-- `close_reservation` after it.
pub mod Exclusion
use data_lineup.Base.{
  ℕ, ◌+◌, ◌-◌, Bool, true, false, not, ◌&&◌, ◌||◌, Option, none, some, List, [], ◌∷◌, ◌==◌, nat_eq,
  eqb, leb, if◌then◌else◌,
}
use data_lineup.Dict.{elem, discard}

pub record SharedLock : Type 0 where
  pub max_reservations : ℕ
  pub lock_held : Bool
  pub locker : Option ℕ
  pub slots : ℕ
  pub reservations : List ℕ

abbrev pub init : ℕ → SharedLock
init max_reservations = record {
  max_reservations = max_reservations;
  lock_held = false;
  locker = none;
  slots = 0;
  reservations = [];
}

-- `self._reservations_lock.locked()`; a `FakeSemaphore` never is.
abbrev pub is_full : SharedLock → Bool
is_full s = not (eqb s.max_reservations 0) && leb s.max_reservations s.slots

unfoldable pub take_slot : SharedLock → Option SharedLock
take_slot s = if is_full s then none else some (record s { slots = s.slots + 1 })

-- `async with self._lock:` around the new reservation, which releases the lock at once.
unfoldable pub make_reservation : ℕ → SharedLock → Option SharedLock
make_reservation r s =
    if s.lock_held then none else some (record s { reservations = r ∷ s.reservations })

abbrev pub is_locker : ℕ → SharedLock → Bool
is_locker r s = elim s.locker [ none ↦ false | some l ↦ l == r ]

unfoldable pub acquire : ℕ → SharedLock → Option SharedLock
acquire r s =
    if is_locker r s
    then some s
    else if s.lock_held
    then none
    else some (record s { lock_held = true; locker = some r })

unfoldable pub release : ℕ → SharedLock → SharedLock
release r s = if is_locker r s then record s { lock_held = false; locker = none } else s

unfoldable pub close_reservation : ℕ → SharedLock → SharedLock
unfolding release
close_reservation r s =
    let s' = release r s in
    record s' { reservations = discard r s'.reservations; slots = s'.slots - 1 }

abbrev pub locked_reservations : SharedLock → Bool
locked_reservations s = s.lock_held || is_full s
