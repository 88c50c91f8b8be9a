-- ===== src/SharedLock/Exclusion.antt =====
-- One reservation at a time locks, and the number of reservations stays within its bound.
use data_lineup.Base.{
  ℕ, ◌+◌, ◌≤◌, true, false, none, some, List, [], ◌∷◌, nat_eq, eqb, eqb_iff, length, is_some, ◌≡◌,
  refl, arith,
}
use data_lineup.Dict.{elem, discard, elem-discard}
use data_lineup.SharedLock
use data_lineup.SharedLock.{
  SharedLock, take_slot, make_reservation, is_locker, acquire, release, close_reservation,
}

-- The states under the calls of reservations: one that waits at the lock has a slot already, a new
-- reservation has an identity of its own, and only an open one locks, unlocks or is closed.
pub data Reach (n : ℕ) : (waiting : ℕ) → SharedLock → Type 0 where
  start : Reach n 0 (SharedLock.init n)
  slot_taken :
      {w : ℕ} {s s' : SharedLock} → Reach n w s → take_slot s ≡ some s' → Reach n (w + 1) s'
  reserved :
      {w : ℕ} {s s' : SharedLock} (r : ℕ)
      → Reach n (w + 1) s
      → elem r s.reservations ≡ false
      → make_reservation r s ≡ some s'
      → Reach n w s'
  acquired :
      {w : ℕ} {s s' : SharedLock} (r : ℕ)
      → Reach n w s
      → elem r s.reservations ≡ true
      → acquire r s ≡ some s'
      → Reach n w s'
  released :
      {w : ℕ} {s : SharedLock} (r : ℕ)
      → Reach n w s
      → elem r s.reservations ≡ true
      → Reach n w (release r s)
  closed :
      {w : ℕ} {s : SharedLock} (r : ℕ)
      → Reach n w s
      → elem r s.reservations ≡ true
      → Reach n w (close_reservation r s)

-- No reservation stands twice.
abbrev pub Once : List ℕ → Type 0
Once [] = Unit
Once (r ∷ rs) = (elem r rs ≡ false) × Once rs

-- Every slot belongs to an open reservation or to one that waits; they are within the bound; the
-- lock is held exactly if there is a locker, and the locker is open.
pub record IsBalanced (n waiting : ℕ) (s : SharedLock) : Type 0 where
  pub bound : s.max_reservations ≡ n
  pub counted : s.slots ≡ waiting + length s.reservations
  pub within : 1 ≤ n → s.slots ≤ n
  pub held : s.lock_held ≡ is_some s.locker
  pub live : (r : ℕ) → s.locker ≡ some r → elem r s.reservations ≡ true
  pub distinct : Once s.reservations

discard_absent : (r : ℕ) (rs : List ℕ) → elem r rs ≡ false → discard r rs ≡ rs
discard_absent r [] h = refl
discard_absent r (q ∷ rs) h = ground (arith, discard_absent r rs)

length-discard :
    (r : ℕ) (rs : List ℕ) → Once rs → elem r rs ≡ true → length rs ≡ length (discard r rs) + 1
length-discard r [] o h = cc
length-discard r (q ∷ rs) o h =
    ground (arith, length-discard r rs o.1, discard_absent r rs, eqb_iff q r, eqb_iff r q, o.0)

Once-discard : (r : ℕ) (rs : List ℕ) → Once rs → Once (discard r rs)
Once-discard r [] o = tt
Once-discard r (x ∷ rs) o = ground (arith, Once-discard r rs o.1, elem-discard r x rs, o.0)

release-IsBalanced :
    {n w : ℕ} {s : SharedLock} (r : ℕ) → IsBalanced n w s → IsBalanced n w (release r s)
unfolding release
release-IsBalanced r v = record {
  bound = ground (arith, v.bound);
  counted = ground (arith, v.counted);
  within = λ h. ground (arith, v.within h);
  held = ground (arith, v.held);
  live = λ q e. ground (arith, v.live q);
  distinct = ground (arith, v.distinct);
}

-- In every state that the calls reach, a bound that is not 0 bounds the slots, and with them the
-- open reservations and those that wait; the lock is held exactly if a reservation has locked, and
-- that reservation is open.
pub Reach-IsBalanced : {n w : ℕ} {s : SharedLock} → Reach n w s → IsBalanced n w s
unfolding take_slot make_reservation acquire close_reservation release
Reach-IsBalanced start = record {
  bound = refl;
  counted = refl;
  within = λ h. omega arith;
  held = refl;
  live = λ r e. absurd (cc e);
  distinct = tt;
}
Reach-IsBalanced {n} (slot_taken {w} {s} {s'} p e) =
    let v = Reach-IsBalanced p in
    record {
      bound = ground (arith, v.bound);
      counted = ground (arith, v.counted);
      within = λ h. ground (arith, v.bound, v.within h, eqb_iff s.max_reservations 0);
      held = ground (arith, v.held);
      live = λ q l. ground (arith, v.live q);
      distinct = ground (arith, v.distinct);
    }
Reach-IsBalanced (reserved {w} {s} {s'} r p f e) =
    let v = Reach-IsBalanced p in
    record {
      bound = ground (arith, v.bound);
      counted = ground (arith, v.counted);
      within = λ h. ground (arith, v.within h);
      held = ground (arith, v.held);
      live = λ q l. ground (arith, v.live q, v.held);
      distinct = ground (arith, v.distinct, f);
    }
Reach-IsBalanced (acquired {w} {s} {s'} r p o e) =
    let v = Reach-IsBalanced p in
    record {
      bound = ground (arith, v.bound);
      counted = ground (arith, v.counted);
      within = λ h. ground (arith, v.within h);
      held = ground (arith, v.held);
      live = λ q l. ground (arith, v.live q, o);
      distinct = ground (arith, v.distinct);
    }
Reach-IsBalanced (released r p o) = release-IsBalanced r (Reach-IsBalanced p)
Reach-IsBalanced (closed {w} {s} r p o) =
    let v = Reach-IsBalanced p in
    record {
      bound = ground (arith, v.bound);
      counted = ground (arith, v.counted, length-discard r s.reservations v.distinct o);
      within = λ h. ground (arith, v.within h);
      held = ground (arith, v.held);
      live = λ q l.
          ground (arith, v.live q, eqb_iff q r, eqb_iff r q, elem-discard r q s.reservations);
      distinct = ground (arith, Once-discard r s.reservations v.distinct);
    }

-- A reservation that has locked locks again without waiting, and until it unlocks every other one
-- that locks waits, every new reservation waits, and no other one unlocks; afterwards the next one
-- locks at once. Given that the lock is held exactly if there is a locker.
pub acquire-exclusive :
    (s s' : SharedLock) (r q : ℕ)
    → acquire r s ≡ some s'
    → (s.lock_held ≡ is_some s.locker)
    → eqb r q ≡ false
    → (acquire r s' ≡ some s')
      × (acquire q s' ≡ none)
      × (make_reservation q s' ≡ none)
      × (release q s' ≡ s')
      × (acquire q (release r s') ≡ some (record s' { locker = some q }))
unfolding acquire make_reservation release
acquire-exclusive s s' r q e h n = (
  ground (arith, eqb_iff r r),
  ground (arith, eqb_iff r q),
  ground arith,
  ground arith,
  ground (arith, eqb_iff r r),
)
