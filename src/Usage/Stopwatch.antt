-- ===== src/Usage/Stopwatch.antt =====
-- The usage of a pipeline against a stopwatch for each of its messages.
use data_lineup.Base.{
  ℕ, zero, suc, ◌+◌, ◌-◌, ◌*◌, ◌≤◌, ◌<◌, true, false, none, some, [], ◌∷◌, nat_eq, ◌==◌, length,
  if◌then◌else◌, ◌≡◌, refl, arith, Bool-cases, inl, inr, All, eqb, eqb_iff,
}
use data_lineup.Dict.{Dict, keys, elem, discard}
use data_lineup.Usage.{PipelineState, new_pipeline, flush, enter, leave, collect}

-- When each message entered, or was counted last, and the time of those that left since.
pub record Watches : Type 0 where
  pub entered : Dict ℕ ℕ
  pub spent : ℕ

-- The time of all the messages up to `t`.
abbrev pub total : ℕ → Dict ℕ ℕ → ℕ
total t [] = 0
total t ((m, at) ∷ w) = (t - at) + total t w

abbrev since : ℕ → ℕ → Dict ℕ ℕ → ℕ
since t m [] = 0
since t m ((k, at) ∷ w) = let rest = since t m w in if k == m then (t - at) + rest else rest

abbrev without : ℕ → Dict ℕ ℕ → Dict ℕ ℕ
without m [] = []
without m ((k, at) ∷ w) = let rest = without m w in if k == m then rest else (k, at) ∷ rest

abbrev restarted : ℕ → Dict ℕ ℕ → Dict ℕ ℕ
restarted t [] = []
restarted t ((k, at) ∷ w) = (k, t) ∷ restarted t w

-- A message that is here already goes on; one that leaves adds its time; a collection takes the
-- time of all, and restarts the watches.
abbrev pub start_watch : (t m : ℕ) → Watches → Watches
start_watch t m w = record w {
  entered = if elem m (keys w.entered) then w.entered else (m, t) ∷ w.entered;
}

abbrev pub stop_watch : (t m : ℕ) → Watches → Watches
stop_watch t m w = record { entered = without m w.entered; spent = w.spent + since t m w.entered }

abbrev pub restart : ℕ → Watches → Watches
restart t w = record { entered = restarted t w.entered; spent = 0 }

-- A pipeline and the watches of its messages, under any calls whose readings of the clock are in
-- order, where no two collections fall on the same reading.
pub data Runs : PipelineState → Watches → Type 0 where
  created :
      (flushed collected : ℕ)
      → Runs (new_pipeline flushed collected) (record { entered = []; spent = 0 })
  after_enter :
      {s : PipelineState} {w : Watches} (now clock m : ℕ)
      → Runs s w
      → s.last_flushed_at ≤ clock
      → Runs (enter now clock m s) (start_watch clock m w)
  after_leave :
      {s : PipelineState} {w : Watches} (now clock m : ℕ)
      → Runs s w
      → s.last_flushed_at ≤ clock
      → Runs (leave now clock m s) (stop_watch clock m w)
  after_collect :
      {s : PipelineState} {w : Watches} (now clock : ℕ)
      → Runs s w
      → s.last_flushed_at ≤ clock
      → s.last_collected_at < now
      → Runs (collect now clock s).1 (restart clock w)

-- The same messages, entered no later than the last flush, which has counted their time.
record Matches (s : PipelineState) (w : Watches) : Type 0 where
  same : keys w.entered ≡ s.messages
  before : All (λ p. p.1 ≤ s.last_flushed_at) w.entered
  counted : s.usage ≡ w.spent + total s.last_flushed_at w.entered

total-later :
    (t u : ℕ) (w : Dict ℕ ℕ)
    → t ≤ u
    → All (λ p. p.1 ≤ t) w
    → total u w ≡ total t w + (u - t) * length (keys w)
total-later t u [] le h = ground arith
total-later t u ((k, at) ∷ w) le h = ground (arith, total-later t u w le h.1, h.0)

total-restarted : (t : ℕ) (w : Dict ℕ ℕ) → total t (restarted t w) ≡ 0
total-restarted t [] = refl
total-restarted t ((k, at) ∷ w) = ground (arith, total-restarted t w)

total-without : (t m : ℕ) (w : Dict ℕ ℕ) → total t w ≡ since t m w + total t (without m w)
total-without t m [] = refl
total-without t m ((k, at) ∷ w) = ground (arith, total-without t m w)

keys-without : (m : ℕ) (w : Dict ℕ ℕ) → keys (without m w) ≡ discard m (keys w)
keys-without m [] = refl
keys-without m ((k, at) ∷ w) = ground (arith, keys-without m w)

keys-restarted : (t : ℕ) (w : Dict ℕ ℕ) → keys (restarted t w) ≡ keys w
keys-restarted t [] = refl
keys-restarted t ((k, at) ∷ w) = ground (arith, keys-restarted t w)

without-absent :
    (t m : ℕ) (w : Dict ℕ ℕ) → elem m (keys w) ≡ false → (without m w ≡ w) × (since t m w ≡ 0)
without-absent t m [] e = (refl, refl)
without-absent t m ((k, at) ∷ w) e = ground (arith, without-absent t m w)

All-later : (t u : ℕ) (w : Dict ℕ ℕ) → t ≤ u → All (λ p. p.1 ≤ t) w → All (λ p. p.1 ≤ u) w
All-later t u [] le h = tt
All-later t u ((k, at) ∷ w) le h = (omega (arith, h.0), All-later t u w le h.1)

All-without : (t m : ℕ) (w : Dict ℕ ℕ) → All (λ p. p.1 ≤ t) w → All (λ p. p.1 ≤ t) (without m w)
All-without t m [] h = tt
All-without t m ((k, at) ∷ w) h = ground (arith, h.0, All-without t m w h.1)

All-restarted : (t : ℕ) (w : Dict ℕ ℕ) → All (λ p. p.1 ≤ t) (restarted t w)
All-restarted t [] = tt
All-restarted t ((k, at) ∷ w) = (omega arith, All-restarted t w)

flush-Matches :
    (now clock : ℕ) {s : PipelineState} {w : Watches}
    → Matches s w
    → s.last_flushed_at ≤ clock
    → Matches (flush now clock s) w
unfolding flush
flush-Matches now clock {s} {w} h le = record {
  same = h.same;
  before = All-later s.last_flushed_at clock w.entered le h.before;
  counted =
      let later = total-later s.last_flushed_at clock w.entered le h.before in
      let later' = rw h.same at later in ground (arith, later', h.counted);
}

enter-Matches :
    (now clock m : ℕ) {s : PipelineState} {w : Watches}
    → Matches s w
    → s.last_flushed_at ≤ clock
    → Matches (enter now clock m s) (start_watch clock m w)
unfolding enter flush
enter-Matches now clock m {s} {w} h le =
    let f = flush-Matches now clock h le in
    let at = h.same in
    elim (Bool-cases (elem m s.messages)) [
      | inl e ↦
          let e' : elem m (keys w.entered) ≡ true = rw at e in
          record {
            same = ground (arith, e, e', at);
            before = rw e' f.before;
            counted = rw e' f.counted;
          }
      | inr e ↦
          let e' : elem m (keys w.entered) ≡ false = rw at e in
          record {
            same = ground (arith, e, e', at);
            before = rw e' (omega arith, f.before);
            counted = rw e' (ground (arith, f.counted));
          }
    ]

leave-Matches :
    (now clock m : ℕ) {s : PipelineState} {w : Watches}
    → Matches s w
    → s.last_flushed_at ≤ clock
    → Matches (leave now clock m s) (stop_watch clock m w)
unfolding leave flush
leave-Matches now clock m {s} {w} h le =
    let f = flush-Matches now clock h le in
    let at = h.same in
    elim (Bool-cases (elem m s.messages)) [
      | inl e ↦ record {
        same = rw e (ground (arith, keys-without m w.entered, at));
        before = rw e (All-without clock m w.entered f.before);
        counted = rw e (ground (arith, f.counted, total-without clock m w.entered));
      }
      | inr e ↦
          let e' : elem m (keys w.entered) ≡ false = rw at e in
          let (kept, none_left) = without-absent clock m w.entered e' in
          record {
            same = rw (e, kept) at;
            before = rw (e, kept) h.before;
            counted = rw (e, kept, none_left) (ground (arith, h.counted));
          }
    ]

collect-Matches :
    (now clock : ℕ) {s : PipelineState} {w : Watches}
    → Matches s w
    → s.last_flushed_at ≤ clock
    → s.last_collected_at < now
    → Matches (collect now clock s).1 (restart clock w)
unfolding collect flush
collect-Matches now clock {s} {w} h le later =
    let e : eqb now s.last_collected_at ≡ false = ground arith in
    record {
      same = rw e (ground (arith, keys-restarted clock w.entered, h.same));
      before = rw e (All-restarted clock w.entered);
      counted = rw e (ground (arith, total-restarted clock w.entered));
    }

Runs-Matches : {s : PipelineState} {w : Watches} → Runs s w → Matches s w
Runs-Matches (created f c) = record { same = refl; before = tt; counted = refl }
Runs-Matches (after_enter now clock m r le) = enter-Matches now clock m (Runs-Matches r) le
Runs-Matches (after_leave now clock m r le) = leave-Matches now clock m (Runs-Matches r) le
Runs-Matches (after_collect now clock r le later) =
    collect-Matches now clock (Runs-Matches r) le later

-- Whatever enters, leaves and is collected before, a collection divides the time that the messages
-- stayed since the last one, each by its own stopwatch up to the reading of the clock in the call,
-- by the time between the two collections. It raises exactly when the latter is zero.
pub collect-stopwatches :
    {s : PipelineState} {w : Watches} (now clock : ℕ)
    → Runs s w
    → s.last_flushed_at ≤ clock
    → (collect now clock s).0 ≡ (
        if eqb now s.last_collected_at
        then none
        else some (w.spent + total clock w.entered, now - s.last_collected_at))
unfolding collect flush
collect-stopwatches {s} {w} now clock r le =
    let f = flush-Matches now clock (Runs-Matches r) le in
    let counted = f.counted in ground (arith, counted)

span_split : (a b c n : ℕ) → a ≤ b → b ≤ c → (c - a) * n ≡ (b - a) * n + (c - b) * n
span_split a b c zero le le' = ground arith
span_split a b c (suc n) le le' = ground (arith, span_split a b c n le le')

-- A collection counts the time of the messages up to its own reading of the clock, which is after
-- the `now` that it divides by: with n messages there, n times the difference is added to what a
-- collection without that difference divides, and the divisor is the same.
pub collect-overcounts :
    (now clock : ℕ) (s : PipelineState)
    → s.last_flushed_at ≤ now
    → now ≤ clock
    → s.last_collected_at < now
    → (n d : ℕ) → (collect now now s).0 ≡ some (n, d)
    → (collect now clock s).0 ≡ some (n + (clock - now) * length s.messages, d)
unfolding collect flush
collect-overcounts now clock s le le' later n d e = ground (
  arith,
  e,
  span_split s.last_flushed_at now clock (length s.messages) le le',
  eqb_iff now s.last_collected_at,
)
