-- ===== src/Throttle/Served.antt =====
-- The futures of a throttle.
use data_lineup.Base.{
  ℕ, ◌+◌, ◌<◌, Bool, true, false, ◌||◌, Option, none, some, ◌∷◌, nat_eq, ◌==◌, eqb_iff, ◌≡◌, refl,
  sym, subst, arith, is_some, Option-cases, inl, inr, ◌⊎◌,
}
use data_lineup.Dict.{elem}
use data_lineup.Throttle.{
  Phase, idle, waiting, running, DelayedThrottle, call_nowait, call, settle, end_task, fire,
  finish_run, cancel,
}
use data_lineup.Throttle as Calls

abbrev pub is_future : ℕ → Option ℕ → Bool
is_future f none = false
is_future f (some g) = g == f

abbrev pub is_run_for : ℕ → Phase → Bool
is_run_for f idle = false
is_run_for f waiting = false
is_run_for f (running g) = is_future f g

abbrev pub is_idle : Phase → Bool
is_idle idle = true
is_idle waiting = false
is_idle (running f) = false

Phase-cases : (p : Phase) → (p ≡ idle) ⊎ ((p ≡ waiting) ⊎ ((f : Option ℕ) × (p ≡ running f)))
Phase-cases idle = inl refl
Phase-cases waiting = inr (inl refl)
Phase-cases (running f) = inr (inr (f, refl))

module _ {P : Type 0} where
  -- Is a future set?
  abbrev pub is_set : ℕ → DelayedThrottle P → Bool
  is_set f s = elem f s.succeeded || elem f s.failed

  -- Parameters that wait have a task, the future of the next run has parameters that wait, and
  -- every future is set, or that of the next run, or that of the one that runs.
  pub record IsServed (s : DelayedThrottle P) : Type 0 where
    pub scheduled : is_some s.delayed_params ≡ true → is_idle s.phase ≡ false
    pub awaited : is_some s.call_fut ≡ true → is_some s.delayed_params ≡ true
    pub served :
        (f : ℕ)
        → f < s.next_fut
        → (is_set f s || is_future f s.call_fut || is_run_for f s.phase) ≡ true

  -- The states of a throttle that is not cancelled.
  pub data Reach : DelayedThrottle P → Type 0 where
    start : Reach Calls.init
    after_nowait : {s : DelayedThrottle P} (p : P) → Reach s → Reach (call_nowait p s)
    after_call : {s : DelayedThrottle P} (p : P) → Reach s → Reach (call p s).1
    after_wait : {s : DelayedThrottle P} → Reach s → s.phase ≡ waiting → Reach (fire s)
    after_run :
        {s : DelayedThrottle P} (has_result : Bool) (f : Option ℕ)
        → Reach s
        → s.phase ≡ running f
        → Reach (finish_run has_result f s)

  call-new :
      (p : P) (s : DelayedThrottle P)
      → s.call_fut ≡ none
      → (call p s).1
        ≡ call_nowait p (record s { call_fut = some s.next_fut; next_fut = s.next_fut + 1 })
  unfolding call
  call-new p s e = ground (arith, e)

  call-joined :
      (p : P) (s : DelayedThrottle P) (f : ℕ)
      → s.call_fut ≡ some f
      → call p s ≡ (f, call_nowait p s)
  unfolding call
  call-joined p s f e = ground (arith, e)

  -- A call_nowait settles what waits, wherever the future comes from.
  call_nowait-IsServed :
      (p : P) (s : DelayedThrottle P)
      → ((f : ℕ)
          → f < s.next_fut
          → (is_set f s || is_future f s.call_fut || is_run_for f s.phase) ≡ true)
      → IsServed (call_nowait p s)
  unfolding call_nowait
  call_nowait-IsServed p s served = elim (Phase-cases s.phase) [
    | inl e ↦ record {
      scheduled = λ h. ground (arith, e);
      awaited = λ h. refl;
      served = λ f h. ground (arith, e, served f h);
    }
    | inr (inl e) ↦ record {
      scheduled = λ h. ground (arith, e);
      awaited = λ h. refl;
      served = λ f h. ground (arith, e, served f h);
    }
    | inr (inr (g, e)) ↦ record {
      scheduled = λ h. ground (arith, e);
      awaited = λ h. refl;
      served = λ f h. ground (arith, e, served f h);
    }
  ]

  call-IsServed : (p : P) (s : DelayedThrottle P) → IsServed s → IsServed (call p s).1
  call-IsServed p s v = elim (Option-cases s.call_fut) [
    | inl e ↦ subst IsServed (sym (call-new p s e)) (
        call_nowait-IsServed p (record s { call_fut = some s.next_fut; next_fut = s.next_fut + 1 })
          (λ f h. ground (arith, e, h, v.served f, eqb_iff s.next_fut f)))
    | inr (f, e) ↦
        let joined = call-joined p s f e in
        subst (λ (r : ℕ × DelayedThrottle P). IsServed r.1) (sym joined)
          (call_nowait-IsServed p s v.served)
  ]

  -- The end of a task after which every future is set or that of the next run.
  end_task-IsServed :
      (s : DelayedThrottle P)
      → (is_some s.call_fut ≡ true → is_some s.delayed_params ≡ true)
      → ((f : ℕ) → f < s.next_fut → (is_set f s || is_future f s.call_fut) ≡ true)
      → IsServed (end_task s)
  unfolding end_task
  end_task-IsServed s awaited served = elim (Option-cases s.delayed_params) [
    | inl e ↦
        let same : end_task s ≡ record s { phase = idle } = ground (arith, e) in
        subst IsServed (sym same) (record {
          scheduled = λ h. absurd (ground (arith, e, h));
          awaited = awaited;
          served = λ f h. ground (arith, served f h);
        })
    | inr (p, e) ↦
        let same : end_task s ≡ call_nowait p (record s { phase = idle }) = ground (arith, e) in
        subst IsServed (sym same)
          (call_nowait-IsServed p (record s { phase = idle }) (λ f h. ground (arith, served f h)))
  ]

  fire-IsServed : (s : DelayedThrottle P) → IsServed s → s.phase ≡ waiting → IsServed (fire s)
  unfolding fire
  fire-IsServed s v w = elim (Option-cases s.delayed_params) [
    | inl e ↦
        let unasked : s.call_fut ≡ none = ground (arith, e, v.awaited) in
        let same : fire s ≡ end_task s = ground (arith, e, unasked) in
        subst IsServed (sym same)
          (end_task-IsServed s v.awaited (λ f h. ground (arith, w, v.served f h)))
    | inr (p, e) ↦
        let same : fire s ≡ record s {
          delayed_params = none;
          call_fut = none;
          phase = running s.call_fut;
          ran = p ∷ s.ran;
        } =
          ground (arith, e) in
        subst IsServed (sym same) (record {
          scheduled = λ h. absurd (cc h);
          awaited = λ h. absurd (cc h);
          served = λ f h. ground (arith, w, v.served f h);
        })
  ]

  finish_run-IsServed :
      (has_result : Bool) (g : Option ℕ) (s : DelayedThrottle P)
      → IsServed s
      → s.phase ≡ running g
      → IsServed (finish_run has_result g s)
  unfolding finish_run
  finish_run-IsServed has_result none s v w =
      end_task-IsServed s v.awaited (λ f h. ground (arith, w, v.served f h))
  finish_run-IsServed true (some g) s v w =
      end_task-IsServed (record s { succeeded = g ∷ s.succeeded }) v.awaited
        (λ f h. ground (arith, w, v.served f h))
  finish_run-IsServed false (some g) s v w =
      end_task-IsServed (record s { failed = g ∷ s.failed }) v.awaited
        (λ f h. ground (arith, w, v.served f h))

  -- In every state that calls, waits that end and runs reach, without a cancel, parameters that
  -- wait have a task that will run with them, and every future that was handed out is set, or is
  -- that of the next run, whose parameters wait, or is that of the run under way.
  pub Reach-IsServed : {s : DelayedThrottle P} → Reach s → IsServed s
  Reach-IsServed start = record {
    scheduled = λ h. absurd (cc h);
    awaited = λ h. absurd (cc h);
    served = λ f h. absurd (omega (arith, h));
  }
  Reach-IsServed (after_nowait {s} p r) = call_nowait-IsServed p s (Reach-IsServed r).served
  Reach-IsServed (after_call {s} p r) = call-IsServed p s (Reach-IsServed r)
  Reach-IsServed (after_wait {s} r w) = fire-IsServed s (Reach-IsServed r) w
  Reach-IsServed (after_run {s} has_result f r w) =
      finish_run-IsServed has_result f s (Reach-IsServed r) w

  -- A call whose wait is cancelled leaves its future, which has failed, in the throttle: the next
  -- call returns that future again, although its own run is scheduled.
  pub call-cancel :
      (p : P) (s : DelayedThrottle P) (f : ℕ)
      → s.phase ≡ waiting
      → s.call_fut ≡ some f
      → let s' = cancel s in
        (elem f s'.failed ≡ true)
        × ((call p s').0 ≡ f)
        × ((call p s').1.delayed_params ≡ some p)
        × ((call p s').1.phase ≡ waiting)
  unfolding cancel call call_nowait end_task
  call-cancel p s f w e = (
    ground (arith, w, e, eqb_iff f f),
    ground (arith, w, e),
    ground (arith, w, e),
    ground (arith, w, e),
  )
