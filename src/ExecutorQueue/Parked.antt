-- ===== src/ExecutorQueue/Parked.antt =====
-- When the queue that messages come from is parked.
use data_lineup.Base.{
  ℕ, String, true, false, ◌||◌, Option, none, some, List, [], ◌∷◌, nat_eq, ==_iff, ◌≡◌, refl, sym,
  ◌∙◌, arith, List-cases, Bool-cases, inl, inr, ◌⊎◌,
}
use data_lineup.Dict.{elem, add, elem-add, elem-discard}
use data_lineup.Resources.{ResourceData, value_error, resource_unavailable, key_error}
use data_lineup.ResourcesManager.{ResourcesManager, Held, acquire_many}
use data_lineup.ResourcesManager.Atomic.{Result-cases}
use data_lineup.ExecutorQueue.{
  Message, ExecutorQueue, locked, acquire_resources, submit, delayed_submit, begin_output,
  block_output, unblock_output, end_output,
}

-- Parked for every message that waits, and for no other than those that wait for resources or whose
-- output is being consumed.
pub record IsParked (q : ExecutorQueue) : Type 0 where
  pub waits : (m : ℕ) → (elem m q.delayed || elem m q.blocked) ≡ true → elem m q.parkers ≡ true
  pub only : (m : ℕ) → elem m q.parkers ≡ true → (elem m q.delayed || elem m q.consuming) ≡ true
  pub within : (m : ℕ) → elem m q.blocked ≡ true → elem m q.consuming ≡ true
  pub apart : (m : ℕ) → elem m q.delayed ≡ true → elem m q.consuming ≡ false

module _ (sorted : List String → List String) (stats : ResourceData → List (ℕ × ℕ)) where
  -- The states of an executor queue, from one without messages on, at any times. A message is
  -- not submitted again while it waits or its output is consumed, and its output is consumed after
  -- its submission.
  pub data Reach : ExecutorQueue → Type 0 where
    start :
        (manager : ResourcesManager)
        → Reach (record {
          manager = manager;
          parkers = [];
          submitted = [];
          delayed = [];
          consuming = [];
          blocked = [];
          attached = [];
        })
    after_submit :
        {q : ExecutorQueue} (now : ℕ) (m : Message)
        → Reach q
        → elem m.id q.delayed ≡ false
        → elem m.id q.consuming ≡ false
        → Reach (submit sorted now stats m q).1
    after_delay :
        {q : ExecutorQueue} (m : ℕ) (acquired : Option (Held × ResourcesManager))
        → Reach q
        → elem m q.delayed ≡ true
        → Reach (delayed_submit m acquired q)
    after_begin :
        {q : ExecutorQueue} (m : ℕ) → Reach q → elem m q.delayed ≡ false → Reach (begin_output m q)
    after_block :
        {q : ExecutorQueue} (m : ℕ) → Reach q → elem m q.consuming ≡ true → Reach (block_output m q)
    after_unblock : {q : ExecutorQueue} (m : ℕ) → Reach q → Reach (unblock_output m q)
    after_output :
        {q : ExecutorQueue} (m : ℕ) → Reach q → elem m q.consuming ≡ true → Reach (end_output m q)

  -- What `submit` changes of the parked messages: nothing, or it parks and delays the message.
  submit-cases :
      (now : ℕ) (m : Message) (q : ExecutorQueue)
      → let q' = (submit sorted now stats m q).1 in
        (q'.consuming ≡ q.consuming)
        × (q'.blocked ≡ q.blocked)
        × (((q'.parkers ≡ q.parkers) × (q'.delayed ≡ q.delayed))
            ⊎ ((q'.parkers ≡ add m.id q.parkers) × (q'.delayed ≡ m.id ∷ q.delayed)))
  unfolding submit acquire_resources
  submit-cases now m q = elim (List-cases m.missing_resources) [
    | inl e ↦ (ground (arith, e), ground (arith, e), inl (ground (arith, e), ground (arith, e)))
    | inr (r, rs, e) ↦ elim (Result-cases (acquire_many sorted now stats (r ∷ rs) q.manager).0) [
      | inl (held, f) ↦ (
        ground (arith, e, f),
        ground (arith, e, f),
        inl (ground (arith, e, f), ground (arith, e, f)),
      )
      | inr (value_error, f) ↦ (
        ground (arith, e, f),
        ground (arith, e, f),
        inl (ground (arith, e, f), ground (arith, e, f)),
      )
      | inr (resource_unavailable, f) ↦ (
        ground (arith, e, f),
        ground (arith, e, f),
        inr (ground (arith, e, f), ground (arith, e, f)),
      )
      | inr (key_error, f) ↦ (
        ground (arith, e, f),
        ground (arith, e, f),
        inl (ground (arith, e, f), ground (arith, e, f)),
      )
    ]
  ]

  submit-IsParked :
      (now : ℕ) (m : Message) (q : ExecutorQueue)
      → IsParked q
      → elem m.id q.consuming ≡ false
      → IsParked (submit sorted now stats m q).1
  submit-IsParked now m q v idle =
      let (same, still, cases) = submit-cases now m q in
      elim cases [
        | inl (p, d) ↦ record {
          waits = λ k. rw (p, d, still) (v.waits k);
          only = λ k. rw (p, d, same) (v.only k);
          within = λ k. rw (same, still) (v.within k);
          apart = λ k. rw (same, d) (v.apart k);
        }
        | inr (p, d) ↦ record {
          waits = λ k.
              rw (p, d, still)
                (λ e. ground (arith, e, elem-add m.id k q.parkers, v.waits k, ==_iff m.id k));
          only = λ k.
              rw (p, d, same)
                (λ e. ground (arith, e, elem-add m.id k q.parkers, v.only k, ==_iff m.id k));
          within = λ k. rw (same, still) (v.within k);
          apart = λ k. rw (same, d) (λ e. ground (arith, e, idle, v.apart k, ==_iff m.id k));
        }
      ]

module _ (m : ℕ) (q : ExecutorQueue) (v : IsParked q) where
  delayed_submit-IsParked :
      (acquired : Option (Held × ResourcesManager))
      → elem m q.delayed ≡ true
      → IsParked (delayed_submit m acquired q)
  unfolding delayed_submit
  delayed_submit-IsParked none here = record {
    waits = λ k e. ground (
      arith,
      elem-discard m k q.parkers,
      elem-discard m k q.delayed,
      v.waits k,
      v.within k,
      v.apart k,
      ==_iff m k,
    );
    only = λ k e.
        ground
          (arith, elem-discard m k q.parkers, elem-discard m k q.delayed, v.only k, ==_iff m k);
    within = v.within;
    apart = λ k e. ground (arith, elem-discard m k q.delayed, v.apart k);
  }
  delayed_submit-IsParked (some a) here = record {
    waits = λ k e. ground (
      arith,
      elem-discard m k q.parkers,
      elem-discard m k q.delayed,
      v.waits k,
      v.within k,
      v.apart k,
      ==_iff m k,
    );
    only = λ k e.
        ground
          (arith, elem-discard m k q.parkers, elem-discard m k q.delayed, v.only k, ==_iff m k);
    within = v.within;
    apart = λ k e. ground (arith, elem-discard m k q.delayed, v.apart k);
  }

  begin_output-IsParked : elem m q.delayed ≡ false → IsParked (begin_output m q)
  begin_output-IsParked idle = record {
    waits = v.waits;
    only = λ k e. ground (arith, elem-add m k q.consuming, v.only k);
    within = λ k e. ground (arith, elem-add m k q.consuming, v.within k);
    apart = λ k e. ground (arith, elem-add m k q.consuming, v.apart k, ==_iff m k);
  }

  block_output-IsParked : elem m q.consuming ≡ true → IsParked (block_output m q)
  block_output-IsParked here = record {
    waits = λ k e.
        ground (arith, elem-add m k q.parkers, elem-add m k q.blocked, v.waits k, ==_iff m k);
    only = λ k e. ground (arith, elem-add m k q.parkers, v.only k, ==_iff m k);
    within = λ k e. ground (arith, elem-add m k q.blocked, v.within k, ==_iff m k);
    apart = v.apart;
  }

  unblock_output-IsParked : IsParked (unblock_output m q)
  unblock_output-IsParked = record {
    waits = λ k e. ground (arith, elem-discard m k q.blocked, v.waits k);
    only = v.only;
    within = λ k e. ground (arith, elem-discard m k q.blocked, v.within k);
    apart = v.apart;
  }

  end_output-IsParked : elem m q.consuming ≡ true → IsParked (end_output m q)
  end_output-IsParked here = record {
    waits = λ k e. ground (
      arith,
      elem-discard m k q.parkers,
      elem-discard m k q.blocked,
      v.waits k,
      v.apart k,
      ==_iff m k,
    );
    only = λ k e.
        ground
          (arith, elem-discard m k q.parkers, elem-discard m k q.consuming, v.only k, ==_iff m k);
    within =
        λ k e. ground (arith, elem-discard m k q.blocked, elem-discard m k q.consuming, v.within k);
    apart = λ k e. ground (arith, elem-discard m k q.consuming, v.apart k);
  }

unlocked : (q : ExecutorQueue) (m : ℕ) → locked q ≡ false → elem m q.parkers ≡ false
unlocked q m e = elim (List-cases q.parkers) [
  | inl f ↦ rw f refl
  | inr (p, ps, f) ↦ absurd (cc (rw f at e))
]

all_absent : (q : ExecutorQueue) → ((m : ℕ) → elem m q.parkers ≡ false) → locked q ≡ false
all_absent q h = elim (List-cases q.parkers) [
  | inl f ↦ rw f refl
  | inr (p, ps, f) ↦ absurd (ground (arith, rw f at (h p), ==_iff p p))
]

module _ {sorted : List String → List String} {stats : ResourceData → List (ℕ × ℕ)} where
  Reach-IsParked : {q : ExecutorQueue} → Reach sorted stats q → IsParked q
  Reach-IsParked (start manager) = record {
    waits = λ m e. absurd (cc e);
    only = λ m e. absurd (cc e);
    within = λ m e. absurd (cc e);
    apart = λ m e. refl;
  }
  Reach-IsParked (after_submit {q} now m r fresh idle) =
      submit-IsParked sorted stats now m q (Reach-IsParked r) idle
  Reach-IsParked (after_delay {q} m acquired r here) =
      delayed_submit-IsParked m q (Reach-IsParked r) acquired here
  Reach-IsParked (after_begin {q} m r idle) = begin_output-IsParked m q (Reach-IsParked r) idle
  Reach-IsParked (after_block {q} m r here) = block_output-IsParked m q (Reach-IsParked r) here
  Reach-IsParked (after_unblock {q} m r) = unblock_output-IsParked m q (Reach-IsParked r)
  Reach-IsParked (after_output {q} m r here) = end_output-IsParked m q (Reach-IsParked r) here

  -- In every reachable state the queue that messages come from is locked as long as one of its
  -- messages waits for resources or for a topic to take an output; and it is open as soon as none
  -- of them waits for resources and of none is the output still being consumed.
  pub Reach-locked :
      {q : ExecutorQueue}
      → Reach sorted stats q
      → ((m : ℕ) → (elem m q.delayed || elem m q.blocked) ≡ true → locked q ≡ true)
        × (((m : ℕ) → (elem m q.delayed || elem m q.consuming) ≡ false) → locked q ≡ false)
  Reach-locked {q} r =
      let v = Reach-IsParked r in
      (
        λ m e. elim (Bool-cases (locked q)) [
          | inl f ↦ f
          | inr f ↦ absurd (cc (sym (v.waits m e) ∙ unlocked q m f))
        ],
        λ h. all_absent q (λ m. ground (arith, h m, v.only m)),
      )
