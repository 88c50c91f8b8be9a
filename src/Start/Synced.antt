-- ===== src/Start/Synced.antt =====
-- What `_sync_jobs` creates, and that it changes nothing that exists.
use data_lineup.Base.{
  ℕ, String, Bool, false, not, ◌&&◌, Option, none, some, List, [], ◌∷◌, string_eq, ◌==◌, ==_iff,
  ◌≡◌, arith, Option-cases, Bool-cases, inl, inr, All, if◌then◌else◌,
}
use data_lineup.Dict.{lookup, has_key, insert, values, lookup-insert, has_key-lookup}
use data_lineup.Stores.{Job, Database, create_queue, create_job, get_last_job}
use data_lineup.Start.{
  JobDefinition, is_due, resume_cursor, create_both, sync_job, create_due, sync_definitions,
  sync_static, sync_jobs,
}
use data_lineup.Start.Due.{IsLast, Decision, decided, decided-Decision, latest-IsLast}
use data_lineup.Start.Static.{fresh_job}

-- What `create_both` leaves for every name.
lookup-create_both :
    (n k : String) (definition : Option String) (now : ℕ) (db db' : Database)
    → create_both n definition now db ≡ some db'
    → (has_key n db.jobs ≡ false)
      × (lookup k db'.jobs
          ≡ (if n == k then some (fresh_job n definition now) else lookup k db.jobs))
unfolding create_queue create_job
lookup-create_both n k definition now db db' e =
    let j = fresh_job n definition now in
    (ground arith, ground (arith, lookup-insert n k j db.jobs))

module _ (now : ℕ) where
  sync_job-keeps :
      (n k : String) (j : Job) (db db' : Database)
      → sync_job n now db ≡ some db'
      → lookup k db.jobs ≡ some j
      → lookup k db'.jobs ≡ some j
  unfolding sync_job
  sync_job-keeps n k j db db' e h = elim (Option-cases (lookup n db.jobs)) [
    | inr (old, present) ↦ ground (arith, present)
    | inl absent ↦
        let (free, same) = lookup-create_both n k none now db db' (ground (arith, absent)) in
        ground (arith, same, ==_iff n k)
  ]

  sync_job-present :
      (n : String) (db db' : Database)
      → sync_job n now db ≡ some db'
      → (j : Job) × (lookup n db'.jobs ≡ some j)
  unfolding sync_job
  sync_job-present n db db' e = elim (Option-cases (lookup n db.jobs)) [
    | inr (old, present) ↦ (old, ground (arith, present))
    | inl absent ↦
        let (free, same) = lookup-create_both n n none now db db' (ground (arith, absent)) in
        (fresh_job n none now, ground (arith, same, ==_iff n n))
  ]

  sync_static-keeps :
      (names : List String) (k : String) (j : Job) (db db' : Database)
      → sync_static names now db ≡ some db'
      → lookup k db.jobs ≡ some j
      → lookup k db'.jobs ≡ some j
  unfolding sync_static
  sync_static-keeps [] k j db db' e h = ground arith
  sync_static-keeps (n ∷ names) k j db db' e h = elim (Option-cases (sync_job n now db)) [
    | inl refused ↦ absurd (ground (arith, refused))
    | inr (d, ran) ↦
        sync_static-keeps names k j d db' (ground (arith, ran)) (sync_job-keeps n k j db d ran h)
  ]

  -- After the first loop, unless the database refuses a key, every static job has a job of its
  -- name, and every job that was there is as it was.
  pub sync_static-present :
      (names : List String) (db db' : Database)
      → sync_static names now db ≡ some db'
      → All (λ n. (j : Job) × (lookup n db'.jobs ≡ some j)) names
        × ((k : String) (j : Job) → lookup k db.jobs ≡ some j → lookup k db'.jobs ≡ some j)
  unfolding sync_static
  sync_static-present [] db db' e = (tt, λ k j h. sync_static-keeps [] k j db db' e h)
  sync_static-present (n ∷ names) db db' e = elim (Option-cases (sync_job n now db)) [
    | inl refused ↦ absurd (ground (arith, refused))
    | inr (d, ran) ↦
        let (j, here) = sync_job-present n db d ran in
        let (rest, _) = sync_static-present names d db' (ground (arith, ran)) in
        (
          ((j, sync_static-keeps names n j d db' (ground (arith, ran)) here), rest),
          λ k j h. sync_static-keeps (n ∷ names) k j db db' e h,
        )
  ]

module _ (stamp : String → ℕ → String) (next_run : String → ℕ → ℕ) (now : ℕ) where
  abbrev is_available : String → Database → Bool
  is_available name db = not (has_key name db.queues) && not (has_key name db.jobs)

  sync_definitions-decided :
      (d : JobDefinition) (k : String) (db : Database)
      → let last = get_last_job d.name db in
        let new = stamp d.name now in
        lookup k (sync_definitions stamp next_run (d ∷ []) now db db).jobs
        ≡ elim (decided stamp next_run d now last) as (λ _. Option Job) [
          | none ↦ lookup k db.jobs
          | some cursor ↦
              if is_available new db && new == k
              then some (record (fresh_job new (some d.name) now) { cursor = cursor })
              else lookup k db.jobs
        ]
  unfolding sync_definitions
  sync_definitions-decided d k db =
      let last = get_last_job d.name db in
      let new = stamp d.name now in
      let job = fresh_job new (some d.name) now in
      ground (
        arith,
        lookup-insert new new job db.jobs,
        ==_iff new new,
        lookup-insert new k job db.jobs,
        lookup-insert new k (record job { cursor = resume_cursor stamp next_run last })
            (insert new job db.jobs),
      )

  -- What the second loop does for a single definition follows from the last of its jobs, one that
  -- none of them started after. Without one, or where that one has completed and has failed, or has
  -- not failed and the interval is over, there is one new job, unless its name is taken: a fresh one
  -- that resumes at the cursor of a last job that failed, else without a cursor. Where the last job
  -- still runs or the interval is not over, there is none. Every other job stays as it is.
  pub lookup-sync_definitions :
      (d : JobDefinition) (db : Database)
      → let new = stamp d.name now in
        (last : Option Job) × (decision : Option (Option String)) × IsLast d.name
          (values db.jobs)
          last
        × Decision next_run d now last decision
        × ((k : String)
            → lookup k (sync_definitions stamp next_run (d ∷ []) now db db).jobs
              ≡ elim decision as (λ _. Option Job) [
                | none ↦ lookup k db.jobs
                | some cursor ↦
                    if not (has_key new db.queues) && not (has_key new db.jobs) && new == k
                    then some (record (fresh_job new (some d.name) now) { cursor = cursor })
                    else lookup k db.jobs
              ])
  unfolding get_last_job
  lookup-sync_definitions d db =
      let last = get_last_job d.name db in
      (
        last,
        decided stamp next_run d now last,
        latest-IsLast d.name (values db.jobs),
        decided-Decision stamp next_run d now last,
        λ k. sync_definitions-decided d k db,
      )

  create_due-keeps :
      (d : JobDefinition) (last : Option Job) (k : String) (j : Job) (db db' : Database)
      → create_due stamp next_run d now last db ≡ some db'
      → lookup k db.jobs ≡ some j
      → lookup k db'.jobs ≡ some j
  unfolding create_queue create_job
  create_due-keeps d last k j db db' e h =
      let new = stamp d.name now in
      let job = fresh_job new (some d.name) now in
      ground (
        arith,
        lookup-insert new new job db.jobs,
        ==_iff new new,
        ==_iff new k,
        has_key-lookup new db.jobs,
        lookup-insert new k job db.jobs,
        lookup-insert new k (record job { cursor = resume_cursor stamp next_run last })
            (insert new job db.jobs),
      )

  sync_definitions-keeps :
      (ds : List JobDefinition) (k : String) (j : Job) (committed db : Database)
      → lookup k committed.jobs ≡ some j
      → lookup k db.jobs ≡ some j
      → lookup k (sync_definitions stamp next_run ds now committed db).jobs ≡ some j
  unfolding sync_definitions
  sync_definitions-keeps [] k j committed db c h = h
  sync_definitions-keeps (d ∷ ds) k j committed db c h =
      let last = get_last_job d.name db in
      elim (Bool-cases (is_due stamp next_run d now last)) [
        | inr waits ↦ ground (arith, waits, sync_definitions-keeps ds k j committed db c h)
        | inl due ↦ elim (Option-cases (create_due stamp next_run d now last db)) [
          | inl refused ↦ ground (arith, due, refused)
          | inr (db', made) ↦
              let kept = create_due-keeps d last k j db db' made h in
              ground (arith, due, made, sync_definitions-keeps ds k j db' db' kept kept)
        ]
      ]

  -- A sync keeps every job of the database as it is, whatever it creates beside, and wherever a
  -- key is refused.
  pub sync_jobs-keeps :
      (names : List String) (ds : List JobDefinition) (k : String) (j : Job) (db : Database)
      → lookup k db.jobs ≡ some j
      → lookup k (sync_jobs stamp next_run names ds now db).jobs ≡ some j
  unfolding sync_jobs
  sync_jobs-keeps names ds k j db h = elim (Option-cases (sync_static names now db)) [
    | inl refused ↦ ground (arith, refused)
    | inr (db', ran) ↦ ground (
      arith,
      ran,
      sync_definitions-keeps ds k j db db' h (sync_static-keeps now names k j db db' ran h),
    )
  ]
