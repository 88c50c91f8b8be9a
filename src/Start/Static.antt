-- ===== src/Start/Static.antt =====
-- What `start` does with a job that runs, and with a job that has no definition.
use data_lineup.Base.{
  ℕ, String, Bool, true, false, Option, none, some, [], ◌∷◌, string_eq, ◌==◌, ==_iff, ◌≡◌, refl,
  arith, or_else, if◌then◌else◌,
}
use data_lineup.Dict.{Dict, lookup, has_key, insert, values, lookup-insert}
use data_lineup.Inventory.{truthy}
use data_lineup.Stores.{Queue, Job, Database}
use data_lineup.Lock.{QueueItem, StaticDefinitions, join_definitions, job_of}
use data_lineup.Start.{started, start}

abbrev pub fresh_job : String → Option String → ℕ → Job
fresh_job name job_definition_name now = record {
  name = name;
  cursor = none;
  completed_at = none;
  started_at = now;
  queue_name = name;
  error = none;
  job_definition_name = job_definition_name;
}

job_of-insert :
    (q k : String) (j : Job) (jobs : Dict String Job)
    → has_key k jobs ≡ false
    → job_of q (values (insert k j jobs))
      ≡ or_else (job_of q (values jobs)) (if j.queue_name == q then some j else none)
job_of-insert q k j [] h = refl
job_of-insert q k j ((i, x) ∷ jobs) h = ground (arith, job_of-insert q k j jobs)

module _ (stamp : String → ℕ → String) (defs : StaticDefinitions) (db : Database) (now : ℕ)
    (restart : Bool) where
  -- A static job that is started by its name, whether or not it runs already: the new job has the
  -- stamped name and no definition, so that its queue cannot be joined with the definitions. Given
  -- that the stamped name is neither taken in the database nor itself the name of a static job,
  -- and that no job of the database has a queue of that name.
  pub start-static_job :
      (name : String) (q : QueueItem)
      → truthy (some name) ≡ some name
      → lookup name defs.jobs ≡ some q
      → has_key (stamp q.name now) db.queues ≡ false
      → has_key (stamp q.name now) db.jobs ≡ false
      → job_of (stamp q.name now) (values db.jobs) ≡ none
      → lookup (stamp q.name now) defs.jobs ≡ none
      → (db' : Database) × (queue : Queue) × (start stamp
            (record { name = some name; job_definition_name = none })
            defs
            db
            restart
            now
          ≡ started (stamp q.name now) db')
        × (lookup (stamp q.name now) db'.queues ≡ some queue)
        × (lookup (stamp q.name now) db'.jobs ≡ some (fresh_job (stamp q.name now) none now))
        × (join_definitions defs db' queue ≡ none)
  unfolding start join_definitions
  start-static_job name q t found free_queue free_job unjoined unnamed =
      let new = stamp q.name now in
      let queue : Queue = record {
        name = new;
        assigned_at = none;
        assigned_to = none;
        enabled = true;
      } in
      let job = fresh_job new none now in
      let db' : Database = record {
        queues = insert new queue db.queues;
        jobs = insert new job db.jobs;
      } in
      (
        db',
        queue,
        ground (arith, t, found, free_queue, free_job),
        ground (arith, lookup-insert new new queue db.queues, ==_iff new new),
        ground (arith, lookup-insert new new job db.jobs, ==_iff new new),
        let joined : job_of new (values db'.jobs) ≡ some job =
              ground (arith, job_of-insert new new job db.jobs free_job, ==_iff new new) in
            ground (arith, joined, unnamed),
      )
