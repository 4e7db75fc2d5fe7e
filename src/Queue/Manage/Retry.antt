-- ===== src/Queue/Manage/Retry.antt =====
-- src/queue.rs: `retry`, which the index on the keys of active jobs can refuse.
use pgspawn.Prelude.{Bool, false, ◌&&◌, none, some}
use pgspawn.Job.{Uuid, Timestamp, Job}
use pgspawn.Table.{Db, clashes, clash_key}
use pgspawn.Table.Lookup.{find_id}
use pgspawn.Queue.Manage.{reset, is_retryable}

module _ {Value : Type 0} where
  -- The job under the id may be retried, but another active job has its key.
  abbrev pub key_taken : Timestamp → Uuid → Db Value → Bool
  key_taken now id db = elim (find_id id db) [
    | none ↦ false
    | some j ↦ is_retryable j.status && clashes clash_key (reset now j) db.jobs
  ]
