-- ===== src/Queue/Read/Rows.antt =====
-- src/queue.rs: `JobRow::into_job` on the rows of the table, `get` and `counts`.
use pgspawn.Prelude.{
  ◌+◌, ◌≡◌, refl, List, [], ◌∷◌, ok, arith, length, count_by, Option-cases, inl, inr,
}
use pgspawn.Job.{Uuid, Job}
use pgspawn.Job.Status.{JobStatus, from_str}
use pgspawn.Table.{Db, is_queued, is_running}
use pgspawn.Table.Lookup.{find_id}
use pgspawn.Queue.Read.{
  stored_status, row_of, into_job, get, counts, is_succeeded, is_failed, is_cancelled,
}

from_str-stored_status : (s : JobStatus) → from_str (stored_status s) ≡ ok s
unfolding from_str
from_str-stored_status JobStatus.queued = refl
from_str-stored_status JobStatus.running = refl
from_str-stored_status JobStatus.succeeded = refl
from_str-stored_status JobStatus.failed = refl
from_str-stored_status JobStatus.cancelled = refl

module _ {Value : Type 0} where
  pub into_job-row_of : (j : Job Value) → into_job (row_of j) ≡ ok j
  unfolding into_job
  into_job-row_of j = ground (arith, from_str-stored_status j.status)

  -- The five counts add up to the number of jobs in the table.
  pub counts-length :
      (db : Db Value)
      → (counts db).queued
          + (counts db).running
          + (counts db).succeeded
          + (counts db).failed
          + (counts db).cancelled
        ≡ length db.jobs
  unfolding counts
  counts-length db = total db.jobs
    where
      total :
          (js : List (Job Value))
          → count_by (λ j. is_queued j.status) js
              + count_by (λ j. is_running j.status) js
              + count_by (λ j. is_succeeded j.status) js
              + count_by (λ j. is_failed j.status) js
              + count_by (λ j. is_cancelled j.status) js
            ≡ length js
      total [] = refl
      total (j ∷ js) = ground (arith, total js)

  -- get reads the row under an id, with each of its columns, as the job that it stands for, and fails on none
  -- of the status texts that the table's check allows.
  pub get-find_id : (id : Uuid) (db : Db Value) → get id db ≡ ok (find_id id db)
  unfolding get
  get-find_id id db = elim (Option-cases (find_id id db)) [
    | inl n ↦ ground (arith, n)
    | inr (j, s) ↦ ground (arith, s, into_job-row_of j)
  ]
