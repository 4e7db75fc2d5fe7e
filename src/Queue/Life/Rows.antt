-- ===== src/Queue/Life/Rows.antt =====
-- src/queue.rs: what the SET of each statement does to the life of a row, and an UPDATE to that of all.
use pgspawn.Prelude.{
  ◌≡◌, refl, inl, inr, Bool, true, some, arith, if◌then◌else◌, Bool-cases, Option-cases,
  All-find_by,
}
use pgspawn.Job.{Timestamp, Job}
use pgspawn.Job.Status.{JobStatus, queued, running}
use pgspawn.Table.{Db, is_queued, is_running, touch, update_jobs}
use pgspawn.Table.Valid.{RowOk, IsValid}
use pgspawn.Table.Lookup.{find_id, by_id, find_by-update_rows}
use pgspawn.Queue.Life.{Life, stays, view, Lives}

pub queued_status : (s : JobStatus) → is_queued s ≡ true → s ≡ queued
queued_status s h = ground arith

pub running_status : (s : JobStatus) → is_running s ≡ true → s ≡ running
running_status s h = ground arith

module _ {Value : Type 0} where
  module _ (now : Timestamp) (p : Job Value → Bool) (f : Job Value → Job Value)
      (id_kept : (r : Job Value) → (f r).id ≡ r.id)
      (moves : (r : Job Value)
        → RowOk r
        → p r ≡ true
        → Life (some (view r)) (some (view (f r)))) where
    branch-Life :
        (r : Job Value)
        → RowOk r
        → Life (some (view r)) (some (view (if p r then touch now (f r) else r)))
    branch-Life r h = elim (Bool-cases (p r)) [
      | inl t ↦ rw t (moves r h t)
      | inr t ↦ rw t (stays refl)
    ]

    pub update_jobs-Lives : (db : Db Value) → IsValid db → Lives db (update_jobs now p f db).0
    unfolding update_jobs
    update_jobs-Lives db v k =
        rw (find_by-update_rows p (λ r. touch now (f r)) id_kept k db.jobs)
          (elim (Option-cases (find_id k db)) [
            | inl n ↦ rw n (stays refl)
            | inr (j, e) ↦
                rw e (branch-Life j (All-find_by RowOk (by_id k) db.jobs {a = j} v.rows e))
          ])
