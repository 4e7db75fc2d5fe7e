-- ===== src/Queue/Life/Statements.antt =====
-- src/queue.rs: the life of each job under the statements that need more than their SET.
use pgspawn.Prelude.{
  ℕ, filter_by, [], ◌∷◌, ◌&&◌, ◌≡◌, refl, sym, subst, inl, inr, Bool, true, not, Option, none, some,
  List, String, arith, Bool-cases, Option-cases, Result-cases, ok, ◌==◌, ap,
}
use pgspawn.Prelude.Int.{ℤ, pos, leb_ℤ}
use pgspawn.Job.{Uuid, Timestamp, StdDuration, Job}
use pgspawn.Job.Status.{cancelled}
use pgspawn.Table.{Db, WorkerRow, is_queued, is_running, touch, update_jobs, update_checked}
use pgspawn.Table.Valid.{RowOk, IsValid}
use pgspawn.Table.Lookup.{find_id}
use pgspawn.Queue.Manage.{
  retry, fail_locked, call_off, reset, give_up, try_again, holds, is_retryable,
}
use pgspawn.Queue.Claim.{claim_next, start}
use pgspawn.Queue.Claim.Effect.{claim_next-Claims, update_checked-ok}
use pgspawn.Queue.Recover.{
  prune_finished, recover_stale, recover_dead_workers, requeue, cutoff, duration_millis_i64, is_old,
  is_stuck, is_stale, locked_by_any,
}
use pgspawn.Queue.Recover.Free.{prune_finished-deletes}
use pgspawn.Queue.Life.{
  Life, stays, claimed, requeued, ended, retried, pruned, view, view_of, life, Lives,
}
use pgspawn.Queue.Life.Rows.{update_jobs-Lives, queued_status, running_status}

module _ {Value : Type 0} where
  -- Only a running job is locked.
  pub holder_runs :
      (j : Job Value) (id : Uuid) (lock_owner : String)
      → RowOk j
      → holds id lock_owner j ≡ true
      → is_running j.status ≡ true
  holder_runs j id lock_owner h e = elim (Bool-cases (is_running j.status)) [
    | inl t ↦ t
    | inr f ↦ absurd (ground (arith, h.idle_unlocked f, e))
  ]

  pub retry-Lives :
      (now : Timestamp) (id : Uuid) (db : Db Value) {b : Bool} {db' : Db Value}
      → IsValid db
      → retry now id db ≡ ok (b, db')
      → Lives db db'
  unfolding retry
  retry-Lives now id db {b} {db'} v e = elim (Result-cases (update_checked now p (reset now) db)) [
    | inl (u, q) ↦
        subst (Lives db) {x = (update_jobs now p (reset now) db).0} {y = db'}
          (ground (arith, e, q, update_checked-ok now p (reset now) db {u = u} q))
          (update_jobs-Lives now p (reset now) (λ r. refl)
            (λ r h t. retried (ground (arith, t)) refl) db v)
    | inr (x, q) ↦ absurd (ground (arith, e, q))
  ]
    where
      p : Job Value → Bool
      p j = j.id == id && is_retryable j.status

  pub claim_next-Lives :
      (now : Timestamp) (locked : Uuid → Bool) (snapshot : Db Value) (lock_owner : String)
      (names : List String) (db : Db Value) {r : Option (Job Value)} {db' : Db Value}
      → claim_next now locked snapshot lock_owner names db ≡ ok (r, db')
      → Lives db db'
  claim_next-Lives now locked snapshot lock_owner names db {r} {db'} e k =
      elim (claim_next-Claims now locked snapshot lock_owner names db {r = r} {db' = db'} e) [
        | inl (_, same) ↦ stays (sym (ap (λ x. life k x) same))
        | inr (j, found, waits, due, named, free, unlocked, is_r, sets) ↦
            elim (Bool-cases (k == j.id)) [
              | inl t ↦
                  subst (λ x. Life (life k db) (view_of x))
                    {x = some (touch now (start now lock_owner j))} {y = find_id k db'}
                    (ground (arith, sets k, t))
                    (subst (λ x. Life (view_of x) (some (view (start now lock_owner j))))
                      {x = some j} {y = find_id k db}
                      (sym (
                        subst (λ i. find_id i db ≡ some j) {x = j.id} {y = k} (ground (arith, t))
                          found))
                      (claimed lock_owner (queued_status j.status waits) refl))
              | inr t ↦ stays (ap view_of (ground (arith, sets k, t)))
            ]
      ]

  pub prune_finished-Lives :
      (now : Timestamp) (retain_for : StdDuration) (db : Db Value) {db' : Db Value} {n : ℕ}
      → IsValid db
      → prune_finished now retain_for db ≡ ok (db', n)
      → Lives db db'
  unfolding prune_finished
  prune_finished-Lives now retain_for db {db'} {n} v e k =
      elim (Result-cases (cutoff now (duration_millis_i64 retain_for))) [
        | inr (x, q) ↦ absurd (ground (arith, e, q))
        | inl (t, q) ↦
            let (db₁, n₁, is_ok, counted, rows) =
              prune_finished-deletes now retain_for db v {t = t} q in
            subst (λ x. Life (life k db) (life k x)) {x = db₁} {y = db'} (ground (arith, e, is_ok))
              (rw (rows k) (elim (Option-cases (find_id k db)) [
                | inl a ↦ rw a (stays refl)
                | inr (j, a) ↦ rw a (elim (Bool-cases (is_old t j)) [
                  | inl o ↦ rw o (pruned (ground (arith, o)))
                  | inr o ↦ rw o (stays refl)
                ])
              ]))
      ]

  pub requeue-Lives :
      (now : Timestamp) (p : Job Value → Bool) (reason : String) (db : Db Value)
      → ((r : Job Value) → p r ≡ true → is_running r.status ≡ true)
      → IsValid db
      → Lives db (update_jobs now p (requeue now reason) db).0
  requeue-Lives now p reason db runs v =
      update_jobs-Lives now p (requeue now reason) (λ r. refl)
        (λ r h t. requeued (running_status r.status (runs r t)) refl) db v

  pub stale-Lives :
      (now : Timestamp) (stale_after : StdDuration) (db : Db Value) {db' : Db Value} {n : ℕ}
      → IsValid db
      → recover_stale now stale_after db ≡ ok (db', n)
      → Lives db db'
  unfolding recover_stale
  stale-Lives now stale_after db {db'} {n} v e =
      elim (Result-cases (cutoff now (duration_millis_i64 stale_after))) [
        | inr (x, q) ↦ absurd (ground (arith, e, q))
        | inl (t, q) ↦
            subst (Lives db)
              {x = (update_jobs now (is_stuck t) (requeue now "recovered stale running job") db).0}
              {y = db'} (ground (arith, e, q))
              (requeue-Lives now (is_stuck t) "recovered stale running job" db (λ r h. ground arith)
                v)
      ]

  any_runs :
      (ws : List (WorkerRow Value)) (j : Job Value)
      → locked_by_any ws j ≡ true
      → is_running j.status ≡ true
  any_runs [] j h = absurd (ground arith)
  any_runs (w ∷ ws) j h = ground (arith, any_runs ws j)

  pub dead-Lives :
      (now : Timestamp) (stale_after : StdDuration) (db : Db Value) {db' : Db Value} {n : ℕ}
      → IsValid db
      → recover_dead_workers now stale_after db ≡ ok (db', n)
      → Lives db db'
  unfolding recover_dead_workers
  dead-Lives now stale_after db {db'} {n} v e =
      elim (Result-cases (cutoff now (duration_millis_i64 stale_after))) [
        | inr (x, q) ↦ absurd (ground (arith, e, q))
        | inl (t, q) ↦
            let left : Db Value = record db {
              workers = filter_by (λ w. not (is_stale t w)) db.workers;
            } in
            let dead = locked_by_any (filter_by (is_stale t) db.workers) in
            subst (Lives db)
              {x = (update_jobs now dead (requeue now "recovered dead worker job") left).0}
              {y = db'} (ground (arith, e, q))
              (requeue-Lives now dead "recovered dead worker job" left
                (any_runs (filter_by (is_stale t) db.workers))
                (record { rows = v.rows; pairs = v.pairs }))
      ]

  pub fail_locked-Lives :
      (exp : ℕ → ℕ) (now : Timestamp) (id : Uuid) (lock_owner : String) (attempt : ℕ)
      (max_attempts : ℤ) (error : String) (db : Db Value)
      → IsValid db
      → Lives db (fail_locked exp now id lock_owner attempt max_attempts error db).1
  unfolding fail_locked
  fail_locked-Lives exp now id lock_owner attempt max_attempts error db v k =
      elim (Bool-cases (leb_ℤ max_attempts (pos attempt))) [
        | inl t ↦ rw t (
            update_jobs-Lives now (holds id lock_owner) (give_up now error) (λ r. refl)
              (λ r h e.
                let runs = holder_runs r id lock_owner h e in ended (ground arith) refl refl refl)
              db v k)
        | inr t ↦ rw t (
            update_jobs-Lives now (holds id lock_owner) (try_again exp now error) (λ r. refl)
              (λ r h e. requeued (running_status r.status (holder_runs r id lock_owner h e)) refl)
              db v k)
      ]

  pub called_off_view :
      (now : Timestamp) (r : Job Value)
      → RowOk r
      → is_queued r.status ≡ true
      → view (call_off now r) ≡ record { status = cancelled; attempt = r.attempt; owner = none }
  called_off_view now r h e = ground (arith, h.idle_unlocked, e)
