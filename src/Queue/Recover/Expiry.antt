-- ===== src/Queue/Recover/Expiry.antt =====
-- src/queue.rs: which jobs prune_finished deletes, told by status and end.
use pgspawn.Prelude.{
  ℕ, ◌+◌, ◌≡◌, refl, sym, subst, ◌⊎◌, inl, inr, true, not, Option, none, some, ok, length, arith,
  Bool-cases, Option-cases, if◌then◌else◌,
}
use pgspawn.Prelude.Int.{◌<ℤ◌, ltb_ℤ→lt, lt→ltb_ℤ}
use pgspawn.Job.{Job, Timestamp, StdDuration, Uuid}
use pgspawn.Job.Status.{JobStatus, succeeded, failed, cancelled, is_terminal}
use pgspawn.Table.{Db}
use pgspawn.Table.Lookup.{find_id}
use pgspawn.Table.Valid.{IsValid}
use pgspawn.Queue.Recover.{cutoff, duration_millis_i64, is_old, prune_finished}
use pgspawn.Queue.Recover.Free.{prune_finished-deletes}

module _ {Value : Type 0} where
  -- A finished job whose end is before `t`.
  abbrev pub HasExpired : Timestamp → Job Value → Type 0
  HasExpired t j =
      ((j.status ≡ succeeded) ⊎ (j.status ≡ failed) ⊎ (j.status ≡ cancelled))
      × ((ended : Timestamp) × (j.finished_at ≡ some ended) × (ended <ℤ t))

  is_old-HasExpired : (t : Timestamp) (j : Job Value) → is_old t j ≡ true → HasExpired t j
  is_old-HasExpired t j h = elim (Option-cases j.finished_at) [
    | inl n ↦ absurd (ground (arith, h, n))
    | inr (ended, n) ↦ (
      ended_status j.status (ground (arith, h)),
      (ended, n, ltb_ℤ→lt ended t (ground (arith, h, n))),
    )
  ]
    where
      ended_status :
          (s : JobStatus) → is_terminal s ≡ true → (s ≡ succeeded) ⊎ (s ≡ failed) ⊎ (s ≡ cancelled)
      ended_status JobStatus.queued h = absurd (ground arith)
      ended_status JobStatus.running h = absurd (ground arith)
      ended_status JobStatus.succeeded h = inl refl
      ended_status JobStatus.failed h = inr (inl refl)
      ended_status JobStatus.cancelled h = inr (inr refl)

  HasExpired-is_old : (t : Timestamp) (j : Job Value) → HasExpired t j → is_old t j ≡ true
  HasExpired-is_old t j (inl s, (ended, n, e)) = ground (arith, s, n, lt→ltb_ℤ ended t e)
  HasExpired-is_old t j (inr (inl s), (ended, n, e)) = ground (arith, s, n, lt→ltb_ℤ ended t e)
  HasExpired-is_old t j (inr (inr s), (ended, n, e)) = ground (arith, s, n, lt→ltb_ℤ ended t e)

  -- What pruning makes of the row under an id.
  abbrev pub IsPruned : Timestamp → (before after : Option (Job Value)) → Type 0
  IsPruned t none after = after ≡ none
  IsPruned t (some j) after =
      (HasExpired t j × (after ≡ none)) ⊎ ((¬ HasExpired t j) × (after ≡ some j))

  is_old-IsPruned :
      (t : Timestamp) (o : Option (Job Value))
      → IsPruned t o (elim o [ none ↦ none | some j ↦ if not (is_old t j) then some j else none ])
  is_old-IsPruned t none = refl
  is_old-IsPruned t (some j) = elim (Bool-cases (is_old t j)) [
    | inl h ↦ inl (is_old-HasExpired t j h, ground (arith, h))
    | inr h ↦ inr ((λ x. ground (arith, h, HasExpired-is_old t j x)), ground (arith, h))
  ]

  -- On a valid table, pruning with a retention that gives a cutoff deletes the succeeded, failed and cancelled
  -- jobs that ended before it, leaves every other job as it is, and returns how many it deleted.
  pub prune_finished-expires :
      (now : Timestamp) (retain_for : StdDuration) (db : Db Value)
      → IsValid db
      → {t : Timestamp} → cutoff now (duration_millis_i64 retain_for) ≡ ok t
      → (db' : Db Value) × (n : ℕ) × (prune_finished now retain_for db ≡ ok (db', n))
        × (length db'.jobs + n ≡ length db.jobs)
        × ((k : Uuid) → IsPruned t (find_id k db) (find_id k db'))
  prune_finished-expires now retain_for db v {t} e =
      let (db', n, done, counted, rows) = prune_finished-deletes now retain_for db v {t = t} e in
      (
        db',
        n,
        done,
        counted,
        (λ k. subst (IsPruned t (find_id k db)) (sym (rows k)) (is_old-IsPruned t (find_id k db))),
      )
