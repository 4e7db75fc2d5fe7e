-- ===== src/Worker/Stop.antt =====
-- src/worker.rs: `run_until_shutdown` as a whole: the checks, the registration, the life of the loops, told
-- by what ends it and what it makes of the tables, and the cleanup.
use pgspawn.Prelude.{
  ◌≡◌, refl, sym, subst, ◌↔◌, ◌⊎◌, inl, inr, Bool, true, false, not, Option, none, some, String,
  text_eq, List, [], ◌∷◌, All, Result, ok, err, arith, filter_by,
}
use pgspawn.Job.{Timestamp, SqlError}
use pgspawn.Schedule.{CronJob}
use pgspawn.Table.{Db, WorkerRow}
use pgspawn.Queue.Recover.{
  register_worker, deregister_worker, release_worker_jobs, locked_by_worker,
}
use pgspawn.Queue.Recover.Free.{release_worker_jobs-frees}
use pgspawn.Worker.Config.{WorkerConfig, WorkerError, loop_exited, loop_failed, database}
use pgspawn.Worker.Start.{start_crons}

-- The `select!` of the shutdown and the first loop to end; an empty set of loops gives `None`.
pub data Cause : Type 0 where
  requested loop_returned : Cause
  loop_crashed : String → Cause

-- What became of a statement: an error can come before or after its effect.
pub data Fate : Type 0 where
  answered : Fate
  failed_before failed_after : SqlError → Fate

abbrev pub effect {ℓ} : {A : Type ℓ} → Fate → (after before : A) → A
effect answered after before = after
effect (failed_before e) after before = before
effect (failed_after e) after before = after

abbrev pub error_of : Fate → Option SqlError
error_of answered = none
error_of (failed_before e) = some e
error_of (failed_after e) = some e

abbrev pub took_effect : Fate → Bool
took_effect (failed_before e) = false
took_effect _ = true

taken {ℓ} :
    {A : Type ℓ} (f : Fate) (after before : A)
    → took_effect f ≡ true
    → effect f after before ≡ after
taken f after before h = ground arith

unless {ℓ} : {P : Type ℓ} (f : Fate) → (took_effect f ≡ true → P) → (took_effect f ≡ false) ⊎ P
unless answered h = inr (h refl)
unless (failed_before e) h = inl refl
unless (failed_after e) h = inr (h refl)

either {ℓ κ} :
    {A : Type ℓ} (f : Fate) (P : A → Type κ) (after before : A)
    → P after
    → P before
    → P (effect f after before)
either answered P after before a b = a
either (failed_before e) P after before a b = b
either (failed_after e) P after before a b = a

-- From the registration on: the statements of the loops and of other clients until all loops have ended, by
-- themselves or aborted, and what other clients do between the two statements of the cleanup.
pub record Ends (Value : Type 0) : Type 0 where
  pub cause : Cause
  pub meanwhile : Db Value → Db Value
  pub now : Timestamp
  pub release : Fate
  pub between : Db Value → Db Value
  pub deregister : Fate

-- `run_result`
unfoldable pub run_result : Cause → Result (Unit {0}) WorkerError
run_result requested = ok tt
run_result loop_returned = err loop_exited
run_result (loop_crashed message) = err (loop_failed message)

-- `run_result?`, then the error of the cleanup: the first of the two.
unfoldable pub final_result : Cause → (release deregister : Fate) → Result (Unit {0}) WorkerError
unfolding run_result
final_result cause release deregister = elim (run_result cause) [
  | err e ↦ err e
  | ok _ ↦ elim (error_of release) [
    | some e ↦ err (database e)
    | none ↦ elim (error_of deregister) [ some e ↦ err (database e) | none ↦ ok tt ]
  ]
]

module _ {Value : Type 0} where
  -- The cleanup.
  unfoldable pub clean_up : (worker_id : String) → Ends Value → Db Value → Db Value
  clean_up worker_id ends db =
      let released = effect ends.release (release_worker_jobs ends.now worker_id db).0 db in
      let later = ends.between released in
      effect ends.deregister (deregister_worker worker_id later) later

  module _ {TimeZone : Type 0} where
    -- `empty` is the metadata object of the registration.
    unfoldable pub run_until_shutdown :
        WorkerConfig
        → (names : List String) → List (CronJob Value TimeZone)
        → (empty : Value) (now : Timestamp) → Fate
        → Ends Value
        → Db Value
        → Result (Unit {0}) WorkerError × Db Value
    unfolding final_result clean_up
    run_until_shutdown config names crons empty now registration ends db =
        elim (start_crons config names crons) [
          | err e ↦ (err e, db)
          | ok enabled ↦
              let registered =
                effect registration (register_worker now config.worker_id names empty db) db in
              elim (error_of registration) [
                | some e ↦ (err (database e), registered)
                | none ↦ (
                  final_result ends.cause ends.release ends.deregister,
                  clean_up config.worker_id ends (ends.meanwhile registered),
                )
              ]
        ]

  abbrev pub IsFree : String → Db Value → Type 0
  IsFree worker_id db = All (λ j. locked_by_worker worker_id j ≡ false) db.jobs

  abbrev pub IsGone : String → Db Value → Type 0
  IsGone worker_id db = All (λ w. text_eq w.id worker_id ≡ false) db.workers

  gone :
      (worker_id : String) (ws : List (WorkerRow Value))
      → All (λ w. text_eq w.id worker_id ≡ false) (filter_by (λ w. not (text_eq w.id worker_id)) ws)
  gone worker_id [] = tt
  gone worker_id (w ∷ ws) = ground (arith, gone worker_id ws)

  clean_up-IsFree :
      (worker_id : String) (ends : Ends Value) (db : Db Value)
      → took_effect ends.release ≡ true
      → ((d : Db Value) → IsFree worker_id d → IsFree worker_id (ends.between d))
      → IsFree worker_id (clean_up worker_id ends db)
  unfolding clean_up deregister_worker
  clean_up-IsFree worker_id ends db h spares =
      either ends.deregister (IsFree worker_id) (deregister_worker worker_id later) later freed
        freed
    where
      later : Db Value
      later = ends.between (effect ends.release (release_worker_jobs ends.now worker_id db).0 db)

      freed : IsFree worker_id later
      freed = spares _ (
          subst (IsFree worker_id)
            (sym (taken ends.release (release_worker_jobs ends.now worker_id db).0 db h))
            (release_worker_jobs-frees ends.now worker_id db))

  clean_up-IsGone :
      (worker_id : String) (ends : Ends Value) (db : Db Value)
      → took_effect ends.deregister ≡ true
      → IsGone worker_id (clean_up worker_id ends db)
  unfolding clean_up deregister_worker
  clean_up-IsGone worker_id ends db h =
      let later =
        ends.between (effect ends.release (release_worker_jobs ends.now worker_id db).0 db) in
      subst (IsGone worker_id)
        (sym (taken ends.deregister (deregister_worker worker_id later) later h))
        (gone worker_id later.workers)

-- The worker reports success.
abbrev pub AllWell : Cause → (release deregister : Fate) → Type 0
AllWell cause release deregister =
    (cause ≡ requested) × (release ≡ answered) × (deregister ≡ answered)

final_result-ok :
    (cause : Cause) (release deregister : Fate)
    → (final_result cause release deregister ≡ ok tt) ↔ AllWell cause release deregister
unfolding final_result run_result
final_result-ok cause release deregister = ground arith

module _ {Value TimeZone : Type 0} where
  -- However a worker ends that has started and registered, whether a shutdown was requested, a loop returned
  -- or one crashed: it reports success exactly when the shutdown was requested and both statements of the
  -- cleanup were answered; unless the release had no effect, no running job is locked by it in the end, if
  -- other clients take no locks in its name meanwhile; and unless the deregistration had no effect, the
  -- workers table has no row of it.
  pub run_until_shutdown-cleans :
      (config : WorkerConfig) (names : List String) (crons enabled : List (CronJob Value TimeZone))
      (empty : Value) (now : Timestamp) (ends : Ends Value) (db : Db Value)
      → start_crons config names crons ≡ ok enabled
      → ((d : Db Value) → IsFree config.worker_id d → IsFree config.worker_id (ends.between d))
      → let (result, db') = run_until_shutdown config names crons empty now answered ends db in
        ((result ≡ ok tt) ↔ AllWell ends.cause ends.release ends.deregister)
        × ((took_effect ends.release ≡ false) ⊎ IsFree config.worker_id db')
        × ((took_effect ends.deregister ≡ false) ⊎ IsGone config.worker_id db')
  unfolding run_until_shutdown
  run_until_shutdown-cleans config names crons enabled empty now ends db starts spares =
      rw (starts, run_until_shutdown)
        (
          final_result-ok ends.cause ends.release ends.deregister,
          unless ends.release (λ h. clean_up-IsFree config.worker_id ends _ h spares),
          unless ends.deregister (λ h. clean_up-IsGone config.worker_id ends _ h),
        )
