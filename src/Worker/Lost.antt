-- ===== src/Worker/Lost.antt =====
-- src/worker.rs: the run of a job whose lock it does not hold, or no longer.
use pgspawn.Prelude.{
  ◌≡◌, refl, inl, inr, ◌&&◌, Bool, false, String, List, [], ◌∷◌, All, Result, ok, err, arith, ℕ,
  Bool-cases, Option-cases, ap, ◌∙◌, sym, subst, ◌++ₛ◌,
}
use pgspawn.Prelude.Int.{pos_part}
use pgspawn.Job.{Job, Timestamp}
use pgspawn.Table.{Db, is_running}
use pgspawn.Table.Valid.{IsValid}
use pgspawn.Table.Lookup.{find_id}
use pgspawn.Queue.Manage.{renew_lock, fail_locked, relock, finish}
use pgspawn.Queue.Manage.One.{UpdatesOne, passes}
use pgspawn.Queue.Manage.Locked.{
  owned_by, after_failure, complete_locked-UpdatesOne, renew_lock-UpdatesOne,
  fail_locked-UpdatesOne,
}
use pgspawn.Registry.{Handlers, get}
use pgspawn.Worker.Run.{
  Tick, State, Ending, returned, crashed, Reply, delivered, lost_before, lost_after, answer, others,
  settle, attend, renew_once, fail_run, complete_run, fail_claimed_job, run_claimed_job, wake,
}

module _ {Value : Type 0} (exp : ℕ → ℕ) (lock_owner : String) (job : Job Value) where
  -- The row of the job is gone, or its lock is not the run's.
  abbrev pub IsLost : Db Value → Type 0
  IsLost d = passes (owned_by lock_owner) (find_id job.id d) ≡ false

  refused :
      (now : Timestamp) (q : Job Value → Bool) (f : Job Value → Job Value) (d : Db Value)
      (r : Bool × Db Value)
      → ((j : Job Value) → owned_by lock_owner j ≡ false → q j ≡ false)
      → IsLost d
      → UpdatesOne now job.id q f d r
      → r ≡ (false, d)
  refused now q f d r needs lost (inl (e, _)) = e
  refused now q f d r needs lost (inr (j, found, passed, _, _)) =
      absurd (ground (arith, needs j, found, lost, passed))

  answer_same :
      (r : Reply) (x : Bool × Db Value) (d : Db Value) → x ≡ (false, d) → (answer r x d).1 ≡ d
  answer_same delivered x d e = ap (λ y. y.1) e
  answer_same lost_before x d e = refl
  answer_same lost_after x d e = ap (λ y. y.1) e

  fail_same :
      (t : Tick Value) (attempt : ℕ) (message : String) (d : Db Value)
      → IsValid d
      → IsLost d
      → (answer t.reply
          (fail_locked exp t.now job.id lock_owner attempt job.max_attempts message d)
          d).1
        ≡ d
  fail_same t attempt message d v lost = answer_same t.reply _ d (
      refused t.now (owned_by lock_owner) (after_failure exp t.now attempt job.max_attempts message)
        d _ (λ j e. e) lost
        (fail_locked-UpdatesOne exp t.now job.id lock_owner attempt job.max_attempts message d v))

  settle_same :
      (ending : Ending) (result : Result (Unit {0}) String) (t : Tick Value) (s : State Value)
      → IsValid s.db
      → IsLost s.db
      → (settle exp lock_owner job ending result t s).db ≡ s.db
  unfolding settle fail_run complete_run fail_claimed_job
  settle_same (crashed m) result t s v lost = fail_same t job.attempt m s.db v lost
  settle_same returned (err m) t s v lost = fail_same t job.attempt m s.db v lost
  settle_same returned (ok u) t s v lost = answer_same t.reply _ s.db (
      refused t.now (owned_by lock_owner) (finish t.now) s.db _ (λ j e. e) lost
        (complete_locked-UpdatesOne t.now job.id lock_owner s.db v))

  wake_same : (s : State Value) → (wake exp lock_owner job s).db ≡ s.db
  wake_same s = ground arith

  renew_same :
      (t : Tick Value) (s : State Value)
      → IsValid s.db
      → IsLost s.db
      → (renew_once exp lock_owner job t s).1.db ≡ s.db
  unfolding renew_once
  renew_same t s v lost =
      let same = answer_same t.reply (renew_lock t.now job.id lock_owner s.db) s.db (
        refused t.now (λ j. owned_by lock_owner j && is_running j.status) (relock t.now) s.db _
          (λ j e. ground (arith, e)) lost (renew_lock-UpdatesOne t.now job.id lock_owner s.db v)) in
      elim (Option-cases (answer t.reply (renew_lock t.now job.id lock_owner s.db) s.db).0) [
        | inl n ↦ ground (arith, n, same)
        | inr (b, n) ↦ elim (Bool-cases b) [
          | inl e ↦ ground (arith, n, e, same)
          | inr e ↦ ground (arith, n, e, same)
        ]
      ]

  -- No other client changes the tables before this event.
  abbrev pub IsQuiet : Tick Value → Type 0
  IsQuiet t = (d : Db Value) → t.meanwhile d ≡ d

  attend_same :
      (ending : Ending) (result : Result (Unit {0}) String) (ticks : List (Tick Value))
      (last : Tick Value) (s : State Value)
      → All IsQuiet ticks
      → IsQuiet last
      → IsValid s.db
      → IsLost s.db
      → (attend exp lock_owner job ending result ticks last s).db ≡ s.db
  unfolding attend
  attend_same ending result [] last s quiet quiet_last v lost =
      let same = sym (quiet_last s.db) in
      wake_same _
      ∙ (settle_same ending result last (others last s) (subst IsValid same v)
            (subst IsLost same lost)
          ∙ quiet_last s.db)
  attend_same ending result (t ∷ ts) last s quiet quiet_last v lost =
      let same = sym (quiet.0 s.db) in
      let renewed = renew_once exp lock_owner job t (others t s) in
      let unchanged =
        renew_same t (others t s) (subst IsValid same v) (subst IsLost same lost) ∙ quiet.0 s.db in
      elim (Bool-cases renewed.0) [
        | inl on ↦ rw on (
            attend_same ending result ts last renewed.1 quiet.1 quiet_last
              (subst IsValid (sym unchanged) v) (subst IsLost (sym unchanged) lost)
            ∙ unchanged)
        | inr off ↦ rw off unchanged
      ]

  -- A worker that has lost a job's lock, or never had it, does nothing to the tables with its run:
  -- whether there is a handler, however it ends, whenever the run tries to renew the lock and whatever
  -- answers it gets. No other client changes the tables meanwhile.
  pub run_claimed_job-IsLost :
      (handlers : Handlers Value) (ending : Ending) (ticks : List (Tick Value)) (last : Tick Value)
      (s : State Value)
      → IsValid s.db
      → IsLost s.db
      → All IsQuiet ticks
      → IsQuiet last
      → (run_claimed_job exp lock_owner job handlers ending ticks last s).db ≡ s.db
  unfolding run_claimed_job
  run_claimed_job-IsLost handlers ending ticks last s v lost quiet quiet_last =
      elim (Option-cases (get handlers job.name)) [
        | inl n ↦
            let same = sym (quiet_last s.db) in
            rw (n, run_claimed_job)
              (fail_same last (pos_part job.max_attempts)
                  ("no handler registered for job " ++ₛ job.name) (last.meanwhile s.db)
                  (subst IsValid same v) (subst IsLost same lost)
                ∙ quiet_last s.db)
        | inr (h, n) ↦
            rw (n, run_claimed_job)
              (attend_same ending (h job) ticks last _ quiet quiet_last v lost)
      ]
