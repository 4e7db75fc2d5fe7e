-- ===== src/Worker/Rounds/Recovers.antt =====
-- src/worker.rs: what a round of the recovery loop leaves behind when nobody else acts between its statements.
use pgspawn.Prelude.{
  ◌≢◌, ◌∙◌, ℕ, ◌≡◌, refl, subst, sym, ap, inl, inr, Bool, false, not, List, [], ◌∷◌, All,
  All-filter_by, if◌then◌else◌, Bool-cases, Option-cases, Result-cases, filter_by, ok,
}
use pgspawn.Job.{Timestamp, StdDuration, Job}
use pgspawn.Table.{Db, WorkerRow, touch, update_rows, update_jobs}
use pgspawn.Queue.Recover.{
  cutoff, duration_millis_i64, requeue, locked_by_any, is_stale, is_stuck, is_old, recover_stale,
  prune_finished,
}
use pgspawn.Queue.Recover.Free.{requeued-All, not_any, recover_dead_workers-frees}
use pgspawn.Worker.Config.{WorkerConfig}
use pgspawn.Worker.Loops.{
  Turn, recovery_round, recovered, pruned, recover_dead_turn, recover_stale_turn, prune_turn,
}
use pgspawn.Worker.Run.{Reply, delivered, lost_before, lost_after}

-- The statement has taken effect, whether or not its answer arrives.
abbrev pub TakesEffect : Reply → Type 0
TakesEffect reply = reply ≢ lost_before

module _ {Value : Type 0} where
  -- No worker is stale at `t`, no running job is locked by one of `dead`, and none has a lock from before `u`.
  pub record IsRecovered (t u : Timestamp) (dead : List (WorkerRow Value)) (db : Db Value)
      : Type 0 where
    pub workers_fresh : All (λ w. is_stale t w ≡ false) db.workers
    pub dead_freed : All (λ j. locked_by_any dead j ≡ false) db.jobs
    pub locks_fresh : All (λ j. is_stuck u j ≡ false) db.jobs

  kept_All :
      (now : Timestamp) (p : Job Value → Bool) (f : Job Value → Job Value) (P : Job Value → Type 0)
      (passes : (j : Job Value) → P (touch now (f j))) (rs : List (Job Value))
      → All P rs
      → All P (update_rows p (λ j. touch now (f j)) rs)
  unfolding update_rows
  kept_All now p f P passes [] h = tt
  kept_All now p f P passes (r ∷ rs) h = (branch r h.0, kept_All now p f P passes rs h.1)
    where
      branch : (r : Job Value) → P r → P (if p r then touch now (f r) else r)
      branch r h = elim (Bool-cases (p r)) [ inl t ↦ rw t (passes r) | inr t ↦ rw t h ]

  effect_recovered :
      (reply : Reply) (db' : Db Value) (n : ℕ) (s : Db Value × ℕ)
      → TakesEffect reply
      → (recovered reply (ok (db', n)) s).0 ≡ db'
  effect_recovered delivered db' n s h = refl
  effect_recovered lost_after db' n s h = refl
  effect_recovered lost_before db' n s h = absurd (h refl)

  after_stale :
      (turn : Turn Value) (config : WorkerConfig) (t u : Timestamp) (dead : List (WorkerRow Value))
      (s : Db Value × ℕ)
      → TakesEffect turn.reply
      → turn.meanwhile s.0 ≡ s.0
      → cutoff turn.now (duration_millis_i64 config.stale_after) ≡ ok u
      → All (λ w. is_stale t w ≡ false) s.0.workers
      → All (λ j. locked_by_any dead j ≡ false) s.0.jobs
      → IsRecovered t u dead (recover_stale_turn turn config s).0
  unfolding recover_stale update_jobs
  after_stale turn config t u dead s took quiet e fresh freed =
      let requeues = requeue turn.now "recovered stale running job" in
      let result = update_jobs turn.now (is_stuck u) requeues s.0 in
      rw (quiet, e, recover_stale)
        (subst (IsRecovered t u dead) (sym (effect_recovered turn.reply result.0 result.1 _ took))
          (record {
            workers_fresh = fresh;
            dead_freed =
                kept_All turn.now (is_stuck u) requeues (λ j. locked_by_any dead j ≡ false)
                  (λ j. not_any dead (touch turn.now (requeues j)) refl) s.0.jobs freed;
            locks_fresh = requeued-All turn.now (is_stuck u) requeues (λ j. refl) s.0.jobs;
          }))

  without_old :
      (c t u : Timestamp) (dead : List (WorkerRow Value)) (db : Db Value)
      → IsRecovered t u dead db
      → IsRecovered t u dead (record db { jobs = filter_by (λ j. not (is_old c j)) db.jobs })
  without_old c t u dead db h = record {
    workers_fresh = h.workers_fresh;
    dead_freed = All-filter_by _ (λ j. not (is_old c j)) db.jobs h.dead_freed;
    locks_fresh = All-filter_by _ (λ j. not (is_old c j)) db.jobs h.locks_fresh;
  }

  kept_by_prune :
      (reply : Reply) (now t u : Timestamp) (retention : StdDuration)
      (dead : List (WorkerRow Value)) (s : Db Value × ℕ)
      → IsRecovered t u dead s.0
      → IsRecovered t u dead (pruned reply (prune_finished now retention s.0) s).0
  unfolding prune_finished
  kept_by_prune lost_before now t u retention dead s h =
      elim (Result-cases (cutoff now (duration_millis_i64 retention))) [
        | inr (x, e) ↦ rw (e, prune_finished) h
        | inl (c, e) ↦ rw (e, prune_finished) h
      ]
  kept_by_prune delivered now t u retention dead s h =
      elim (Result-cases (cutoff now (duration_millis_i64 retention))) [
        | inr (x, e) ↦ rw (e, prune_finished) h
        | inl (c, e) ↦ rw (e, prune_finished) (without_old c t u dead s.0 h)
      ]
  kept_by_prune lost_after now t u retention dead s h =
      elim (Result-cases (cutoff now (duration_millis_i64 retention))) [
        | inr (x, e) ↦ rw (e, prune_finished) h
        | inl (c, e) ↦ rw (e, prune_finished) (without_old c t u dead s.0 h)
      ]

  after_prune :
      (turn : Turn Value) (config : WorkerConfig) (t u : Timestamp) (dead : List (WorkerRow Value))
      (s : Db Value × ℕ)
      → turn.meanwhile s.0 ≡ s.0
      → IsRecovered t u dead s.0
      → IsRecovered t u dead (prune_turn turn config s).0
  after_prune turn config t u dead s quiet h = elim (Option-cases config.finished_job_retention) [
    | inl keeps ↦ rw keeps h
    | inr (retention, prunes) ↦
        rw (prunes, quiet) (kept_by_prune turn.reply turn.now t u retention dead s h)
  ]

  -- A round of the recovery loop whose two cutoffs are in range, and of which neither recovery statement loses
  -- its connection before it takes effect, while no other client changes the tables from the first statement
  -- on; the statements may run at different times, and it may prune or not. Afterwards every worker has a
  -- heartbeat from the first cutoff on, no running job is locked by a worker that was stale at the first
  -- statement, and no running job has a lock from before the second cutoff.
  pub recovery_round-IsRecovered :
      (dead stale prune : Turn Value) (config : WorkerConfig) (s : Db Value × ℕ) {t u : Timestamp}
      → cutoff dead.now (duration_millis_i64 config.stale_after) ≡ ok t
      → cutoff stale.now (duration_millis_i64 config.stale_after) ≡ ok u
      → TakesEffect dead.reply
      → TakesEffect stale.reply
      → ((db : Db Value) → stale.meanwhile db ≡ db)
      → ((db : Db Value) → prune.meanwhile db ≡ db)
      → IsRecovered t u
          (filter_by (is_stale t) (dead.meanwhile s.0).workers)
          (recovery_round (dead, stale, prune) config s).0
  unfolding recovery_round
  recovery_round-IsRecovered dead stale prune config s {t} {u} e f took₁ took₂ quiet₁ quiet₂ =
      let gone = filter_by (is_stale t) (dead.meanwhile s.0).workers in
      let (db₁, n, done, fresh, freed, _) =
        recover_dead_workers-frees dead.now config.stale_after (dead.meanwhile s.0) {t = t} e in
      let s₁ = recover_dead_turn dead config s in
      let same : db₁ ≡ s₁.0 = sym (
        ap (λ r. (recovered dead.reply r (dead.meanwhile s.0, s.1)).0) done
        ∙ effect_recovered dead.reply db₁ n (dead.meanwhile s.0, s.1) took₁) in
      after_prune prune config t u gone (recover_stale_turn stale config s₁) (quiet₂ _) (
        after_stale stale config t u gone s₁ took₂ (quiet₁ s₁.0) f
          (subst (λ d. All (λ w. is_stale t w ≡ false) d.workers) same fresh)
          (subst (λ d. All (λ j. locked_by_any gone j ≡ false) d.jobs) same freed))
