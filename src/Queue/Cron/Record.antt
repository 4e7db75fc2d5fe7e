-- ===== src/Queue/Cron/Record.antt =====
-- src/queue.rs: what the crons table remembers. An occurrence is recorded when the row of its identifier
-- has a last run at its time or later.
use pgspawn.Prelude.{
  ◌≡◌, refl, subst, Bool, true, false, not, ◌&&◌, ◌||◌, Option, none, some, String, text_eq,
  eq_refl, if◌then◌else◌, arith, List, [], ◌∷◌, ok, Result-cases, Bool-cases, Option-cases, inl,
  inr,
}
use pgspawn.Prelude.Int.{◌≤ℤ◌}
use pgspawn.Job.{Timestamp, Uuid, Job}
use pgspawn.Job.KeyMode.{JobKeyMode}
use pgspawn.Schedule.{CronJob}
use pgspawn.Table.{Db, CronRow, update_jobs}
use pgspawn.Queue.Insert.{upsert}
use pgspawn.Queue.Cron.{
  CronEnqueueResult, skipped, not_yet_run, claim_cron, cron_row, existed, enqueue_claimed,
  try_enqueue_cron,
}

not_yet_run_mono :
    (t : Option Timestamp) (d d' : Timestamp)
    → d' ≤ℤ d
    → not_yet_run t d ≡ false
    → not_yet_run t d' ≡ false
not_yet_run_mono none d d' h e = absurd (ground arith)
not_yet_run_mono (some t) d d' h e = ground arith

module _ {Value : Type 0} where
  abbrev pub is_recorded : String → Timestamp → List (CronRow Value) → Bool
  is_recorded identifier due_at [] = false
  is_recorded identifier due_at (c ∷ cs) =
      let rest = is_recorded identifier due_at cs in
      if text_eq c.identifier identifier then not (not_yet_run c.last_run_at due_at) else rest

  pub is_recorded_mono :
      (identifier : String) (d d' : Timestamp) (cs : List (CronRow Value))
      → d' ≤ℤ d
      → is_recorded identifier d cs ≡ true
      → is_recorded identifier d' cs ≡ true
  is_recorded_mono identifier d d' [] h e = e
  is_recorded_mono identifier d d' (c ∷ cs) h e =
      ground (arith, is_recorded_mono identifier d d' cs h, not_yet_run_mono c.last_run_at d d' h)

  pub upsert-crons :
      (now : Timestamp) (mode : JobKeyMode) (excluded : Job Value) (db : Db Value) {r : Uuid × Bool}
      {db' : Db Value}
      → upsert now mode excluded db ≡ ok (r, db')
      → db'.crons ≡ db.crons
  unfolding upsert update_jobs
  upsert-crons now mode excluded db e = ground arith

  module _ {TimeZone : Type 0} (now : Timestamp) (cron : CronJob Value TimeZone)
      (due_at next_run_at : Timestamp) where
    pub claim_cron-records :
        (cs : List (CronRow Value))
        → is_recorded cron.identifier due_at (claim_cron now cron due_at next_run_at cs).0 ≡ true
    unfolding claim_cron
    claim_cron-records [] = ground (arith, eq_refl cron.identifier)
    claim_cron-records (c ∷ cs) = ground (arith, claim_cron-records cs)

    pub claim_cron-keeps :
        (identifier : String) (d : Timestamp) (cs : List (CronRow Value))
        → is_recorded identifier d cs ≡ true
        → is_recorded identifier d (claim_cron now cron due_at next_run_at cs).0 ≡ true
    unfolding claim_cron
    claim_cron-keeps identifier d [] e = absurd (ground arith)
    claim_cron-keeps identifier d (c ∷ cs) e = elim (Option-cases c.last_run_at) [
      | inl n ↦ ground (arith, claim_cron-keeps identifier d cs, n)
      | inr (t, s) ↦ ground (arith, claim_cron-keeps identifier d cs, s)
    ]

    claim_cron-recorded :
        (cs : List (CronRow Value))
        → is_recorded cron.identifier due_at cs ≡ true
        → claim_cron now cron due_at next_run_at cs ≡ (cs, false)
    unfolding claim_cron
    claim_cron-recorded [] e = absurd (ground arith)
    claim_cron-recorded (c ∷ cs) e = ground (arith, claim_cron-recorded cs)

    pub try_enqueue_cron-crons :
        (fresh : Uuid) (db : Db Value) {r : CronEnqueueResult} {db' : Db Value}
        → try_enqueue_cron now fresh cron due_at next_run_at db ≡ ok (r, db')
        → db'.crons ≡ (claim_cron now cron due_at next_run_at db.crons).0
    unfolding try_enqueue_cron enqueue_claimed
    try_enqueue_cron-crons fresh db {r} {db'} e =
        let (crons, claimed) = claim_cron now cron due_at next_run_at db.crons in
        let recorded : Db Value = record db { crons = crons } in
        let new = upsert now cron.options.job_key_mode (cron_row now fresh cron due_at) recorded in
        elim (Bool-cases (claimed && (cron.catch_up_on_start || existed now cron db.crons))) [
          | inl due ↦ elim (Result-cases new) [
            | inl ((u, d), p) ↦
                let kept = upsert-crons now _ _ recorded {r = u} {db' = d} p in
                subst (λ (x : Db Value). x.crons ≡ crons) {x = d} {y = db'}
                  (ground (arith, e, due, p)) kept
            | inr (x, p) ↦ absurd (ground (arith, e, due, p))
          ]
          | inr idle ↦
              subst (λ (x : Db Value). x.crons ≡ crons) {x = recorded} {y = db'}
                (ground (arith, e, idle)) refl
        ]

    -- A recorded occurrence is skipped, and the tables stay as they are.
    pub recorded_skipped :
        (fresh : Uuid) (db : Db Value)
        → is_recorded cron.identifier due_at db.crons ≡ true
        → try_enqueue_cron now fresh cron due_at next_run_at db ≡ ok (skipped, db)
    unfolding try_enqueue_cron
    recorded_skipped fresh db e = ground (arith, claim_cron-recorded db.crons e)
