-- ===== src/Worker/Loops/Crons.antt =====
-- src/worker.rs: two rounds of `enqueue_due_crons` for the same time.
use pgspawn.Prelude.{
  ℕ, ◌≡◌, refl, Bool, true, false, none, some, ok, err, List, [], ◌∷◌, All, ◌&&◌, map, Option-cases,
  Result-cases, inl, inr, arith, subst, sym, String, ap, ◌∙◌,
}
use pgspawn.Job.{Timestamp, Uuid, SqlError}
use pgspawn.Schedule.{Jiff, CronJob, latest_due_at, next_after}
use pgspawn.Table.{Db}
use pgspawn.Queue.Cron.{
  claim_cron, CronEnqueueResult, skipped, enqueued, already_queued, try_enqueue_cron,
}
use pgspawn.Queue.Cron.Record.{
  is_recorded, recorded_skipped, try_enqueue_cron-crons, claim_cron-keeps, claim_cron-records,
}
use pgspawn.Worker.Loops.{poll_cron, poll_result, enqueue_due_crons}

-- A cron, and the id and the time of its statement.
abbrev pub Poll : Jiff → Type 0 → Type 0
Poll J Value = CronJob Value J.TimeZone × (Uuid × Timestamp)

module _ (J : Jiff) {Value : Type 0} (clock : Timestamp) where
  -- The occurrence that is due is recorded, if one is due.
  abbrev recorded_in : Db Value → CronJob Value J.TimeZone → Bool
  recorded_in db cron = elim (latest_due_at J cron.schedule clock) [
    | none ↦ true
    | some due_at ↦ is_recorded cron.identifier due_at db.crons
  ]

  abbrev IsRecorded : Db Value → Poll J Value → Type 0
  IsRecorded db p = recorded_in db p.0 ≡ true

  poll_recorded :
      (now : Timestamp) (fresh : Uuid) (cron : CronJob Value J.TimeZone) (s : Db Value × ℕ)
      → recorded_in s.0 cron ≡ true
      → poll_cron J clock now fresh cron s ≡ s
  unfolding poll_cron
  poll_recorded now fresh cron s h = elim (Option-cases (latest_due_at J cron.schedule clock)) [
    | inl n ↦ ground (arith, n)
    | inr (due_at, e) ↦ ground (
      arith,
      e,
      recorded_skipped now cron due_at (next_after J cron.schedule due_at) fresh s.0
          (ground (arith, e, h)),
    )
  ]

  -- With all occurrences recorded a round changes nothing and wakes nobody.
  round_recorded :
      (polls : List (Poll J Value)) (s : Db Value × ℕ)
      → All (IsRecorded s.0) polls
      → enqueue_due_crons J clock polls s ≡ s
  unfolding enqueue_due_crons
  round_recorded [] s h = refl
  round_recorded ((cron, (fresh, now)) ∷ rest) s h =
      rw (poll_recorded now fresh cron s h.0, enqueue_due_crons) (round_recorded rest s h.1)

  -- The statement for a cron, with its error as `false`.
  abbrev pub poll_ok : Poll J Value → Db Value → Bool
  poll_ok (cron, (fresh, now)) db = elim (latest_due_at J cron.schedule clock) [
    | none ↦ true
    | some due_at ↦
        elim (try_enqueue_cron now fresh cron due_at (next_after J cron.schedule due_at) db) [
          | ok r ↦ true
          | err e ↦ false
        ]
  ]

  -- No statement of the round fails.
  abbrev pub round_ok : List (Poll J Value) → Db Value × ℕ → Bool
  round_ok [] s = true
  round_ok (p ∷ rest) s =
      let others = round_ok rest (poll_cron J clock p.1.1 p.1.0 p.0 s) in poll_ok p s.0 && others

  poll_result-ok :
      (r : CronEnqueueResult) (d : Db Value) (s : Db Value × ℕ)
      → (poll_result J (ok (r, d)) s).0 ≡ d
  poll_result-ok (enqueued id) d s = refl
  poll_result-ok (already_queued id) d s = refl
  poll_result-ok skipped d s = refl

  -- After a statement that succeeds, what it records and what was recorded before is recorded.
  poll_after :
      (now : Timestamp) (fresh : Uuid) (cron : CronJob Value J.TimeZone) (s : Db Value × ℕ)
      (due : Timestamp) {r : CronEnqueueResult} {d : Db Value}
      → latest_due_at J cron.schedule clock ≡ some due
      → try_enqueue_cron now fresh cron due (next_after J cron.schedule due) s.0 ≡ ok (r, d)
      → (poll_cron J clock now fresh cron s).0.crons
        ≡ (claim_cron now cron due (next_after J cron.schedule due) s.0.crons).0
  unfolding poll_cron
  poll_after now fresh cron s due {r} {d} e q =
      ap (λ (x : Db Value). x.crons) {x = (poll_cron J clock now fresh cron s).0} {y = d}
        (ground (arith, e, q, poll_result-ok r d s))
      ∙ try_enqueue_cron-crons now cron due (next_after J cron.schedule due) fresh s.0 q

  poll_keeps :
      (now : Timestamp) (fresh : Uuid) (cron : CronJob Value J.TimeZone) (s : Db Value × ℕ)
      (identifier : String) (due_at : Timestamp)
      → is_recorded identifier due_at s.0.crons ≡ true
      → is_recorded identifier due_at (poll_cron J clock now fresh cron s).0.crons ≡ true
  unfolding poll_cron
  poll_keeps now fresh cron s identifier due_at h =
      elim (Option-cases (latest_due_at J cron.schedule clock)) [
        | inl n ↦ subst (λ x. is_recorded identifier due_at x.0.crons ≡ true) {x = s} (idle n) h
        | inr (due, e) ↦
            elim (Result-cases
              (try_enqueue_cron now fresh cron due (next_after J cron.schedule due) s.0)) [
                | inl ((r, d), q) ↦
                    subst (λ cs. is_recorded identifier due_at cs ≡ true)
                      (sym (poll_after now fresh cron s due e q))
                      (claim_cron-keeps now cron due (next_after J cron.schedule due) identifier
                        due_at s.0.crons h)
                | inr (x, q) ↦
                    subst (λ x. is_recorded identifier due_at x.0.crons ≡ true) {x = s}
                      (failed due e q) h
              ]
      ]
    where
      idle : latest_due_at J cron.schedule clock ≡ none → s ≡ poll_cron J clock now fresh cron s
      idle n = rw (n, poll_cron) refl

      failed :
          (due : Timestamp) {x : SqlError}
          → latest_due_at J cron.schedule clock ≡ some due
          → try_enqueue_cron now fresh cron due (next_after J cron.schedule due) s.0 ≡ err x
          → s ≡ poll_cron J clock now fresh cron s
      failed due e q = rw (e, q, poll_cron) refl

  poll_records :
      (now : Timestamp) (fresh : Uuid) (cron : CronJob Value J.TimeZone) (s : Db Value × ℕ)
      → poll_ok (cron, (fresh, now)) s.0 ≡ true
      → recorded_in (poll_cron J clock now fresh cron s).0 cron ≡ true
  poll_records now fresh cron s h = elim (Option-cases (latest_due_at J cron.schedule clock)) [
    | inl n ↦ ground (arith, n)
    | inr (due, e) ↦
        elim (Result-cases
          (try_enqueue_cron now fresh cron due (next_after J cron.schedule due) s.0)) [
            | inl ((r, d), q) ↦
                let known =
                  subst (λ cs. is_recorded cron.identifier due cs ≡ true)
                    (sym (poll_after now fresh cron s due e q))
                    (claim_cron-records now cron due (next_after J cron.schedule due) s.0.crons) in
                ground (arith, e, known)
            | inr (x, q) ↦ absurd (ground (arith, h, e, q))
          ]
  ]

  kept_in :
      (now : Timestamp) (fresh : Uuid) (cron other : CronJob Value J.TimeZone) (s : Db Value × ℕ)
      → recorded_in s.0 other ≡ true
      → recorded_in (poll_cron J clock now fresh cron s).0 other ≡ true
  kept_in now fresh cron other s h = elim (Option-cases (latest_due_at J other.schedule clock)) [
    | inl n ↦ ground (arith, n)
    | inr (due, e) ↦
        ground (arith, e, poll_keeps now fresh cron s other.identifier due (ground (arith, e, h)))
  ]

  round_keeps :
      (polls : List (Poll J Value)) (other : CronJob Value J.TimeZone) (s : Db Value × ℕ)
      → recorded_in s.0 other ≡ true
      → recorded_in (enqueue_due_crons J clock polls s).0 other ≡ true
  unfolding enqueue_due_crons
  round_keeps [] other s h = h
  round_keeps ((cron, (fresh, now)) ∷ rest) other s h =
      round_keeps rest other (poll_cron J clock now fresh cron s) (kept_in now fresh cron other s h)

  round_records :
      (polls : List (Poll J Value)) (s : Db Value × ℕ)
      → round_ok polls s ≡ true
      → All (IsRecorded (enqueue_due_crons J clock polls s).0) polls
  unfolding enqueue_due_crons
  round_records [] s h = tt
  round_records ((cron, (fresh, now)) ∷ rest) s h = (
    round_keeps rest cron (poll_cron J clock now fresh cron s)
        (poll_records now fresh cron s (ground arith)),
    round_records rest (poll_cron J clock now fresh cron s) (ground arith),
  )

  abbrev IsRecordedCron : Db Value → CronJob Value J.TimeZone → Type 0
  IsRecordedCron db c = recorded_in db c ≡ true

  same_crons :
      (polls again : List (Poll J Value)) (db : Db Value)
      → map (λ p. p.0) again ≡ map (λ p. p.0) polls
      → All (IsRecorded db) polls
      → All (IsRecorded db) again
  same_crons polls again db e h =
      All-unmap again (subst (All (IsRecordedCron db)) (sym e) (All-fold polls h))
    where
      All-fold :
          (ps : List (Poll J Value))
          → All (IsRecorded db) ps
          → All (IsRecordedCron db) (map (λ p. p.0) ps)
      All-fold [] h = tt
      All-fold (p ∷ ps) h = (h.0, All-fold ps h.1)

      All-unmap :
          (ps : List (Poll J Value))
          → All (IsRecordedCron db) (map (λ p. p.0) ps)
          → All (IsRecorded db) ps
      All-unmap [] h = tt
      All-unmap (p ∷ ps) h = (h.0, All-unmap ps h.1)

  -- After a round of the cron loop in which no statement fails, a round for the same time over the same
  -- crons, such as another worker's, enqueues nothing, changes nothing and wakes nobody, whatever ids and
  -- times its statements get.
  pub enqueue_due_crons-twice :
      (polls again : List (Poll J Value)) (s : Db Value × ℕ)
      → round_ok polls s ≡ true
      → map (λ p. p.0) again ≡ map (λ p. p.0) polls
      → enqueue_due_crons J clock again (enqueue_due_crons J clock polls s)
        ≡ enqueue_due_crons J clock polls s
  enqueue_due_crons-twice polls again s h e =
      round_recorded again _
        (same_crons polls again (enqueue_due_crons J clock polls s).0 e (round_records polls s h))
