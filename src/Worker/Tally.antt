-- ===== src/Worker/Tally.antt =====
-- src/worker.rs: what the run of a claimed job does to the summaries.
use pgspawn.Prelude.{
  ℕ, ◌+◌, ◌<◌, ◌≡◌, refl, ◌⊎◌, inl, inr, Bool, some, String, text_eq, eq_iff, eq_refl, List, [],
  ◌∷◌, Result, ok, err, if◌then◌else◌, arith, Bool-cases, Option-cases, subst, sym, ap, ◌∙◌,
}
use pgspawn.Job.{Job}
use pgspawn.Queue.Manage.{complete_locked, renew_lock}
use pgspawn.Registry.{Handlers, JobHandler, get}
use pgspawn.Worker.Summary.{
  Summaries, JobSummary, start_one, succeed_one, fail_one, abandon_one, summary_of, update_entry,
  record_job_started, record_job_succeeded, record_job_failed, record_job_abandoned,
}
use pgspawn.Worker.Run.{
  Tick, State, Ending, returned, crashed, answer, others, settle, attend, renew_once, fail_run,
  complete_run, fail_claimed_job, run_claimed_job, is_last, wake,
}

summary_of-update_entry :
    (name other : String) (f : JobSummary → JobSummary) (ss : Summaries)
    → summary_of other (update_entry name f ss)
      ≡ (if text_eq name other then f (summary_of name ss) else summary_of other ss)
unfolding summary_of update_entry
summary_of-update_entry name other f [] = refl
summary_of-update_entry name other f ((n, s) ∷ rest) = ground (
  arith,
  summary_of-update_entry name other f rest,
  eq_iff n name,
  eq_iff n other,
  eq_iff name other,
)

module _ {Value : Type 0} (exp : ℕ → ℕ) (lock_owner : String) (job : Job Value) where
  -- One of the three records of an end.
  abbrev Ended : Summaries → Summaries → Type 0
  Ended ss ss' =
      (ms : ℕ) × ((ss' ≡ record_job_succeeded job.name ms ss)
        ⊎ (ss' ≡ record_job_failed job.name ms (is_last exp lock_owner job) ss)
        ⊎ (ss' ≡ record_job_abandoned job.name ms ss))

  settle-Ended :
      (ending : Ending) (result : Result (Unit {0}) String) (t : Tick Value) (s : State Value)
      → Ended s.summaries (settle exp lock_owner job ending result t s).summaries
  unfolding settle fail_run complete_run fail_claimed_job
  settle-Ended (crashed m) result t s = (t.elapsed_ms, inr (inl refl))
  settle-Ended returned (err m) t s = (t.elapsed_ms, inr (inl refl))
  settle-Ended returned (ok u) t s =
      elim (Option-cases (answer t.reply (complete_locked t.now job.id lock_owner s.db) s.db).0) [
        | inl lost ↦ (t.elapsed_ms, inr (inr (ground (arith, lost))))
        | inr (b, got) ↦ elim (Bool-cases b) [
          | inl e ↦ (t.elapsed_ms, inl (ground (arith, got, e)))
          | inr e ↦ (t.elapsed_ms, inr (inr (ground (arith, got, e))))
        ]
      ]

  wake-summaries : (s : State Value) → (wake exp lock_owner job s).summaries ≡ s.summaries
  wake-summaries s = ground arith

  -- A renewal that ends the loop records the job as abandoned, any other leaves the summaries.
  renew_once-summaries :
      (t : Tick Value) (s : State Value)
      → (renew_once exp lock_owner job t s).1.summaries ≡ (
          if (renew_once exp lock_owner job t s).0
          then s.summaries
          else record_job_abandoned job.name t.elapsed_ms s.summaries)
  unfolding renew_once
  renew_once-summaries t s =
      elim (Option-cases (answer t.reply (renew_lock t.now job.id lock_owner s.db) s.db).0) [
        | inl lost ↦ ground (arith, lost)
        | inr (b, got) ↦ elim (Bool-cases b) [
          | inl e ↦ ground (arith, got, e)
          | inr e ↦ ground (arith, got, e)
        ]
      ]

  attend-Ended :
      (ending : Ending) (result : Result (Unit {0}) String) (ticks : List (Tick Value))
      (last : Tick Value) (s : State Value)
      → Ended s.summaries (attend exp lock_owner job ending result ticks last s).summaries
  unfolding attend
  attend-Ended ending result [] last s =
      subst (Ended s.summaries) (sym (wake-summaries _))
        (settle-Ended ending result last (others last s))
  attend-Ended ending result (t ∷ ts) last s =
      let renewed = renew_once exp lock_owner job t (others t s) in
      let kept = renew_once-summaries t (others t s) in
      elim (Bool-cases renewed.0) [
        | inl on ↦ rw on (
            subst
              (λ ss. Ended ss (attend exp lock_owner job ending result ts last renewed.1).summaries)
              {x = renewed.1.summaries} {y = s.summaries} (ground (arith, kept, on))
              (attend-Ended ending result ts last renewed.1))
        | inr off ↦ rw off (t.elapsed_ms, inr (inr (ground (arith, kept, off))))
      ]

-- Every counter has room for one more.
abbrev pub HasRoom : JobSummary → Type 0
HasRoom s =
    (s.started < 18_446_744_073_709_551_615)
    × (s.succeeded < 18_446_744_073_709_551_615)
    × (s.failed < 18_446_744_073_709_551_615)
    × (s.retried < 18_446_744_073_709_551_615)
    × (s.permanent_failed < 18_446_744_073_709_551_615)
    × (s.abandoned < 18_446_744_073_709_551_615)
    × (s.running < 18_446_744_073_709_551_615)

-- From `a` to `b` one run was started and ended.
abbrev pub CountsOne : JobSummary → JobSummary → Type 0
CountsOne a b =
    (b.started ≡ a.started + 1)
    × (b.running ≡ a.running)
    × (b.succeeded + b.failed + b.abandoned ≡ a.succeeded + a.failed + a.abandoned + 1)
    × (b.retried + b.permanent_failed + a.failed ≡ a.retried + a.permanent_failed + b.failed)

at_name :
    (name : String) (g f : JobSummary → JobSummary) (ss : Summaries)
    → summary_of name (update_entry name g (update_entry name f ss)) ≡ g (f (summary_of name ss))
at_name name g f ss = ground (
  arith,
  summary_of-update_entry name name g (update_entry name f ss),
  summary_of-update_entry name name f ss,
  eq_refl name,
)

succeeded-CountsOne :
    (ms : ℕ) (a : JobSummary) → HasRoom a → CountsOne a (succeed_one ms (start_one a))
succeeded-CountsOne ms a room = ground arith

failed-CountsOne :
    (ms : ℕ) (permanent : Bool) (a : JobSummary)
    → HasRoom a
    → CountsOne a (fail_one ms permanent (start_one a))
failed-CountsOne ms permanent a room = elim (Bool-cases permanent) [
  | inl p ↦ ground (arith, p)
  | inr p ↦ ground (arith, p)
]

abandoned-CountsOne :
    (ms : ℕ) (a : JobSummary) → HasRoom a → CountsOne a (abandon_one ms (start_one a))
abandoned-CountsOne ms a room = ground arith

module _ {Value : Type 0} (exp : ℕ → ℕ) (lock_owner : String) (job : Job Value) where
  counted :
      (ss ss' : Summaries) (g : JobSummary → JobSummary)
      → ss' ≡ update_entry job.name g (record_job_started job.name ss)
      → CountsOne (summary_of job.name ss) (g (start_one (summary_of job.name ss)))
      → CountsOne (summary_of job.name ss) (summary_of job.name ss')
  unfolding record_job_started
  counted ss ss' g e c =
      subst (CountsOne (summary_of job.name ss))
        (sym (ap (summary_of job.name) e ∙ at_name job.name g start_one ss)) c

  Ended-CountsOne :
      (ss ss' : Summaries)
      → HasRoom (summary_of job.name ss)
      → Ended exp lock_owner job (record_job_started job.name ss) ss'
      → CountsOne (summary_of job.name ss) (summary_of job.name ss')
  unfolding record_job_succeeded record_job_failed record_job_abandoned
  Ended-CountsOne ss ss' room (ms, inl e) =
      counted ss ss' (succeed_one ms) e (succeeded-CountsOne ms (summary_of job.name ss) room)
  Ended-CountsOne ss ss' room (ms, inr (inl e)) =
      counted ss ss' (fail_one ms (is_last exp lock_owner job)) e
        (failed-CountsOne ms (is_last exp lock_owner job) (summary_of job.name ss) room)
  Ended-CountsOne ss ss' room (ms, inr (inr e)) =
      counted ss ss' (abandon_one ms) e (abandoned-CountsOne ms (summary_of job.name ss) room)

  -- The run of a job that has a handler, however it ends, whatever other clients do, and whatever
  -- statements lose their connection, counts one start and one end under the job's name, tells each
  -- failure as retried or permanent, and leaves as many running as before, if the counters have room.
  pub run_claimed_job-CountsOne :
      (handlers : Handlers Value) (ending : Ending) (ticks : List (Tick Value)) (last : Tick Value)
      (s : State Value) {h : JobHandler Value}
      → get handlers job.name ≡ some h
      → HasRoom (summary_of job.name s.summaries)
      → CountsOne (summary_of job.name s.summaries) (
          summary_of job.name
            (run_claimed_job exp lock_owner job handlers ending ticks last s).summaries)
  unfolding run_claimed_job
  run_claimed_job-CountsOne handlers ending ticks last s {h} e room =
      rw (e, run_claimed_job)
        (Ended-CountsOne s.summaries _ room (
          attend-Ended exp lock_owner job ending (h job) ticks last
            (record s { summaries = record_job_started job.name s.summaries })))
