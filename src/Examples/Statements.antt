-- ===== src/Examples/Statements.antt =====
-- The theorems on the queue's statements at the example table.
use pgspawn.Prelude.{All, ◌≡◌, ◌⊎◌, refl, String, true, none, some, ok, [], ◌∷◌, filter_by}
use pgspawn.Prelude.Int.{pos}
use pgspawn.Job.{Job}
use pgspawn.Table.Valid.{IsValid}
use pgspawn.Table.Lookup.{find_id, by_id}
use pgspawn.Queue.Manage.{cancel, complete, complete_locked, fail_locked}
use pgspawn.Job.Status.{queued, succeeded, cancelled}
use pgspawn.Queue.Manage.Acts.{Acts, IsEnded}
use pgspawn.Queue.Manage.Explicit.{
  IsHeldBy, IsFailed, complete_locked-Acts, fail_locked-Acts, cancel-Acts,
}
use pgspawn.Queue.Manage.Operator.{Discards, complete-Discards}
use pgspawn.Queue.Claim.{
  claim_next, can_claim, candidate, first_free, in_order, place, before, claim_row, start,
}
use pgspawn.Queue.Claim.Effect.{Claims, claim_next-Claims}
use pgspawn.Queue.Claim.First.{claim_next-first, claim_result, unlocked}
use pgspawn.Queue.Claim.Order.{IsNoLater}
use pgspawn.Queue.Steps.{here, next, claims, completes_locked, Reach-IsValid}
use pgspawn.Table.{touch, update_jobs, update_rows, update_checked}
use pgspawn.Examples.Jobs.{some_jobs, some_exp, some_jobs-IsValid, urgent}

complete_locked-Acts_example :
    Acts
      (IsHeldBy "w:1")
      (IsEnded (pos 2000) succeeded none)
      3
      some_jobs
      (complete_locked (pos 2000) 3 "w:1" some_jobs)
complete_locked-Acts_example = complete_locked-Acts (pos 2000) 3 "w:1" some_jobs some_jobs-IsValid

fail_locked-Acts_example :
    Acts
      (IsHeldBy "w:1")
      (IsFailed some_exp (pos 2000) 1 (pos 2) "timeout")
      3
      some_jobs
      (fail_locked some_exp (pos 2000) 3 "w:1" 1 (pos 2) "timeout" some_jobs)
fail_locked-Acts_example =
    fail_locked-Acts some_exp (pos 2000) 3 "w:1" 1 (pos 2) "timeout" some_jobs some_jobs-IsValid

cancel-Acts_example :
    Acts
      (λ j. j.status ≡ queued)
      (IsEnded (pos 2000) cancelled none)
      1
      some_jobs
      (cancel (pos 2000) 1 some_jobs)
cancel-Acts_example = cancel-Acts (pos 2000) 1 some_jobs some_jobs-IsValid

completed_busy : (complete (pos 2000) 3 some_jobs).0 ≡ true
unfolding complete update_jobs
completed_busy = refl

complete-Discards_example : Discards some_exp 3 (complete (pos 2000) 3 some_jobs).1
complete-Discards_example =
    complete-Discards some_exp (pos 2000) 3 some_jobs some_jobs-IsValid completed_busy

-- The job of the busy queue runs at an earlier time, but is not claimable.
claim_next-first_example :
    let claimable = filter_by (can_claim ("send" ∷ []) (pos 2000) some_jobs.jobs) some_jobs.jobs in
    let result = claim_next (pos 2000) unlocked some_jobs "w:2" ("send" ∷ []) some_jobs in
    ((claimable ≡ []) × (result ≡ ok (none, some_jobs)))
    ⊎ ((j : Job String) × (find_id j.id some_jobs ≡ some j)
        × (can_claim ("send" ∷ []) (pos 2000) some_jobs.jobs j ≡ true)
        × All (IsNoLater j) claimable
        × (result ≡ claim_result (pos 2000) "w:2" some_jobs some_jobs-IsValid j))
claim_next-first_example =
    claim_next-first (pos 2000) "w:2" some_jobs some_jobs-IsValid ("send" ∷ [])

claimed_urgent :
    claim_next (pos 2000) unlocked some_jobs "w:2" ("send" ∷ []) some_jobs
    ≡ ok (
      some (touch (pos 2000) (start (pos 2000) "w:2" urgent)),
      (update_jobs (pos 2000) (by_id 2) (start (pos 2000) "w:2") some_jobs).0,
    )
unfolding claim_next candidate first_free in_order place before can_claim claim_row update_checked
    update_jobs update_rows
claimed_urgent = refl

claim_next-Claims_example :
    Claims
      (pos 2000)
      unlocked
      some_jobs
      "w:2"
      ("send" ∷ [])
      some_jobs
      (some (touch (pos 2000) (start (pos 2000) "w:2" urgent)))
      (update_jobs (pos 2000) (by_id 2) (start (pos 2000) "w:2") some_jobs).0
claim_next-Claims_example =
    claim_next-Claims (pos 2000) unlocked some_jobs "w:2" ("send" ∷ []) some_jobs claimed_urgent

Reach-IsValid_example :
    IsValid
      (complete_locked
        (pos 2100)
        2
        "w:2"
        (update_jobs (pos 2000) (by_id 2) (start (pos 2000) "w:2") some_jobs).0).1
Reach-IsValid_example = Reach-IsValid Unit some_exp some_jobs-IsValid (
    next (next here (claims (pos 2000) unlocked some_jobs "w:2" ("send" ∷ []) claimed_urgent))
      (completes_locked (pos 2100) 2 "w:2"))
