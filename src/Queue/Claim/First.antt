-- ===== src/Queue/Claim/First.antt =====
-- src/queue.rs: which job a claim takes that reads the current table and meets no locked rows.
use pgspawn.Prelude.{
  leb, ◌==◌, ◌&&◌, not, ◌≡◌, refl, subst, ◌⊎◌, inl, inr, Bool, true, false, Option, none, some,
  List, [], ◌∷◌, String, arith, if◌then◌else◌, Option-cases, find_by, filter_by, All, All-map,
  All-filter_by, Result, ok, err,
}
use pgspawn.Job.{Uuid, Timestamp, Job, SqlError, out_of_range}
use pgspawn.Job.Status.{queued}
use pgspawn.Table.{Db, touch, update_jobs, update_checked, clashes, clash_key, clash_queue}
use pgspawn.Table.Valid.{IsValid}
use pgspawn.Table.Checked.{same_text_comm}
use pgspawn.Table.Lookup.{find_id, by_id, any_by-id, rows_found, found-IsApart}
use pgspawn.Queue.Claim.{
  can_claim, queue_free, first_free, candidate, start, claim_row, claim_next, in_order, lost_race,
}
use pgspawn.Queue.Claim.Order.{
  IsNoLater, NonePrecedes-IsNoLater, head?, head-NonePrecedes, head-none, in_order-All,
}

-- No row is locked.
abbrev pub unlocked : Uuid → Bool
unlocked id = false

module _ {Value : Type 0} where
  -- Where every candidate is in the table and passes the clause, the first is taken.
  first_free-head :
      (still : Job Value → Bool) (current cs : List (Job Value))
      → All (λ c. find_by (by_id c.id) current ≡ some c) cs
      → All (λ c. still c ≡ true) cs
      → first_free still unlocked current cs ≡ head? cs
  unfolding first_free
  first_free-head still current [] f s = refl
  first_free-head still current (c ∷ cs) f s = ground (arith, f.0, s.0)

  filter_by-passes :
      (p : Job Value → Bool) (rs : List (Job Value)) → All (λ r. p r ≡ true) (filter_by p rs)
  filter_by-passes p [] = tt
  filter_by-passes p (r ∷ rs) = ground (arith, filter_by-passes p rs)

  head-All {κ} :
      (P : Job Value → Type κ) (rs : List (Job Value)) {j : Job Value}
      → All P rs
      → head? rs ≡ some j
      → P j
  head-All P [] a e = absurd (ground arith)
  head-All P (r ∷ rs) a e = subst P {x = r} (ground arith) a.0

  no_clash :
      (clash : Job Value → Job Value → Bool) (i : Job Value) (rs : List (Job Value))
      → All (λ s. not (i.id == s.id) && clash i s ≡ false) rs
      → clashes clash i rs ≡ false
  no_clash clash i [] a = refl
  no_clash clash i (s ∷ rs) a = ground (arith, no_clash clash i rs a.1)

  module _ (now : Timestamp) (lock_owner : String) (db : Db Value) (v : IsValid db) where
    keys_free :
        (j : Job Value)
        → find_id j.id db ≡ some j
        → j.status ≡ queued
        → clashes clash_key (start now lock_owner j) db.jobs ≡ false
    keys_free j e q = no_clash clash_key (start now lock_owner j) db.jobs (
        All-map db.jobs (λ s a. let apart = a.key_apart in ground arith)
          (found-IsApart j.id db.jobs v.pairs e))

    queues_free :
        (j : Job Value) (rs : List (Job Value))
        → queue_free rs j ≡ true
        → clashes clash_queue (start now lock_owner j) rs ≡ false
    queues_free j [] h = refl
    queues_free j (s ∷ rs) h =
        ground (arith, queues_free j rs, same_text_comm j.queue_name s.queue_name)

    -- What the UPDATE of a claimable row of this table gives.
    abbrev pub claim_result : Job Value → Result (Option (Job Value) × Db Value) SqlError
    claim_result j =
        if leb 2147483647 j.attempt
        then err out_of_range
        else ok (
          some (touch now (start now lock_owner j)),
          (update_jobs now (by_id j.id) (start now lock_owner) db).0,
        )

    claim_row-result :
        (names : List String) (j : Job Value)
        → find_id j.id db ≡ some j
        → can_claim names now db.jobs j ≡ true
        → claim_row now lock_owner db j ≡ claim_result j
    unfolding claim_row update_checked can_claim
    claim_row-result names j e c =
        let keys =
          any_by-id j.id (λ r. clashes clash_key (start now lock_owner r) db.jobs) db.jobs
            v.pairs in
        let queues =
          any_by-id j.id (λ r. clashes clash_queue (start now lock_owner r) db.jobs) db.jobs
            v.pairs in
        ground (
          arith,
          e,
          keys,
          queues,
          keys_free j e (ground (arith, c)),
          queues_free j db.jobs (ground (arith, c)),
        )

    claimable_found :
        (names : List String)
        → All (λ r. find_id r.id db ≡ some r) (filter_by (can_claim names now db.jobs) db.jobs)
    claimable_found names =
        All-filter_by (λ r. find_id r.id db ≡ some r) (can_claim names now db.jobs) db.jobs
          (rows_found db.jobs v.pairs)

    never_lost : (j : Job Value) → lost_race db (claim_result j) ≡ claim_result j
    never_lost j = ground arith

    -- On a valid table, a claim that reads it as it is and meets no locked rows finds nothing exactly
    -- when no job is claimable. Otherwise it takes a claimable job that comes no later than any claimable
    -- one by priority, then run_at, then created_at; its update succeeds unless the attempt counter is
    -- at the greatest 32-bit integer.
    pub claim_next-first :
        (names : List String)
        → let claimable = filter_by (can_claim names now db.jobs) db.jobs in
          let result = claim_next now unlocked db lock_owner names db in
          ((claimable ≡ []) × (result ≡ ok (none, db)))
          ⊎ ((j : Job Value) × (find_id j.id db ≡ some j)
              × (can_claim names now db.jobs j ≡ true)
              × All (IsNoLater j) claimable
              × (result ≡ claim_result j))
    unfolding claim_next candidate
    claim_next-first names =
        let claimable = filter_by (can_claim names now db.jobs) db.jobs in
        let heads =
          first_free-head (can_claim names now db.jobs) db.jobs (in_order claimable)
            (in_order-All (λ r. find_id r.id db ≡ some r) claimable (claimable_found names))
            (in_order-All (λ r. can_claim names now db.jobs r ≡ true) claimable
              (filter_by-passes (can_claim names now db.jobs) db.jobs)) in
        elim (Option-cases (head? (in_order claimable))) [
          | inl n ↦ inl (head-none claimable n, ground (arith, heads, n))
          | inr (j, s) ↦
              let found =
                head-All (λ r. find_id r.id db ≡ some r) (in_order claimable) {j = j}
                  (in_order-All (λ r. find_id r.id db ≡ some r) claimable (claimable_found names))
                  s in
              let passes =
                head-All (λ r. can_claim names now db.jobs r ≡ true) (in_order claimable) {j = j}
                  (in_order-All (λ r. can_claim names now db.jobs r ≡ true) claimable
                    (filter_by-passes (can_claim names now db.jobs) db.jobs))
                  s in
              inr (
                j,
                found,
                passes,
                NonePrecedes-IsNoLater j claimable (head-NonePrecedes j claimable s),
                ground (arith, heads, s, claim_row-result names j found passes, never_lost j),
              )
        ]
