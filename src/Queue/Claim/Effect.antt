-- ===== src/Queue/Claim/Effect.antt =====
-- src/queue.rs: what a claim changes, whatever snapshot it read and whatever rows others lock.
use pgspawn.Prelude.{
  ℕ, ◌==◌, ◌≡◌, refl, subst, ◌⊎◌, inl, inr, Bool, true, false, Option, none, some, List, [], ◌∷◌,
  String, arith, if◌then◌else◌, Bool-cases, Option-cases, find_by, Result-cases, ok,
}
use pgspawn.Prelude.Int.{◌≤ℤ◌, leb_ℤ→le}
use pgspawn.Job.{Uuid, Timestamp, Job}
use pgspawn.Table.{Db, is_queued, touch, update_jobs, update_checked}
use pgspawn.Table.Lookup.{find_id, by_id, find_by-id, find_by-update_rows}
use pgspawn.Queue.Claim.{
  can_claim, named_in, queue_free, first_free, candidate, start, claim_row, claim_next,
}

module _ {Value : Type 0} where
  pub first_free-some :
      (still : Job Value → Bool) (locked : Uuid → Bool) (current cs : List (Job Value))
      {j : Job Value}
      → first_free still locked current cs ≡ some j
      → (still j ≡ true) × (locked j.id ≡ false) × (find_by (by_id j.id) current ≡ some j)
  unfolding first_free
  first_free-some still locked current [] e = absurd (ground arith)
  first_free-some still locked current (c ∷ cs) {j} e =
      let rest = first_free-some still locked current cs {j = j} in
      elim (Bool-cases (locked c.id)) [
        | inl l ↦ rest (ground arith)
        | inr l ↦ elim (Option-cases (find_by (by_id c.id) current)) [
          | inl n ↦ rest (ground arith)
          | inr (i, f) ↦ elim (Bool-cases (still i)) [
            | inl s ↦ ground (arith, find_by-id c.id current f)
            | inr s ↦ rest (ground arith)
          ]
        ]
      ]

  -- A successful UPDATE under the indexes is the plain one.
  pub update_checked-ok :
      (now : Timestamp) (p : Job Value → Bool) (f : Job Value → Job Value) (db : Db Value)
      {u : Db Value × ℕ}
      → update_checked now p f db ≡ ok u
      → u ≡ update_jobs now p f db
  unfolding update_checked
  update_checked-ok now p f db e = ground arith

  find_started :
      (now : Timestamp) (lock_owner : String) (db : Db Value) (j : Job Value) (k : Uuid)
      → find_id j.id db ≡ some j
      → find_id k (update_jobs now (by_id j.id) (start now lock_owner) db).0
        ≡ (if k == j.id then some (touch now (start now lock_owner j)) else find_id k db)
  unfolding update_jobs
  find_started now lock_owner db j k e =
      rw
        (find_by-update_rows (by_id j.id) (λ i. touch now (start now lock_owner i)) (λ r. refl) k
          db.jobs)
        (elim (Option-cases (find_id k db)) [
          | inl none_k ↦ ground (arith, none_k, e)
          | inr (r, some_k) ↦ ground (arith, some_k, e, find_by-id k db.jobs some_k)
        ])

  can_claim-parts :
      (now : Timestamp) (names : List String) (rows : List (Job Value)) (j : Job Value)
      → can_claim names now rows j ≡ true
      → (is_queued j.status ≡ true)
        × (j.run_at ≤ℤ now)
        × (named_in names j ≡ true)
        × (queue_free rows j ≡ true)
  unfolding can_claim
  can_claim-parts now names rows j h =
      (ground arith, leb_ℤ→le j.run_at now (ground arith), ground arith, ground arith)

  -- What a claim with a result `r` and a table `db'` has done: nothing, if it found no job; otherwise it
  -- took a job that in its current version was queued, due, of a handled name and of a queue free in the
  -- snapshot, and that was not locked, and changed that row alone.
  abbrev pub Claims :
      (now : Timestamp) (locked : Uuid → Bool) (snapshot : Db Value) (lock_owner : String)
      (names : List String) (db : Db Value) (r : Option (Job Value)) (db' : Db Value)
      → Type 0
  Claims now locked snapshot lock_owner names db r db' =
      ((r ≡ none) × (db' ≡ db))
      ⊎ ((j : Job Value) × (find_id j.id db ≡ some j)
          × (is_queued j.status ≡ true)
          × (j.run_at ≤ℤ now)
          × (named_in names j ≡ true)
          × (queue_free snapshot.jobs j ≡ true)
          × (locked j.id ≡ false)
          × (r ≡ some (touch now (start now lock_owner j)))
          × ((k : Uuid)
              → find_id k db'
                ≡ (if k == j.id then some (touch now (start now lock_owner j)) else find_id k db)))

  claim_row-ok :
      (now : Timestamp) (lock_owner : String) (db : Db Value) (j : Job Value)
      {r : Option (Job Value)} {db' : Db Value}
      → claim_row now lock_owner db j ≡ ok (r, db')
      → (r ≡ some (touch now (start now lock_owner j)))
        × (db' ≡ (update_jobs now (by_id j.id) (start now lock_owner) db).0)
  unfolding claim_row
  claim_row-ok now lock_owner db j e =
      elim (Result-cases (update_checked now (by_id j.id) (start now lock_owner) db)) [
        | inl (u, p) ↦ ground (arith, p, update_checked-ok now _ _ db p)
        | inr (x, p) ↦ absurd (ground (arith, p))
      ]

  -- Every claim that does not fail either finds nothing and changes nothing, or takes one job that is
  -- queued, due, of a handled name and not locked by another transaction, and changes that row alone.
  pub claim_next-Claims :
      (now : Timestamp) (locked : Uuid → Bool) (snapshot : Db Value) (lock_owner : String)
      (names : List String) (db : Db Value) {r : Option (Job Value)} {db' : Db Value}
      → claim_next now locked snapshot lock_owner names db ≡ ok (r, db')
      → Claims now locked snapshot lock_owner names db r db'
  unfolding claim_next
  claim_next-Claims now locked snapshot lock_owner names db {r} {db'} e =
      elim (Option-cases (candidate names now locked snapshot db)) [
        | inl p ↦ inl (ground (arith, p), ground (arith, p))
        | inr (j, p) ↦
            let (may, free, found) =
              first_free-some (can_claim names now snapshot.jobs) locked db.jobs _ {j = j} p in
            let claimable = can_claim-parts now names snapshot.jobs j may in
            elim (Result-cases (claim_row now lock_owner db j)) [
              | inr (x, q) ↦ inl (ground (arith, p, q), ground (arith, p, q))
              | inl ((r₁, db₁), q) ↦
                  let (is_started, updated) = claim_row-ok now lock_owner db j q in
                  inr (
                    j,
                    found,
                    claimable.0,
                    claimable.1,
                    claimable.2,
                    claimable.3,
                    free,
                    ground (arith, p, q, is_started),
                    λ k.
                        subst
                          (λ (d : Db Value). find_id k d ≡ (
                            if k == j.id
                            then some (touch now (start now lock_owner j))
                            else find_id k db))
                          {x = (update_jobs now (by_id j.id) (start now lock_owner) db).0} {y = db'}
                          (ground (arith, p, q, updated))
                          (find_started now lock_owner db j k found),
                  )
            ]
      ]
