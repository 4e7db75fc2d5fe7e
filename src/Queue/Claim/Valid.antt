-- ===== src/Queue/Claim/Valid.antt =====
-- src/queue.rs: whatever snapshot a claim has read and whatever rows others lock, it keeps the jobs
-- table valid.
use pgspawn.Prelude.{
  ◌==◌, ◌≡◌, refl, subst, Bool, String, arith, ok, Result-cases, inl, inr, Option-cases, List,
  Option,
}
use pgspawn.Job.{Uuid, Timestamp, Job}
use pgspawn.Table.{Db, update_checked}
use pgspawn.Table.Valid.{IsValid}
use pgspawn.Table.Checked.{update_checked-IsValid}
use pgspawn.Queue.Claim.{claim_next, claim_row, candidate, start, lost_race}

module _ {Value : Type 0} where
  claim_row-IsValid :
      (now : Timestamp) (lock_owner : String) (db : Db Value) (j : Job Value)
      → IsValid db
      → {r : Option (Job Value)} {db' : Db Value} → claim_row now lock_owner db j ≡ ok (r, db')
      → IsValid db'
  unfolding claim_row
  claim_row-IsValid now lock_owner db j v {db' = db'} e =
      elim (Result-cases (update_checked now (λ r. r.id == j.id) (start now lock_owner) db)) [
        | inl ((db₁, n), p) ↦ subst IsValid {x = db₁} (ground (arith, e, p)) (
            update_checked-IsValid now (λ r. r.id == j.id) (start now lock_owner) j.id db
              (λ r q. ground arith) (λ r. refl) (λ r h q. ground arith) v p)
        | inr (x, p) ↦ absurd (ground (arith, e, p))
      ]

  lost_race-IsValid :
      (now : Timestamp) (lock_owner : String) (db : Db Value) (j : Job Value)
      → IsValid db
      → {r : Option (Job Value)} {db' : Db Value}
      → lost_race db (claim_row now lock_owner db j) ≡ ok (r, db')
      → IsValid db'
  lost_race-IsValid now lock_owner db j v {db' = db'} e =
      elim (Result-cases (claim_row now lock_owner db j)) [
        | inl ((r₁, db₁), p) ↦
            subst IsValid {x = db₁} (ground (arith, e, p))
              (claim_row-IsValid now lock_owner db j v p)
        | inr (x, p) ↦ subst IsValid {x = db} (ground (arith, e, p)) v
      ]

  -- A claim keeps the table valid, so no two running jobs ever share a queue name, also when its
  -- snapshot is stale.
  pub claim_next-IsValid :
      (now : Timestamp) (locked : Uuid → Bool) (snapshot : Db Value) (lock_owner : String)
      (names : List String) (db : Db Value)
      → IsValid db
      → {r : Option (Job Value)} {db' : Db Value}
      → claim_next now locked snapshot lock_owner names db ≡ ok (r, db')
      → IsValid db'
  unfolding claim_next
  claim_next-IsValid now locked snapshot lock_owner names db v {db' = db'} e =
      elim (Option-cases (candidate names now locked snapshot db)) [
        | inl p ↦ subst IsValid {x = db} (ground (arith, e, p)) v
        | inr (j, p) ↦ lost_race-IsValid now lock_owner db j v (rw (p, claim_next) at e)
      ]
