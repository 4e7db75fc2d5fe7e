-- ===== src/Queue/Notify/Claimable.antt =====
-- migrations/0001_init.sql and src/queue.rs: what a claim finds after a statement that notified nobody.
use pgspawn.Prelude.{
  ◌≡◌, refl, inl, inr, Bool, true, ◌&&◌, Option, none, some, is_some, String, arith, List, [], ◌∷◌,
  any_by, find_by, All, Bool-cases, same_text,
}
use pgspawn.Job.{Uuid, Timestamp, Job}
use pgspawn.Table.{Db, is_running}
use pgspawn.Table.Valid.{IsValid}
use pgspawn.Table.Lookup.{find_id, by_id, rows_found}
use pgspawn.Queue.Claim.{can_claim, queue_free}
use pgspawn.Queue.Notify.Calm.{IsCalm, any_by-find}

named : (a b : Option String) → same_text a b ≡ true → is_some a ≡ true
named none b h = h
named (some a) b h = refl

module _ {Value : Type 0} where
  abbrev Occupies : (p : Job Value → Bool) (all : List (Job Value)) → Type 0
  Occupies p all = (r : Job Value) × (find_by (by_id r.id) all ≡ some r) × (p r ≡ true)

  pub any_among :
      (p : Job Value → Bool) (all rs : List (Job Value))
      → All (λ r. find_by (by_id r.id) all ≡ some r) rs
      → any_by p rs ≡ true
      → Occupies p all
  any_among p all [] h e = absurd (ground arith)
  any_among p all (r ∷ rs) h e = elim (Bool-cases (p r)) [
    | inl t ↦ (r, h.0, t)
    | inr t ↦ any_among p all rs h.1 (ground (arith, t))
  ]

  found_any :
      (k : Uuid) (p : Job Value → Bool) (rs : List (Job Value)) {r : Job Value}
      → find_by (by_id k) rs ≡ some r
      → p r ≡ true
      → any_by p rs ≡ true
  found_any k p rs {r} e h = elim (Bool-cases (any_by p rs)) [
    | inl t ↦ t
    | inr f ↦ absurd (ground (arith, any_by-find k p rs {j = r} f e, h))
  ]

  abbrev occupies : Option String → Job Value → Bool
  occupies queue_name r = is_running r.status && same_text r.queue_name queue_name

  -- A queue that is occupied stays so.
  still_occupied :
      (queue_name : Option String) (db db' : Db Value)
      → IsValid db
      → IsCalm db db'
      → any_by (occupies queue_name) db.jobs ≡ true
      → any_by (occupies queue_name) db'.jobs ≡ true
  still_occupied queue_name db db' v c e =
      let (r, at_id, holds) =
        any_among (occupies queue_name) db.jobs db.jobs (rows_found db.jobs v.pairs) e in
      let (new, found, still) =
        c.slots_kept r.id r at_id (ground (arith, holds))
          (named r.queue_name queue_name (ground (arith, holds))) in
      found_any r.id (occupies queue_name) db'.jobs {r = new} found
        (ground (arith, still.runs_after, still.queue_kept, holds))

  free_before :
      (old new : Job Value) (db db' : Db Value)
      → IsValid db
      → IsCalm db db'
      → new.queue_name ≡ old.queue_name
      → queue_free db'.jobs new ≡ true
      → queue_free db.jobs old ≡ true
  free_before old new db db' v c same free =
      elim (Bool-cases (any_by (occupies old.queue_name) db.jobs)) [
        | inr t ↦ ground (arith, t)
        | inl t ↦
            let taken = still_occupied old.queue_name db db' v c t in
            ground (arith, taken, same, free)
      ]

  -- A job that a worker could claim after a calm change could be claimed before it.
  pub IsCalm-claimable :
      (db db' : Db Value)
      → IsValid db
      → IsCalm db db'
      → (names : List String) (t : Timestamp) (k : Uuid) (new : Job Value)
      → find_id k db' ≡ some new
      → can_claim names t db'.jobs new ≡ true
      → (old : Job Value) × (find_id k db ≡ some old) × (can_claim names t db.jobs old ≡ true)
  unfolding can_claim
  IsCalm-claimable db db' v c names t k new e h =
      let (old, found, was) = c.rows_kept k new e (ground arith) in
      let free = free_before old new db db' v c was.same_queue (ground arith) in
      (old, found, ground (arith, was.queued_before, was.same_time, was.same_name, free))
