-- ===== src/Queue/Manage/One.antt =====
-- src/queue.rs: what an UPDATE with `WHERE id = $1 AND q` does, told by ids.
use pgspawn.Prelude.{
  ◌==◌, ◌≡◌, ◌⊎◌, inl, inr, Bool, true, false, Option, none, some, arith, if◌then◌else◌, Bool-cases,
  Option-cases, count_by,
}
use pgspawn.Job.{Uuid, Timestamp, Job}
use pgspawn.Table.{Db, touch, update_jobs}
use pgspawn.Table.Valid.{IsValid}
use pgspawn.Table.Lookup.{
  find_id, matches, find_by-id, update_rows_none, find_by-update_rows, count_by-matches,
}
use pgspawn.Queue.Manage.{affected_one}

module _ {Value : Type 0} where
  -- Whether there is a row and it passes the test.
  abbrev pub passes : (Job Value → Bool) → Option (Job Value) → Bool
  passes q none = false
  passes q (some j) = q j

  -- Either no row under the id passes the test: the result is false and nothing changed. Or the row
  -- under the id passes it: the result is true, that row is changed and stamped, every other id leads
  -- to the row that it led to.
  abbrev pub UpdatesOne :
      Timestamp
      → Uuid
      → (Job Value → Bool)
      → (Job Value → Job Value)
      → Db Value
      → Bool × Db Value
      → Type 0
  UpdatesOne now id q f db r =
      ((r ≡ (false, db)) × (passes q (find_id id db) ≡ false))
      ⊎ ((j : Job Value) × (find_id id db ≡ some j)
          × (q j ≡ true)
          × (r.0 ≡ true)
          × ((k : Uuid)
              → find_id k r.1 ≡ (if k == id then some (touch now (f j)) else find_id k db)))

  module _ (now : Timestamp) (id : Uuid) (q : Job Value → Bool) (f : Job Value → Job Value)
      (id_kept : (r : Job Value) → (f r).id ≡ r.id) (db : Db Value) (v : IsValid db) where
    update_none :
        count_by (matches id q) db.jobs ≡ 0
        → affected_one (update_jobs now (matches id q) f db) ≡ (false, db)
    unfolding update_jobs
    update_none e = ground (arith, update_rows_none (matches id q) (λ j. touch now (f j)) db.jobs e)

    find_updated :
        (j : Job Value) (k : Uuid)
        → find_id id db ≡ some j
        → q j ≡ true
        → find_id k (update_jobs now (matches id q) f db).0
          ≡ (if k == id then some (touch now (f j)) else find_id k db)
    unfolding update_jobs
    find_updated j k e h =
        rw (find_by-update_rows (matches id q) (λ i. touch now (f i)) id_kept k db.jobs)
          (elim (Option-cases (find_id k db)) [
            | inl none_k ↦ ground (arith, none_k, e)
            | inr (r, some_k) ↦ ground (arith, some_k, e, h, find_by-id k db.jobs some_k)
          ])

    pub update_jobs-UpdatesOne :
        UpdatesOne now id q f db (affected_one (update_jobs now (matches id q) f db))
    unfolding update_jobs
    update_jobs-UpdatesOne = elim (Option-cases (find_id id db)) [
      | inl e ↦ inl (
        update_none (ground (arith, e, count_by-matches id q db.jobs v.pairs)),
        ground (arith, e),
      )
      | inr (j, e) ↦ elim (Bool-cases (q j)) [
        | inl h ↦ inr (
          j,
          e,
          h,
          ground (arith, e, h, count_by-matches id q db.jobs v.pairs),
          λ k. find_updated j k e h,
        )
        | inr h ↦ inl (
          update_none (ground (arith, e, h, count_by-matches id q db.jobs v.pairs)),
          ground (arith, e, h),
        )
      ]
    ]
