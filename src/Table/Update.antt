-- ===== src/Table/Update.antt =====
-- UPDATE and the invariant of the jobs table.
use pgspawn.Prelude.{◌≡◌, Bool, true, List, [], ◌∷◌, All, Pairwise, arith, if◌then◌else◌}
use pgspawn.Job.{Timestamp, Job}
use pgspawn.Table.{Db, touch, update_rows, update_jobs}
use pgspawn.Table.Valid.{
  RowOk, Compatible, IsValid, IsTame, Compatible-IsTame, touch-RowOk, touch-IsTame,
}

module _ {Value : Type 0} where
  IsTame-refl : (r : Job Value) → IsTame r r
  IsTame-refl r = ground arith

  module _ (p : Job Value → Bool) (f : Job Value → Job Value)
      (tame : (r : Job Value) → RowOk r → p r ≡ true → IsTame r (f r))
      (kept : (r : Job Value) → RowOk r → p r ≡ true → RowOk (f r)) where
    branch-IsTame : (r : Job Value) → RowOk r → IsTame r (if p r then f r else r)
    branch-IsTame r h = ground (arith, tame r h, IsTame-refl r)

    branch_ok : (r : Job Value) → RowOk r → RowOk (if p r then f r else r)
    branch_ok r h = ground (arith, kept r h)

    update_rows-All : (rs : List (Job Value)) → All RowOk rs → All RowOk (update_rows p f rs)
    unfolding update_rows
    update_rows-All [] h = h
    update_rows-All (r ∷ rs) h = (branch_ok r h.0, update_rows-All rs h.1)

    update_rows-Compatible :
        (r r' : Job Value) (rs : List (Job Value))
        → IsTame r r'
        → All RowOk rs
        → All (Compatible r) rs
        → All (Compatible r') (update_rows p f rs)
    unfolding update_rows
    update_rows-Compatible r r' [] t h c = tt
    update_rows-Compatible r r' (s ∷ rs) t h c =
        (Compatible-IsTame t (branch-IsTame s h.0) c.0, update_rows-Compatible r r' rs t h.1 c.1)

    update_rows-Pairwise :
        (rs : List (Job Value))
        → All RowOk rs
        → Pairwise Compatible rs
        → Pairwise Compatible (update_rows p f rs)
    unfolding update_rows
    update_rows-Pairwise [] h c = tt
    update_rows-Pairwise (r ∷ rs) h c = (
      update_rows-Compatible r _ rs (branch-IsTame r h.0) h.1 c.0,
      update_rows-Pairwise rs h.1 c.1,
    )

  -- An UPDATE whose changes are tame keeps the table valid.
  pub update_jobs-IsValid :
      (now : Timestamp) (p : Job Value → Bool) (f : Job Value → Job Value) (db : Db Value)
      → ((r : Job Value) → RowOk r → p r ≡ true → IsTame r (f r))
      → ((r : Job Value) → RowOk r → p r ≡ true → RowOk (f r))
      → IsValid db
      → IsValid (update_jobs now p f db).0
  unfolding update_jobs
  update_jobs-IsValid now p f db tame kept v = record {
    rows = update_rows-All p g tame' kept' db.jobs v.rows;
    pairs = update_rows-Pairwise p g tame' kept' db.jobs v.rows v.pairs;
  }
    where
      g : Job Value → Job Value
      g j = touch now (f j)

      tame' : (r : Job Value) → RowOk r → p r ≡ true → IsTame r (g r)
      tame' r h e = touch-IsTame now (tame r h e)

      kept' : (r : Job Value) → RowOk r → p r ≡ true → RowOk (g r)
      kept' r h e = touch-RowOk (kept r h e)
