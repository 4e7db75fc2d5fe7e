-- ===== src/Queue/Batch/Valid.antt =====
-- src/queue.rs: a batch that succeeds keeps the jobs table valid.
use pgspawn.Prelude.{◌≡◌, refl, List, ok, arith}
use pgspawn.Job.{Timestamp, Uuid}
use pgspawn.Table.{Db}
use pgspawn.Table.Valid.{IsValid}
use pgspawn.Queue.Insert.Valid.{upsert-IsValid}
use pgspawn.Queue.Batch.{Entry, batch_row, enqueue_many}
use pgspawn.Queue.Batch.Keeps.{enqueue_many-keeps}

module _ {Value : Type 0} where
  pub enqueue_many-IsValid :
      (now : Timestamp) (es : List (Entry Value)) (db : Db Value)
      → IsValid db
      → {ids : List Uuid} {db' : Db Value} → enqueue_many now es db ≡ ok (ids, db')
      → IsValid db'
  enqueue_many-IsValid = enqueue_many-keeps IsValid (λ now mode x db v r db' p.
      upsert-IsValid now mode (batch_row now x) db (λ a. ground arith) refl v p)
