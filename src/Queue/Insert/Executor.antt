-- ===== src/Queue/Insert/Executor.antt =====
-- src/queue.rs: the enqueueing methods that take an executor. `db` are the tables as the caller's
-- transaction sees them, and the result those it goes on with; the id and the tables are the statement's.
use pgspawn.Prelude.{String, Result, ◌>>=◌, map_err, List, [], ◌∷◌, ok}
use pgspawn.Job.{
  Uuid, Timestamp, EnqueueOptions, SqlError, default_options, EnqueueError, serialize, database,
}
use pgspawn.Table.{Db}
use pgspawn.Queue.Insert.{insert_job}
use pgspawn.Queue.Batch.{Entry, insert_job_batch}

module _ {Value : Type 0} where
  abbrev pub enqueue_in :
      (clock now : Timestamp) (fresh : Uuid) (name : String) (payload : Value) (db : Db Value)
      → Result (Uuid × Db Value) SqlError
  enqueue_in clock now fresh name payload db =
      insert_job clock now fresh name payload default_options db

  abbrev pub enqueue_in_with_options :
      (clock now : Timestamp) (fresh : Uuid) (name : String) (payload : Value)
      (options : EnqueueOptions) (db : Db Value)
      → Result (Uuid × Db Value) SqlError
  enqueue_in_with_options = insert_job

  abbrev pub enqueue_typed_in_with_options {ℓ} :
      {T : Type ℓ} (to_value : T → Result Value String) (clock now : Timestamp) (fresh : Uuid)
      (name : String) (payload : T) (options : EnqueueOptions) (db : Db Value)
      → Result (Uuid × Db Value) EnqueueError
  enqueue_typed_in_with_options to_value clock now fresh name payload options db = do
    value ← map_err serialize (to_value payload)
    map_err database (insert_job clock now fresh name value options db)

  abbrev pub enqueue_typed_in {ℓ} :
      {T : Type ℓ} (to_value : T → Result Value String) (clock now : Timestamp) (fresh : Uuid)
      (name : String) (payload : T) (db : Db Value)
      → Result (Uuid × Db Value) EnqueueError
  enqueue_typed_in to_value clock now fresh name payload db =
      enqueue_typed_in_with_options to_value clock now fresh name payload default_options db

  -- The savepoint or transaction of the batch, as in `enqueue_many`: an error carries no tables.
  abbrev pub enqueue_many_in :
      Timestamp → List (Entry Value) → Db Value → Result (List Uuid × Db Value) EnqueueError
  enqueue_many_in now [] db = ok ([], db)
  enqueue_many_in now (e ∷ es) db = insert_job_batch now (e ∷ es) db
