-- ===== src/Queue/Batch.antt =====
-- src/queue.rs: `insert_job_batch` and `enqueue_many`. A transaction that ends in an
-- error leaves the tables as they were, which the result type says: an error carries no tables.
pub mod Keeps
pub mod Valid
pub mod Each
pub mod Touches
pub mod Alone
pub mod Answers
use pgspawn.Prelude.{
  Bool, true, false, ◌&&◌, ◌||◌, Option, none, some, or_else, String, ◌++ₛ◌, text_eq, if◌then◌else◌,
  Result, ok, err, ◌>>=◌, map_err, List, [], ◌∷◌, ◌++◌, any_by, filter_by,
}
use pgspawn.Job.{
  Uuid, Timestamp, Job, EnqueueRequest, SqlError, protocol, EnqueueError, database,
  duplicate_job_key,
}
use pgspawn.Job.KeyMode.{JobKeyMode, dedupe, replace, preserve_run_at}
use pgspawn.Table.{Db}
use pgspawn.Queue.Insert.{proposed, upsert}

-- Derived `PartialEq`.
abbrev pub mode_eq : JobKeyMode → JobKeyMode → Bool
mode_eq JobKeyMode.dedupe JobKeyMode.dedupe = true
mode_eq JobKeyMode.replace JobKeyMode.replace = true
mode_eq JobKeyMode.preserve_run_at JobKeyMode.preserve_run_at = true
mode_eq _ _ = false

-- The modes in the order of their statements.
abbrev pub all_modes : List JobKeyMode
all_modes = dedupe ∷ replace ∷ preserve_run_at ∷ []

-- `ids_by_job_key`; an entry hides the older ones under its key.
abbrev pub lookup_id : String → List (String × Uuid) → Option Uuid
lookup_id key [] = none
lookup_id key ((k, id) ∷ rest) = let r = lookup_id key rest in if text_eq k key then some id else r

abbrev pub remember : Option String → Uuid → List (String × Uuid) → List (String × Uuid)
remember none id ids_by_job_key = ids_by_job_key
remember (some key) id ids_by_job_key = (key, id) ∷ ids_by_job_key

-- A request, with the id that Uuid::new_v4() and the time that Timestamp::now() give for it.
pub record Entry (Value : Type 0) : Type 0 where
  pub request : EnqueueRequest Value
  pub id : Uuid
  pub clock : Timestamp

module _ {Value : Type 0} where
  abbrev pub key_of : Entry Value → Option String
  key_of e = e.request.options.job_key

  -- The loop over `batch_keys`: the first key that has been seen before.
  unfoldable pub duplicate_key : (batch_keys : List String) → List (Entry Value) → Option String
  duplicate_key batch_keys [] = none
  duplicate_key batch_keys (e ∷ es) = elim (key_of e) [
    | none ↦ duplicate_key batch_keys es
    | some key ↦
        if any_by (λ k. text_eq k key) batch_keys
        then some key
        else duplicate_key (key ∷ batch_keys) es
  ]

  -- The row that the statement proposes for an entry.
  abbrev pub batch_row : Timestamp → Entry Value → Job Value
  batch_row now e =
      proposed now e.id e.request.name e.request.payload e.request.options
        (or_else e.request.options.run_at e.clock)

  -- The INSERT of the rows selected for one mode, and the loop over the rows that it returns.
  unfoldable pub insert_rows :
      Timestamp
      → JobKeyMode
      → List (Entry Value)
      → List (String × Uuid) × Db Value
      → Result (List (String × Uuid) × Db Value) SqlError
  insert_rows now mode [] s = ok s
  insert_rows now mode (e ∷ es) (ids_by_job_key, db) = do
    inserted ← upsert now mode (batch_row now e) db
    insert_rows now mode es
        (remember e.request.options.job_key inserted.0.0 ids_by_job_key, inserted.1)

  abbrev pub selected : JobKeyMode → List (Entry Value) → List (Entry Value)
  selected mode = filter_by (λ e. mode_eq e.request.options.job_key_mode mode)

  -- The loop over the modes. With nothing selected it has no rows to insert.
  unfoldable pub insert_modes :
      Timestamp
      → List JobKeyMode
      → List (Entry Value)
      → List (String × Uuid) × Db Value
      → Result (List (String × Uuid) × Db Value) SqlError
  unfolding insert_rows
  insert_modes now [] es s = ok s
  insert_modes now (mode ∷ modes) es s = do
    s' ← insert_rows now mode (selected mode es) s
    insert_modes now modes es s'

  abbrev pub id_of : List (String × Uuid) → Entry Value → Result Uuid SqlError
  id_of ids_by_job_key e = elim (key_of e) [
    | none ↦ ok e.id
    | some key ↦ elim (lookup_id key ids_by_job_key) [
      | none ↦ err (protocol ("batch insert returned no row for job key `" ++ₛ key ++ₛ "`"))
      | some id ↦ ok id
    ]
  ]

  unfoldable pub ordered_ids :
      List (String × Uuid) → List (Entry Value) → Result (List Uuid) SqlError
  ordered_ids ids_by_job_key [] = ok []
  ordered_ids ids_by_job_key (e ∷ es) = do
    id ← id_of ids_by_job_key e
    ids ← ordered_ids ids_by_job_key es
    ok (id ∷ ids)

  unfoldable pub insert_job_batch :
      Timestamp → List (Entry Value) → Db Value → Result (List Uuid × Db Value) EnqueueError
  unfolding insert_modes ordered_ids duplicate_key
  insert_job_batch now es db = elim (duplicate_key [] es) [
    | some key ↦ err (duplicate_job_key key)
    | none ↦ do
      s ← map_err database (insert_modes now all_modes es ([], db))
      ids ← map_err database (ordered_ids s.0 es)
      ok (ids, s.1)
  ]

  -- `enqueue_many`.
  unfoldable pub enqueue_many :
      Timestamp → List (Entry Value) → Db Value → Result (List Uuid × Db Value) EnqueueError
  enqueue_many now [] db = ok ([], db)
  enqueue_many now (e ∷ es) db = insert_job_batch now (e ∷ es) db
