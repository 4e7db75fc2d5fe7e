-- ===== src/Queue/Life.antt =====
-- src/queue.rs, told as the life of one job: its status, how often it was started and who holds it. The
-- statements of src/queue.rs see the jobs table; a `Life` is what one of them does to one id.
pub mod Rows
pub mod Inserts
pub mod Statements
pub mod Steps
use pgspawn.Prelude.{ℕ, suc, ◌≡◌, Bool, true, false, Option, none, some, String}
use pgspawn.Job.{Uuid, Job}
use pgspawn.Job.Status.{JobStatus, queued, running, cancelled, is_terminal}
use pgspawn.Table.{Db, is_active}
use pgspawn.Table.Lookup.{find_id}
use pgspawn.Queue.Manage.{is_retryable}

pub record View : Type 0 where
  pub status : JobStatus
  pub attempt : ℕ
  pub owner : Option String

abbrev pub is_done : JobStatus → Bool
is_done JobStatus.succeeded = true
is_done JobStatus.failed = true
is_done _ = false

-- What may become of the job under one id, which is `none` before it is enqueued and after it is pruned.
pub data Life : Option View → Option View → Type 0 where
  stays : {v w : Option View} → v ≡ w → Life v w
  created : Life none (some (record { status = queued; attempt = 0; owner = none }))
  claimed :
      {v w : View} (owner : String)
      → v.status ≡ queued
      → w ≡ record { status = running; attempt = suc v.attempt; owner = some owner }
      → Life (some v) (some w)
  requeued :
      {v w : View}
      → v.status ≡ running
      → w ≡ record { status = queued; attempt = v.attempt; owner = none }
      → Life (some v) (some w)
  ended :
      {v w : View}
      → is_active v.status ≡ true
      → is_done w.status ≡ true
      → w.attempt ≡ v.attempt
      → w.owner ≡ none
      → Life (some v) (some w)
  called_off :
      {v w : View}
      → v.status ≡ queued
      → w ≡ record { status = cancelled; attempt = v.attempt; owner = none }
      → Life (some v) (some w)
  retried :
      {v w : View}
      → is_retryable v.status ≡ true
      → w ≡ record { status = queued; attempt = 0; owner = none }
      → Life (some v) (some w)
  pruned : {v : View} → is_terminal v.status ≡ true → Life (some v) none

module _ {Value : Type 0} where
  abbrev pub view : Job Value → View
  view j = record { status = j.status; attempt = j.attempt; owner = j.locked_by }

  abbrev pub view_of : Option (Job Value) → Option View
  view_of none = none
  view_of (some j) = some (view j)

  abbrev pub life : Uuid → Db Value → Option View
  life k db = view_of (find_id k db)

  -- Every id takes at most one step of its life.
  abbrev pub Lives : Db Value → Db Value → Type 0
  Lives db db' = (k : Uuid) → Life (life k db) (life k db')
