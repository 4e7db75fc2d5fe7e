-- ===== src/Queue/Manage/Acts.antt =====
-- src/queue.rs: what a statement on one job does to it, column by column.
use pgspawn.Prelude.{
  ◌==◌, ◌≡◌, ◌⊎◌, inl, inr, Bool, true, false, Option, none, some, String, if◌then◌else◌,
}
use pgspawn.Job.{Uuid, Timestamp, Job}
use pgspawn.Job.Status.{JobStatus, queued}
use pgspawn.Table.{Db, touch}
use pgspawn.Table.Lookup.{find_id}
use pgspawn.Queue.Manage.One.{UpdatesOne, passes}

module _ {Value : Type 0} where
  -- The columns that neither a worker's report nor a cancellation touches.
  abbrev pub IsSameJob : (j j' : Job Value) → Type 0
  IsSameJob j j' =
      (j'.id ≡ j.id)
      × (j'.name ≡ j.name)
      × (j'.payload ≡ j.payload)
      × (j'.queue_name ≡ j.queue_name)
      × (j'.priority ≡ j.priority)
      × (j'.job_key ≡ j.job_key)
      × (j'.attempt ≡ j.attempt)
      × (j'.max_attempts ≡ j.max_attempts)
      × (j'.queued_at ≡ j.queued_at)
      × (j'.started_at ≡ j.started_at)
      × (j'.created_at ≡ j.created_at)

  -- The job has ended with the status, at `now`, and nobody holds it.
  pub record IsEnded (now : Timestamp) (status : JobStatus) (error : Option String)
      (j j' : Job Value) : Type 0 where
    pub same_job : IsSameJob j j'
    pub status_is : j'.status ≡ status
    pub error_is : j'.error ≡ error
    pub unlocked : (j'.locked_by ≡ none) × (j'.locked_at ≡ none)
    pub finished : j'.finished_at ≡ some now
    pub run_at : j'.run_at ≡ j.run_at
    pub stamped : j'.updated_at ≡ now

  -- The job waits for its next attempt at `run_at`, and nobody holds it.
  pub record IsPutBack (now run_at : Timestamp) (error : String) (j j' : Job Value) : Type 0 where
    pub same_job : IsSameJob j j'
    pub status_is : j'.status ≡ queued
    pub error_is : j'.error ≡ some error
    pub unlocked : (j'.locked_by ≡ none) × (j'.locked_at ≡ none)
    pub finished : j'.finished_at ≡ j.finished_at
    pub run_at_is : j'.run_at ≡ run_at
    pub stamped : j'.updated_at ≡ now

  -- There is no job, or it does not have the property.
  abbrev pub IsRefused : (Job Value → Type 0) → Option (Job Value) → Type 0
  IsRefused IsAllowed none = Unit
  IsRefused IsAllowed (some j) = ¬ IsAllowed j

  -- A statement on the job under an id: it acts exactly when the job has the property, changes that job as
  -- told, and leaves every other row; otherwise it changes nothing.
  abbrev pub Acts :
      (IsAllowed : Job Value → Type 0) (Changes : Job Value → Job Value → Type 0) (id : Uuid)
      (db : Db Value) (r : Bool × Db Value)
      → Type 0
  Acts IsAllowed Changes id db r =
      ((r ≡ (false, db)) × IsRefused IsAllowed (find_id id db))
      ⊎ ((j : Job Value) × (j' : Job Value) × (find_id id db ≡ some j)
          × IsAllowed j
          × Changes j j'
          × (r.0 ≡ true)
          × ((k : Uuid) → find_id k r.1 ≡ (if k == id then some j' else find_id k db)))

  pub UpdatesOne-Acts :
      (now : Timestamp) (id : Uuid) (q : Job Value → Bool) (f : Job Value → Job Value)
      (db : Db Value) (r : Bool × Db Value) (IsAllowed : Job Value → Type 0)
      (Changes : Job Value → Job Value → Type 0)
      → ((j : Job Value) → q j ≡ true → IsAllowed j)
      → ((j : Job Value) → q j ≡ false → ¬ IsAllowed j)
      → ((j : Job Value) → find_id id db ≡ some j → IsAllowed j → Changes j (touch now (f j)))
      → UpdatesOne now id q f db r
      → Acts IsAllowed Changes id db r
  UpdatesOne-Acts now id q f db r IsAllowed Changes allows denies changes (inl (e, fails)) =
      inl (e, refused (find_id id db) fails)
    where
      refused : (o : Option (Job Value)) → passes q o ≡ false → IsRefused IsAllowed o
      refused none h = tt
      refused (some j) h = denies j h
  UpdatesOne-Acts now id q f db r IsAllowed Changes allows denies changes
        (inr (j, found, t, done, after)) =
      inr (j, touch now (f j), found, allows j t, changes j found (allows j t), done, after)
