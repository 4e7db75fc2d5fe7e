-- ===== src/Table/Valid.antt =====
-- What the constraints of the jobs table and the statements keep: each row's status, lock and times
-- agree, ids are distinct, an active job has its key alone, a running job its queue name.
use pgspawn.Prelude.{◌≡◌, true, false, ◌==◌, none, is_some, All, Pairwise, arith}
use pgspawn.Prelude.Int.{pos, ◌≤ℤ◌}
use pgspawn.Job.{Timestamp, Job}
use pgspawn.Job.Status.{is_terminal}
use pgspawn.Table.{Db, is_active, is_running, clash_key, clash_queue, touch}

module _ {Value : Type 0} where
  pub record RowOk (j : Job Value) : Type 0 where
    pub running_locked :
        is_running j.status ≡ true → (is_some j.locked_by ≡ true) × (is_some j.locked_at ≡ true)
    pub idle_unlocked : is_running j.status ≡ false → (j.locked_by ≡ none) × (j.locked_at ≡ none)
    pub terminal_finished : is_terminal j.status ≡ true → is_some j.finished_at ≡ true
    pub open_unfinished : is_terminal j.status ≡ false → j.finished_at ≡ none
    pub attempts_allowed : pos 1 ≤ℤ j.max_attempts

  pub record Compatible (r s : Job Value) : Type 0 where
    pub ids : (r.id == s.id) ≡ false
    pub keys : clash_key r s ≡ false
    pub queues : clash_queue r s ≡ false

  pub record IsValid (db : Db Value) : Type 0 where
    pub rows : All RowOk db.jobs
    pub pairs : Pairwise Compatible db.jobs

  pub touch-RowOk : {now : Timestamp} {j : Job Value} → RowOk j → RowOk (touch now j)
  touch-RowOk h = record {
    running_locked = h.running_locked;
    idle_unlocked = h.idle_unlocked;
    terminal_finished = h.terminal_finished;
    open_unfinished = h.open_unfinished;
    attempts_allowed = h.attempts_allowed;
  }

  -- A change of a row that cannot bring it into conflict with another: it keeps its id, becomes
  -- neither active nor running, and stays under its key while active and its queue name while running.
  pub record IsTame (r r' : Job Value) : Type 0 where
    pub id_kept : r'.id ≡ r.id
    pub active_kept :
        is_active r'.status ≡ true → (is_active r.status ≡ true) × (r'.job_key ≡ r.job_key)
    pub running_kept :
        is_running r'.status ≡ true → (is_running r.status ≡ true) × (r'.queue_name ≡ r.queue_name)

  pub Compatible-IsTame :
      {r r' s s' : Job Value} → IsTame r r' → IsTame s s' → Compatible r s → Compatible r' s'
  Compatible-IsTame t u c = record {
    ids = ground arith;
    keys = ground arith;
    queues = ground arith;
  }

  pub touch-IsTame : (now : Timestamp) {r r' : Job Value} → IsTame r r' → IsTame r (touch now r')
  touch-IsTame now t = record {
    id_kept = t.id_kept;
    active_kept = t.active_kept;
    running_kept = t.running_kept;
  }
