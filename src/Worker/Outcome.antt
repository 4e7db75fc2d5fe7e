-- ===== src/Worker/Outcome.antt =====
-- src/worker.rs: what the run of a claimed job makes of the job's row.
use pgspawn.Prelude.{
  ℕ, ◌==◌, ◌≡◌, refl, ◌⊎◌, inl, inr, Bool, true, none, some, String, List, [], ◌∷◌, All, Result, ok,
  err, if◌then◌else◌, arith, subst, sym, ap, ◌∙◌,
}
use pgspawn.Prelude.Int.{pos}
use pgspawn.Job.{Job, Uuid, Timestamp}
use pgspawn.Table.{Db, touch, is_running}
use pgspawn.Table.Valid.{IsValid}
use pgspawn.Table.Lookup.{find_id}
use pgspawn.Queue.Manage.{complete_locked, renew_lock, fail_locked, relock, finish}
use pgspawn.Queue.Manage.Valid.{renew_lock-IsValid}
use pgspawn.Queue.Manage.One.{UpdatesOne}
use pgspawn.Queue.Manage.Locked.{
  owned_by, after_failure, complete_locked-UpdatesOne, renew_lock-UpdatesOne,
  fail_locked-UpdatesOne,
}
use pgspawn.Registry.{Handlers, JobHandler, get}
use pgspawn.Worker.Run.{
  Tick, State, Ending, returned, crashed, Reply, delivered, lost_before, lost_after, answer, others,
  settle, attend, renew_once, fail_run, complete_run, fail_claimed_job, run_claimed_job, wake,
}

module _ {Value : Type 0} (exp : ℕ → ℕ) (lock_owner : String) (job : Job Value) where
  -- What the end of the handler makes of the row.
  abbrev pub verdict : Ending → Result (Unit {0}) String → Timestamp → Job Value → Job Value
  verdict (crashed message) result now j =
      after_failure exp now job.attempt job.max_attempts message j
  verdict returned (err message) now j =
      after_failure exp now job.attempt job.max_attempts message j
  verdict returned (ok _) now j = finish now j

  abbrev unclocked : Job Value → Job Value
  unclocked i = record i { locked_at = none; updated_at = pos 0 }

  verdict-unclocked :
      (ending : Ending) (result : Result (Unit {0}) String) (now : Timestamp) (i : Job Value)
      → touch now (verdict ending result now (unclocked i))
        ≡ touch now (verdict ending result now i)
  verdict-unclocked (crashed m) result now i = ground arith
  verdict-unclocked returned (err m) now i = ground arith
  verdict-unclocked returned (ok u) now i = refl

  -- Other clients keep the table valid and this job's row as it is.
  pub record Spares (t : Tick Value) : Type 0 where
    pub valid_kept : (d : Db Value) → IsValid d → IsValid (t.meanwhile d)
    pub row_kept : (d : Db Value) → find_id job.id (t.meanwhile d) ≡ find_id job.id d

  -- The row is locked by this run, and is the given one but for the lock's time.
  record Holds (j : Job Value) (d : Db Value) : Type 0 where
    valid : IsValid d
    row : Job Value
    found : find_id job.id d ≡ some row
    owned : owned_by lock_owner row ≡ true
    runs : is_running row.status ≡ true
    same : unclocked row ≡ unclocked j

  Holds-others :
      (t : Tick Value) (j : Job Value) (d : Db Value)
      → Spares t
      → Holds j d
      → Holds j (t.meanwhile d)
  Holds-others t j d spares h = record {
    valid = spares.valid_kept d h.valid;
    row = h.row;
    found = spares.row_kept d ∙ h.found;
    owned = h.owned;
    runs = h.runs;
    same = h.same;
  }

  if_same : {A : Type 0} {a : A} (b : A) (k : Uuid) → (if k == k then a else b) ≡ a
  if_same b k = ground arith

  Holds-renewed :
      (now : Timestamp) (j : Job Value) (d : Db Value)
      → Holds j d
      → ((renew_lock now job.id lock_owner d).0 ≡ true)
        × Holds j (renew_lock now job.id lock_owner d).1
  Holds-renewed now j d h = elim (renew_lock-UpdatesOne now job.id lock_owner d h.valid) [
    | inl (_, refused) ↦ absurd (ground (arith, refused, h.found, h.owned, h.runs))
    | inr (i, found, _, done, after) ↦
        let this : i ≡ h.row = ground (arith, found, h.found) in
        (
          done,
          record {
            valid = renew_lock-IsValid now job.id lock_owner d h.valid;
            row = touch now (relock now h.row);
            found =
                subst
                  (λ r.
                    find_id job.id (renew_lock now job.id lock_owner d).1
                    ≡ some (touch now (relock now r)))
                  this (after job.id ∙ if_same (find_id job.id d) job.id);
            owned = h.owned;
            runs = h.runs;
            same = h.same;
          },
        )
  ]

  heard_true :
      (j : Job Value) (r : Reply) (x : Bool × Db Value) (d : Db Value)
      → x.0 ≡ true
      → Holds j x.1
      → Holds j d
      → (((answer r x d).0 ≡ some true) ⊎ ((answer r x d).0 ≡ none)) × Holds j (answer r x d).1
  heard_true j delivered x d e hx hd = (inl (ap some e), hx)
  heard_true j lost_before x d e hx hd = (inr refl, hd)
  heard_true j lost_after x d e hx hd = (inr refl, hx)

  -- Every renewal keeps the lock, whether its answer arrives or not.
  Holds-renew_once :
      (t : Tick Value) (j : Job Value) (s : State Value)
      → Holds j s.db
      → ((renew_once exp lock_owner job t s).0 ≡ true)
        × Holds j (renew_once exp lock_owner job t s).1.db
  unfolding renew_once
  Holds-renew_once t j s h =
      let (kept, renewed) = Holds-renewed t.now j s.db h in
      let heard =
        heard_true j t.reply (renew_lock t.now job.id lock_owner s.db) s.db kept renewed h in
      elim heard.0 [
        | inl e ↦ (ground (arith, e), subst (Holds j) (ground (arith, e)) heard.1)
        | inr e ↦ (ground (arith, e), subst (Holds j) (ground (arith, e)) heard.1)
      ]

  updated_row :
      (now : Timestamp) (q : Job Value → Bool) (f : Job Value → Job Value) (d : Db Value)
      (r : Bool × Db Value) {i : Job Value}
      → UpdatesOne now job.id q f d r
      → find_id job.id d ≡ some i
      → q i ≡ true
      → find_id job.id r.1 ≡ some (touch now (f i))
  updated_row now q f d r (inl (_, refused)) found passed = absurd (ground (arith, refused, found))
  updated_row now q f d r {i} (inr (k, at_k, _, _, after)) found passed =
      let this : k ≡ i = ground (arith, at_k, found) in
      subst (λ x. find_id job.id r.1 ≡ some (touch now (f x))) this
        (after job.id ∙ if_same (find_id job.id d) job.id)

  -- At the end of the handler the row gets its verdict, if the answer arrives.
  settle-verdict :
      (ending : Ending) (result : Result (Unit {0}) String) (last : Tick Value) (j : Job Value)
      (s : State Value)
      → last.reply ≡ delivered
      → Holds j s.db
      → find_id job.id (settle exp lock_owner job ending result last s).db
        ≡ some (touch last.now (verdict ending result last.now j))
  unfolding settle fail_run complete_run fail_claimed_job
  settle-verdict ending result last j s heard h =
      subst (λ r. find_id job.id (settle exp lock_owner job ending result last s).db ≡ some r)
        (sym (verdict-unclocked ending result last.now h.row)
          ∙ (ap (λ i. touch last.now (verdict ending result last.now i)) h.same
              ∙ verdict-unclocked ending result last.now j))
        (settled ending result)
    where
      failed :
          (message : String)
          → find_id job.id (fail_run exp lock_owner job last message s).db
            ≡ some (
                touch last.now
                  (after_failure exp last.now job.attempt job.max_attempts message h.row))
      failed message = rw heard (
          updated_row last.now (owned_by lock_owner)
            (after_failure exp last.now job.attempt job.max_attempts message) s.db
            (fail_locked exp last.now job.id lock_owner job.attempt job.max_attempts message s.db)
            (fail_locked-UpdatesOne exp last.now job.id lock_owner job.attempt job.max_attempts
              message s.db h.valid)
            h.found h.owned)

      settled :
          (ending : Ending) (result : Result (Unit {0}) String)
          → find_id job.id (settle exp lock_owner job ending result last s).db
            ≡ some (touch last.now (verdict ending result last.now h.row))
      settled (crashed message) result = failed message
      settled returned (err message) = failed message
      settled returned (ok u) = rw heard (
          updated_row last.now (owned_by lock_owner) (finish last.now) s.db
            (complete_locked last.now job.id lock_owner s.db)
            (complete_locked-UpdatesOne last.now job.id lock_owner s.db h.valid) h.found h.owned)

  wake-db : (s : State Value) → (wake exp lock_owner job s).db ≡ s.db
  wake-db s = ground arith

  attend-verdict :
      (ending : Ending) (result : Result (Unit {0}) String) (ticks : List (Tick Value))
      (last : Tick Value) (j : Job Value) (s : State Value)
      → All Spares ticks
      → Spares last
      → last.reply ≡ delivered
      → Holds j s.db
      → find_id job.id (attend exp lock_owner job ending result ticks last s).db
        ≡ some (touch last.now (verdict ending result last.now j))
  unfolding attend
  attend-verdict ending result [] last j s spares spares_last heard h =
      ap (find_id job.id) (wake-db _)
      ∙ settle-verdict ending result last j (others last s) heard
          (Holds-others last j s.db spares_last h)
  attend-verdict ending result (t ∷ ts) last j s spares spares_last heard h =
      let held = Holds-renew_once t j (others t s) (Holds-others t j s.db spares.0 h) in
      rw held.0 (attend-verdict ending result ts last j _ spares.1 spares_last heard held.1)

  -- The run of a job that has a handler and holds its lock, while other clients keep the table valid and
  -- its row as it is: at whatever times and with whatever answers the lock is renewed, the row ends as
  -- the handler says, if the answer to the last statement arrives. It succeeds when the handler returns
  -- without error. After an error or a panic it is failed at the last attempt, and otherwise queued
  -- again.
  pub run_claimed_job-verdict :
      (handlers : Handlers Value) (ending : Ending) (ticks : List (Tick Value)) (last : Tick Value)
      (s : State Value) {h : JobHandler Value} {j : Job Value}
      → get handlers job.name ≡ some h
      → IsValid s.db
      → find_id job.id s.db ≡ some j
      → owned_by lock_owner j ≡ true
      → is_running j.status ≡ true
      → All Spares ticks
      → Spares last
      → last.reply ≡ delivered
      → find_id job.id (run_claimed_job exp lock_owner job handlers ending ticks last s).db
        ≡ some (touch last.now (verdict ending (h job) last.now j))
  unfolding run_claimed_job
  run_claimed_job-verdict handlers ending ticks last s {h} {j} has valid found owned runs spares
        spares_last heard =
      rw (has, run_claimed_job)
        (attend-verdict ending (h job) ticks last j _ spares spares_last heard (record {
          valid = valid;
          row = j;
          found = found;
          owned = owned;
          runs = runs;
          same = refl;
        }))
