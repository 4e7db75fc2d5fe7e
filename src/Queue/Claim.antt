-- ===== src/Queue/Claim.antt =====
-- src/queue.rs: `claim_next` and `next_runnable_in`. A claim reads its candidates in the statement's
-- snapshot, which other transactions may have overtaken: `snapshot` is the table as the SELECT sees it,
-- `db` as the UPDATE finds it, and `locked` says which rows other transactions hold locks on (FOR UPDATE
-- SKIP LOCKED). A row that changed since the snapshot is checked again in its current version, with the
-- other rows still read in the snapshot, as PostgreSQL does under READ COMMITTED.
pub mod Valid
pub mod Effect
pub mod Order
pub mod First
pub mod Wait
use pgspawn.Prelude.{
  ℕ, suc, ◌+◌, ◌*◌, ◌/◌, ◌==◌, leb, Bool, true, false, not, ◌&&◌, ◌||◌, Option, none, some, is_some,
  String, text_eq, same_text, if◌then◌else◌, Result, ok, err, ◌>>=◌, List, [], ◌∷◌, any_by, find_by,
  filter_by,
}
use pgspawn.Prelude.Int.{ℤ, pos, negsuc, ltb_ℤ, leb_ℤ, ◌-ℤ◌}
use pgspawn.Job.{Uuid, Timestamp, StdDuration, Job, SqlError, unique_violation, out_of_range}
use pgspawn.Job.Status.{running}
use pgspawn.Table.{Db, is_queued, is_running, touch, update_checked}

-- `is_unique_violation`: SQLSTATE 23505 under the given constraint.
abbrev pub is_unique_violation : SqlError → String → Bool
is_unique_violation (unique_violation name) constraint = text_eq name constraint
is_unique_violation _ constraint = false

module _ {Value : Type 0} where
  -- `name = ANY(names)`
  abbrev pub named_in : List String → Job Value → Bool
  named_in names j = any_by (λ n. text_eq j.name n) names

  -- `queue_name IS NULL OR NOT EXISTS (… running_jobs …)`
  abbrev pub queue_free : List (Job Value) → Job Value → Bool
  queue_free rows j =
      not (is_some j.queue_name)
      || not (any_by (λ r. is_running r.status && same_text r.queue_name j.queue_name) rows)

  -- The candidate's WHERE clause.
  unfoldable pub can_claim : List String → Timestamp → List (Job Value) → Job Value → Bool
  can_claim names now rows j =
      is_queued j.status && leb_ℤ j.run_at now && named_in names j && queue_free rows j

  -- `ORDER BY priority ASC, run_at ASC, created_at ASC`
  unfoldable pub before : Job Value → Job Value → Bool
  before a b =
      if ltb_ℤ a.priority b.priority
      then true
      else if ltb_ℤ b.priority a.priority
      then false
      else if ltb_ℤ a.run_at b.run_at
      then true
      else if ltb_ℤ b.run_at a.run_at
      then false
      else ltb_ℤ a.created_at b.created_at

  unfoldable pub place : Job Value → List (Job Value) → List (Job Value)
  place j [] = j ∷ []
  place j (k ∷ ks) = if before k j then k ∷ place j ks else j ∷ k ∷ ks

  unfoldable pub in_order : List (Job Value) → List (Job Value)
  unfolding place before
  in_order [] = []
  in_order (j ∷ js) = place j (in_order js)

  -- LIMIT 1 FOR UPDATE SKIP LOCKED: the first candidate that is not locked, is still there, and passes
  -- the clause in its current version.
  unfoldable pub first_free :
      (Job Value → Bool)
      → (locked : Uuid → Bool) → (current : List (Job Value)) → List (Job Value)
      → Option (Job Value)
  first_free still locked current [] = none
  first_free still locked current (c ∷ cs) =
      let rest = first_free still locked current cs in
      if locked c.id then rest else elim (find_by (λ r. r.id == c.id) current) [
        | none ↦ rest
        | some j ↦ if still j then some j else rest
      ]

  unfoldable pub candidate :
      List String → Timestamp → (Uuid → Bool) → (snapshot db : Db Value) → Option (Job Value)
  unfolding in_order can_claim first_free
  candidate names now locked snapshot db =
      first_free (can_claim names now snapshot.jobs) locked db.jobs
        (in_order (filter_by (can_claim names now snapshot.jobs) snapshot.jobs))

  -- SET of the claim.
  abbrev pub start : Timestamp → String → Job Value → Job Value
  start now lock_owner j = record j {
    status = running;
    attempt = suc j.attempt;
    locked_by = some lock_owner;
    locked_at = some now;
    started_at = some now;
    finished_at = none;
    error = none;
  }

  -- The UPDATE of the candidate. `attempt + 1` overflows an integer column at 2 ^ 31 - 1.
  unfoldable pub claim_row :
      Timestamp → String → Db Value → Job Value → Result (Option (Job Value) × Db Value) SqlError
  claim_row now lock_owner db j = if leb 2147483647 j.attempt then err out_of_range else do
    updated ← update_checked now (λ r. r.id == j.id) (start now lock_owner) db
    ok (some (touch now (start now lock_owner j)), updated.0)

  -- `match result`: another claim took the queue first.
  abbrev pub lost_race :
      Db Value
      → Result (Option (Job Value) × Db Value) SqlError
      → Result (Option (Job Value) × Db Value) SqlError
  lost_race db (ok r) = ok r
  lost_race db (err e) =
      if is_unique_violation e "jobs_queue_running_idx" then ok (none, db) else err e

  unfoldable pub claim_next :
      (now : Timestamp) (locked : Uuid → Bool) (snapshot : Db Value) (lock_owner : String)
      (names : List String) (db : Db Value)
      → Result (Option (Job Value) × Db Value) SqlError
  unfolding candidate claim_row
  claim_next now locked snapshot lock_owner names db =
      elim (candidate names now locked snapshot db) [
        | none ↦ ok (none, db)
        | some j ↦ lost_race db (claim_row now lock_owner db j)
      ]

  -- MIN(run_at)
  unfoldable pub min_run_at : List (Job Value) → Option Timestamp
  min_run_at [] = none
  min_run_at (j ∷ js) = elim (min_run_at js) [
    | none ↦ some j.run_at
    | some t ↦ some (if ltb_ℤ t j.run_at then t else j.run_at)
  ]

-- `GREATEST(0, CEIL(EXTRACT(EPOCH FROM d) * 1000))`, of an interval in microseconds.
abbrev pub ceil_millis : ℤ → ℕ
ceil_millis (pos n) = (n + 999) / 1000
ceil_millis (negsuc n) = 0

-- `StdDuration::from_millis`
abbrev pub from_millis : ℕ → StdDuration
from_millis n = n * 1_000_000

module _ {Value : Type 0} where
  unfoldable pub next_runnable_in : Timestamp → List String → Db Value → Option StdDuration
  unfolding min_run_at
  next_runnable_in now names db =
      elim (min_run_at
        (filter_by (λ j. is_queued j.status && named_in names j && queue_free db.jobs j) db.jobs)) [
          | none ↦ none
          | some t ↦ some (from_millis (ceil_millis (t -ℤ now)))
        ]
