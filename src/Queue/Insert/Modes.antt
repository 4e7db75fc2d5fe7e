-- ===== src/Queue/Insert/Modes.antt =====
-- src/queue.rs: the DO UPDATE of an INSERT with a job key, beside what src/job.rs says of the modes.
use pgspawn.Prelude.{◌≡◌, none, arith, if◌then◌else◌}
use pgspawn.Job.{Job}
use pgspawn.Job.KeyMode
use pgspawn.Job.KeyMode.{JobKeyMode, dedupe, replace, preserve_run_at}
use pgspawn.Table.{is_queued}
use pgspawn.Queue.Insert.{on_conflict, overwrites, restarts}

module _ {Value : Type 0} where
  -- What the documentation of JobKeyMode says of a job that has the key already: only a queued one is
  -- changed, and not by dedupe.
  abbrev pub merged : JobKeyMode → (excluded j : Job Value) → Job Value
  merged mode excluded j =
      if is_queued j.status
      then elim mode [
        | dedupe ↦ j
        | replace ↦ record j {
          name = excluded.name;
          payload = excluded.payload;
          queue_name = excluded.queue_name;
          priority = excluded.priority;
          run_at = excluded.run_at;
          max_attempts = excluded.max_attempts;
          error = none;
        }
        | preserve_run_at ↦ record j {
          name = excluded.name;
          payload = excluded.payload;
          queue_name = excluded.queue_name;
          priority = excluded.priority;
          max_attempts = excluded.max_attempts;
          error = none;
        }
      ]
      else j

  -- The change of a row with the key, for every mode and every status: a running job is left as it is,
  -- and so is any job with dedupe. Of a queued job replace and preserve_run_at take name, payload,
  -- queue, priority and attempt limit from the request and clear the error; replace takes the time too.
  pub on_conflict-merged :
      (mode : JobKeyMode) (excluded j : Job Value)
      → on_conflict mode excluded j ≡ merged mode excluded j
  unfolding on_conflict overwrites restarts KeyMode.as_str
  on_conflict-merged dedupe excluded j = ground arith
  on_conflict-merged replace excluded j = ground arith
  on_conflict-merged preserve_run_at excluded j = ground arith
