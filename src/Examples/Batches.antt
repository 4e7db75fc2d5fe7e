-- ===== src/Examples/Batches.antt =====
-- The theorem on batches at the example table.
use pgspawn.Prelude.{◌++◌, ◌≡◌, refl, none, some, ok, String, List, [], ◌∷◌}
use pgspawn.Prelude.Int.{pos}
use pgspawn.Job.{Uuid, default_options, new_request, with_options}
use pgspawn.Job.KeyMode.{replace}
use pgspawn.Table.{Db, update_jobs, update_rows}
use pgspawn.Table.Lookup.{by_id}
use pgspawn.Queue.Insert.{upsert, on_conflict}
use pgspawn.Queue.Batch.{
  Entry, batch_row, duplicate_key, insert_modes, insert_rows, all_modes, insert_job_batch,
}
use pgspawn.Queue.Batch.Alone.{insert_job_batch-AsAlone, AsAlone, Matches}
use pgspawn.Examples.Jobs.{some_jobs, some_jobs-IsValid}

abbrev keyed : Entry String
keyed = record {
  request =
      with_options (new_request "send" "[]")
        (record default_options { job_key = some "welcome"; job_key_mode = replace });
  id = 11;
  clock = pos 1999;
}

abbrev plain : Entry String
plain = record { request = new_request "send" "[]"; id = 12; clock = pos 1999 }

abbrev both : List (Entry String)
both = keyed ∷ plain ∷ []

-- The plain entry is in the first statement.
abbrev with_plain : Db String
with_plain = record some_jobs { jobs = some_jobs.jobs ++ batch_row (pos 2000) plain ∷ [] }

abbrev with_both : Db String
with_both =
    (update_jobs (pos 2000) (by_id 1) (on_conflict replace (batch_row (pos 2000) keyed))
      with_plain).0

no_repeat : duplicate_key [] both ≡ none
unfolding duplicate_key
no_repeat = refl

all_inserted :
    insert_modes (pos 2000) all_modes both ([], some_jobs) ≡ ok (("welcome", 1) ∷ [], with_both)
unfolding insert_modes insert_rows upsert update_jobs update_rows
all_inserted = refl

insert_job_batch-AsAlone_example :
    (ids : List Uuid) × (insert_job_batch (pos 2000) both some_jobs ≡ ok (ids, with_both))
    × Matches (λ x id. AsAlone (pos 2000) some_jobs x id with_both) both ids
insert_job_batch-AsAlone_example =
    insert_job_batch-AsAlone (pos 2000) both some_jobs some_jobs-IsValid no_repeat all_inserted
