-- ===== src/Job/KeyMode.antt =====
-- src/job.rs, `JobKeyMode`: what an enqueue does under a job key that an unfinished job holds. The
-- text form is the parameter that the INSERT statements compare with 'dedupe' and 'replace'.
use pgspawn.Prelude.{String}

pub data JobKeyMode : Type 0 where
  dedupe replace preserve_run_at : JobKeyMode

unfoldable pub as_str : JobKeyMode → String
as_str dedupe = "dedupe"
as_str replace = "replace"
as_str preserve_run_at = "preserve_run_at"
