-- ===== src/Worker/Summary.antt =====
-- src/worker.rs: `JobSummary` and the functions on `job_summaries`, a map from job names, held as an
-- association list. Counters are 64-bit.
use pgspawn.Prelude.{
  ℕ, ◌+◌, ◌-◌, ◌/◌, ◌%◌, ◌==◌, ltb, ◌||◌, Option, none, some, String, text_eq, List, [], ◌∷◌, map,
  min, Bool, if◌then◌else◌,
}

pub record JobSummary : Type 0 where
  pub started : ℕ
  pub succeeded : ℕ
  pub failed : ℕ
  pub retried : ℕ
  pub permanent_failed : ℕ
  pub abandoned : ℕ
  pub running : ℕ
  pub total_elapsed_ms : ℕ

-- `JobSummary::default()`
abbrev pub default_summary : JobSummary
default_summary = record {
  started = 0;
  succeeded = 0;
  failed = 0;
  retried = 0;
  permanent_failed = 0;
  abandoned = 0;
  running = 0;
  total_elapsed_ms = 0;
}

-- `+= 1` and `saturating_add` of u64.
abbrev pub incr : ℕ → ℕ
incr n = (n + 1) % 18_446_744_073_709_551_616

abbrev pub saturating_add : ℕ → ℕ → ℕ
saturating_add a b = min (a + b) 18_446_744_073_709_551_615

unfoldable pub average_duration_ms : JobSummary → Option ℕ
average_duration_ms s =
    let completed = (s.succeeded + s.failed + s.abandoned) % 18_446_744_073_709_551_616 in
    if completed == 0 then none else some (s.total_elapsed_ms / completed)

abbrev pub Summaries : Type 0
Summaries = List (String × JobSummary)

-- `summaries.entry(job_name).or_default()`, changed by `f`.
unfoldable pub update_entry : String → (JobSummary → JobSummary) → Summaries → Summaries
update_entry job_name f [] = (job_name, f default_summary) ∷ []
update_entry job_name f ((name, s) ∷ rest) =
    let changed = update_entry job_name f rest in
    if text_eq name job_name then (name, f s) ∷ rest else (name, s) ∷ changed

-- The summary under a name, the default one if there is none.
unfoldable pub summary_of : String → Summaries → JobSummary
summary_of job_name [] = default_summary
summary_of job_name ((name, s) ∷ rest) =
    let found = summary_of job_name rest in if text_eq name job_name then s else found

abbrev pub start_one : JobSummary → JobSummary
start_one s = record s { started = incr s.started; running = incr s.running }

abbrev pub end_one : ℕ → JobSummary → JobSummary
end_one elapsed_ms s = record s {
  running = s.running - 1;
  total_elapsed_ms = saturating_add s.total_elapsed_ms elapsed_ms;
}

abbrev pub succeed_one : ℕ → JobSummary → JobSummary
succeed_one elapsed_ms s = end_one elapsed_ms (record s { succeeded = incr s.succeeded })

abbrev pub fail_one : ℕ → Bool → JobSummary → JobSummary
fail_one elapsed_ms permanent s = end_one elapsed_ms (record s {
  failed = incr s.failed;
  permanent_failed = if permanent then incr s.permanent_failed else s.permanent_failed;
  retried = if permanent then s.retried else incr s.retried;
})

abbrev pub abandon_one : ℕ → JobSummary → JobSummary
abandon_one elapsed_ms s = end_one elapsed_ms (record s { abandoned = incr s.abandoned })

unfoldable pub record_job_started : String → Summaries → Summaries
record_job_started job_name = update_entry job_name start_one

unfoldable pub record_job_succeeded : String → (elapsed_ms : ℕ) → Summaries → Summaries
record_job_succeeded job_name elapsed_ms = update_entry job_name (succeed_one elapsed_ms)

unfoldable pub record_job_failed :
    String → (elapsed_ms : ℕ) → (permanent : Bool) → Summaries → Summaries
record_job_failed job_name elapsed_ms permanent =
    update_entry job_name (fail_one elapsed_ms permanent)

unfoldable pub record_job_abandoned : String → (elapsed_ms : ℕ) → Summaries → Summaries
record_job_abandoned job_name elapsed_ms = update_entry job_name (abandon_one elapsed_ms)

-- The body of the loop: what stays of an entry.
abbrev pub carried : JobSummary → JobSummary
carried s =
    if ltb 0 s.started || ltb 0 s.running
    then record default_summary { running = s.running }
    else default_summary

abbrev pub is_reported : JobSummary → Bool
is_reported s = ltb 0 s.started || ltb 0 s.running

-- The snapshot, and the map as it is left.
unfoldable pub drain_job_summaries : Summaries → Summaries × Summaries
drain_job_summaries [] = ([], [])
drain_job_summaries ((name, s) ∷ rest) =
    let (snapshot, left) = drain_job_summaries rest in
    (if is_reported s then (name, s) ∷ snapshot else snapshot, (name, carried s) ∷ left)

-- `emit_job_summaries`: what a report says of each name, and the map as it is left.
abbrev pub report : String × JobSummary → String × (JobSummary × Option ℕ)
report (job, summary) = (job, (summary, average_duration_ms summary))

unfoldable pub emit_job_summaries : Summaries → List (String × (JobSummary × Option ℕ)) × Summaries
unfolding drain_job_summaries average_duration_ms
emit_job_summaries job_summaries =
    let (summaries, left) = drain_job_summaries job_summaries in (map report summaries, left)
