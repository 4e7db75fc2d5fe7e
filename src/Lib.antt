-- ===== src/Lib.antt =====
-- pgspawn is a job queue in PostgreSQL: applications enqueue jobs (src/queue.rs, src/job.rs), workers
-- claim and run them (src/worker.rs, src/registry.rs), and cron schedules enqueue jobs at their times
-- (src/schedule.rs). The tables and their indexes are in migrations/0001_init.sql. All coordination
-- between applications, operators and workers goes through the tables, so the development has two
-- halves: every SQL statement of src/queue.rs as a function on the tables, and the worker's control flow
-- over these statements.
--
-- The files and the code:
--
--   - Prelude, Prelude/Tests, Prelude/Lists, Prelude/Int: Boolean tests, results, lists and signed
--     integers that all parts share.
--   - Job, Job/Status, Job/KeyMode: src/job.rs. A Uuid is a number, a Timestamp the signed microseconds
--     since 1970, a duration a number of nanoseconds, a payload has an abstract type.
--   - Environment, Environment/Names: src/environment.rs.
--   - Table and its children: migrations/0001_init.sql. A table is the list of its rows, a statement a
--     function on the tables; `now` is the statement's now(), `clock` what the application reads.
--     Table/Valid has the invariant of the jobs table, Table/Update and Table/Checked that updates keep
--     it, Table/Lookup the lookup by id.
--   - Queue/Manage: Queue::cancel, retry, permanently_fail, complete, reschedule, and complete_locked,
--     renew_lock, fail_locked of the lock's owner. Queue/Insert: insert_job and the ON CONFLICT statement.
--     Queue/Batch: insert_job_batch. Queue/Claim: claim_next and next_runnable_in. Queue/Recover: the
--     workers table, release, recovery and pruning. Queue/Cron: try_enqueue_cron. Queue/Read: get, recent,
--     counts and workers. Each has child modules for what is proved of it. Queue/Steps: the statements of
--     all clients as one step relation; Queue/Life tells a job's status, attempts and holder under them;
--     Queue/Notify has the two notification triggers for each of them.
--   - Schedule and its children: src/schedule.rs. The Jiff library is the record Jiff, and Schedule/Laws
--     what is asked of it.
--   - Registry: src/registry.rs.
--   - Worker/Config, Worker/Build, Worker/Start, Worker/Selected, Worker/Summary, Worker/Run,
--     Worker/Loops: src/worker.rs, with what is proved of them in Worker/Outcome, Worker/Lost,
--     Worker/Tally, Worker/Alive, the children of Worker/Loops, and Worker/Reports. Worker/Rounds: the
--     heartbeat, recovery, cron and summary loops. Worker/Claims: run_claim_loop and
--     run_notify_listener_loop, with children for what is proved of them. Worker/Shutdown: the watch
--     channel and what a handler asks of it. Worker/Stop: run_until_shutdown from its checks to its
--     cleanup.
--   - Examples and its children: concrete tables, runs and a calendar on which the definitions run.
--
-- Concurrency. A statement is one step on the tables; READ COMMITTED shows where a claim reads one state
-- of the tables and updates another, so claim_next has the snapshot of its SELECT and the rows that
-- others lock as arguments. The run of a claimed job has as arguments what other clients do between its
-- own statements, when its renewals fall, and which of its statements lose their connection, before or
-- after they take effect. The claim loop and the listener of a worker are a system of moves, interleaved
-- in any order with the statements of all clients; a move of the loop is what it does between two
-- awaits. tokio's Notify is a bit that notify_waiters sets and a new `notified()` clears, as its
-- documentation says; a notification of PostgreSQL reaches a listener that is connected and is lost
-- otherwise, also when sqlx's recv() reconnects of itself. The clocks of the application and of the
-- database are one.
--
-- Bounds. The loops over day offsets make the 9 and 371 rounds of the source. There is no other fuel:
-- all recursion is on lists or numbers of the source. The attempt counter is a 32-bit integer whose
-- overflow is an error of the claim; the summaries' counters are 64-bit and wrap or saturate as in the
-- source; an interval of seconds wraps as an i64; durations become milliseconds with the cap of 2 ^ 63 -
-- 1, and intervals beyond PostgreSQL's range are errors. Years beyond Jiff's range are no part of the
-- model, nor is the overflow of a product of i64s for intervals that the cast makes negative and
-- instants before 1970.
--
-- Not modelled: the spawning, joining and abortion of tokio tasks, of which the model has only how they
-- end; what an aborted claim does on the server after its worker's release; log lines but for the cases
-- of log_lock_loss and the reports of emit_job_summaries; src/db.rs and src/lib.rs, which call the
-- migrator and re-export names; the tests.
pub mod Prelude
pub mod Job
pub mod Environment
pub mod Table
pub mod Queue
pub mod Schedule
pub mod Registry
pub mod Worker
pub mod Examples
