-- ===== src/Worker.antt =====
-- src/worker.rs: the worker, in the parts of its file: configuration and start, job summaries, the run of a
-- claimed job, and the rounds of its loops.
pub mod Config
pub mod Build
pub mod Start
pub mod Selected
pub mod Summary
pub mod Run
pub mod Outcome
pub mod Tally
pub mod Lost
pub mod Loops
pub mod Shutdown
pub mod Claims
pub mod Stop
pub mod Alive
pub mod Rounds
pub mod Reports
