-- ===== src/Examples.antt =====
-- Concrete tables and a calendar, on which the definitions run and the theorems apply.
pub mod Calendar
pub mod Jobs
pub mod Statements
pub mod Inserts
pub mod Slots
pub mod Texts
pub mod Runs
pub mod Sweeps
pub mod Reads
pub mod Batches
pub mod Loops
pub mod Spares
