-- ===== src/Queue.antt =====
-- src/queue.rs: the operations of `Queue`, one function for each statement, grouped as below.
pub mod Manage
pub mod Insert
pub mod Batch
pub mod Claim
pub mod Recover
pub mod Cron
pub mod Read
pub mod Steps
pub mod Life
pub mod Notify
