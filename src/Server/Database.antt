-- ===== src/Server/Database.antt =====
-- The database module of the server (server/src/database.rs): what it writes of an accepted action,
-- and how the blob transactions leave the outbox.
pub mod Tables
pub mod Aggregator
pub mod Session
pub mod Rows
pub mod Writing
pub mod Outbox
pub mod Dumping
pub mod Rules
pub mod Untouched
pub mod Enqueued
pub mod Deliveries
pub mod Flushing
pub mod Ordered
pub mod Refused
pub mod Blocked
pub mod Settled
pub mod Drained
pub mod Results
pub mod Updates
pub mod Statuses
pub mod Dumped
pub mod Forgotten
pub mod Written
