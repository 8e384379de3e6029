-- ===== src/Tests.antt =====
-- Runs of the model on small books and states, and the theorems applied to them.
mod Fixtures
mod Matching
mod Ledger
mod State
mod Contract
mod Collection
mod Bridge
mod Claims
mod Server
mod Database
mod Books
