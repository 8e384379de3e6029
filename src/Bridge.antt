-- ===== src/Bridge.antt =====
-- The bridge to Ethereum (server/src/bridge.rs, server/src/bridge and
-- server/src/services/bridge_service.rs), by its parts.
pub mod World
pub mod Service
pub mod Logs
pub mod Deposits
pub mod Parsers
pub mod Signatures
pub mod Claims
pub mod Withdrawals
pub mod Ledger
pub mod Delivery
pub mod Replay
pub mod CatchUp
pub mod Books
pub mod Rules
pub mod Outcomes
pub mod Retry
pub mod Claiming
pub mod Settled
pub mod Fetching
pub mod Payouts
pub mod Amounts
