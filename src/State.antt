-- ===== src/State.antt =====
-- `ExecuteState` of contracts/orderbook/src/model.rs: the assets, users and balances of the
-- contract, and the operations that produce events and apply them.
pub mod Users
pub mod Assets
pub mod Accounts
pub mod Apply
pub mod Queues
pub mod Settlement
pub mod Owners
pub mod Escape
