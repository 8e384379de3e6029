-- ===== src/OrderManager.antt =====
-- contracts/orderbook/src/order_manager.rs: the resting orders of every pair, with the price
-- levels of both sides. The tables are `HashMap`s; a side of one pair is a `BTreeMap`, a list of
-- levels in increasing order of price. `Matching` and `Events` hold the operations.
pub mod Levels
pub mod Matching
pub mod Events
