-- ===== src/Lib.antt =====
-- Hyliquid: the orderbook contract (contracts/orderbook), an order book exchange that runs as a
-- provable program, and the server around it (server). A transaction carries an action of a user;
-- the contract checks it, matches orders, turns the outcome into events and applies the events to
-- its state. The server keeps the same state in memory, answers the requests of users, applies
-- their events and writes them to its database together with the transaction that the contract
-- will be given. The bridge of the server turns transfers on Ethereum into deposits and
-- withdrawals into transfers.
--
-- Parts, and the files that model them:
-- - Prelude and its children: the shared names, maps as association lists, bytes, the results of
--   fallible functions (a value, an `Err`, or a panic), and the integers of `i128`.
-- - Types, Errors, Actions: the data of contracts/orderbook/src/model.rs and transaction.rs. The
--   error texts are the constructors of `Error`.
-- - Externals: the functions of other crates, as one record that the definitions take: SHA3-256,
--   the ECDSA calls, the borsh and SDK decoders, and the order of a `HashMap`. No law is assumed
--   of them, but for the theorem that says otherwise.
-- - OrderManager: contracts/orderbook/src/order_manager.rs. Levels has the price levels,
--   Matching has `execute_order_dry_run`, Events has `apply_event` and `clean`. The children of
--   Matching give the loops an index-free description (Flat), say whom an order meets (Resting),
--   what is traded (Fills), what is left (Remainder, Closing), in which order (Priority) and when
--   the loops succeed (Progress, Known), and put these together (Execution). Events/Queued is
--   about the ids in the queues.
-- - State: `ExecuteState` of contracts/orderbook/src/model.rs. Users, Assets, Accounts (session
--   keys, deposits, withdrawals, cancellations), Apply (events on the state), Settlement
--   (`execute_order`: what fills cost and bring; its children reckon the sums of the balances and
--   the costs, and take the touched accounts in another order), Owners (`verify_orders_owners`),
--   Escape. Queues
--   and Assets/Scales hold invariants of the state.
-- - Transaction: contracts/orderbook/src/transaction.rs and utils.rs, the dispatch of the
--   permissioned actions and the signature check.
-- - Contract: contracts/orderbook/src/zk/contract.rs, `execute`. Witness has the witnessed state
--   (zk/mod.rs, zk/order_merkle.rs) and its conversions, Guards what an accepted transaction went
--   through, Restored the way of the order manager through the witness and back. Collection lists
--   what a proof needs of the state (zk/commitment_metadata.rs), Collected
--   and Covered are about it.
-- - Server: server/src. Requests has the messages between the bridge and the order book module,
--   Assets the tables of server/src/services/asset_service.rs. App is server/src/app.rs: the
--   state, the answers, and what an accepted action writes; App/Handlers has its routes and
--   App/Bus the requests of the bridge. App/Commits, App/SignedCommits and App/Submissions invert
--   an accepted request, App/Steps makes steps of them, App/SameOrder and App/Agreement compare the
--   server with the contract, App/Journal the messages with the state in memory, App/Wholes,
--   App/Runs and App/Resent are about single requests.
--   Database is server/src/database.rs: Tables has the tables (server/src/migrations), Session its
--   calls and transactions, Rows the statements, Writing `write_events_internal` and Outbox
--   `flush_blob_queue`; Aggregator and Dumping are the changes that are gathered between two ticks
--   and their writing. Rules says how a run goes on, Untouched and Enqueued what the writing leaves
--   as it is and what it puts into the outbox, Deliveries and Flushing what a flush keeps; Ordered,
--   Blocked, Refused, Settled, Drained and Written are about what reaches the tables and the node.
--   Results says what holds of a run that ends with a result, Updates, Statuses, Dumped and
--   Forgotten what a dump does. Books is server/src/services/book_service.rs, `get_order_manager`,
--   from the rows of its query on, and Books/Queues is about its queues.
-- - Bridge: server/src/bridge.rs. World has what the bridge reads and writes, Service the tables
--   (server/src/services/bridge_service.rs), Logs the logs of Ethereum (server/src/bridge/eth.rs and
--   utils.rs), Deposits, Claims and Withdrawals the handlers, Signatures and Parsers the signed
--   request of a claim and the decoders of other crates. Ledger is the abstract contract of the
--   bridge; Rules says how a run goes on after a part of it, Delivery, Replay, Outcomes and Retry
--   are about one transfer, Books about the tables, CatchUp and Fetching about the blocks that were
--   missed, Claiming and Settled about claims, Amounts about numbers and Payouts about
--   withdrawals.
-- - Tests: small books, states and worlds on which the theorems are applied.
--
-- How the model reads the source:
-- - A `HashMap` is an association list without repeated keys; what iterates over one does so in
--   the order of the list, but for the touched accounts of `execute_order`, whose order shows in
--   the events: it is a parameter (`touched_order`). A query without ORDER BY is taken to return
--   the rows in the order of their insertion. A `BTreeMap` of price levels is a list in increasing
--   order of price. A set is a list without repetition. A `VecDeque` of ids is a list.
-- - A `u64` is a native number. A checked addition returns none past 2 ^ 64; the products of
--   price and quantity wrap around, as in a release build; the differences that `i128` holds are
--   integers, and `to_u64` is the conversion back with its range check.
-- - A method with `&mut self` returns the new state. A loop is a recursive function over the list
--   it goes through, and an early return or a break is a constructor of `Flow`. Three loops run on
--   fuel: the printing of a decimal number has 20 digits, enough for a `u64`, and the batches of
--   `fetch_transfers_with_topics` have two more than the blocks of the range, of which each round
--   takes at least one; `flush` has one more than the rows of the outbox, of which each round but
--   the last marks one.
-- - A hash of 32 bytes is one number, and so are an address and an amount of Ethereum.
-- - In the bridge each query, call of the Ethereum node and message on the bus may fail. `faults`
--   in `World` says of the coming calls, in order, which do; a call beyond the list does not.
--   A theorem about any world is therefore one about any schedule of failures.
-- - In the database module each query, statement and message to the node may fail in the same way.
--   A statement that meets a constraint fails too, and the tables of a transaction that fails are
--   those before it. The transactions of the workers are taken one at a time, and a sending that
--   fails has not reached the node.
-- - In the server a request ends with an answer, with a refusal that leaves the state as it was,
--   with a message that could not be sent, or in the middle of `apply_events`. For the last of
--   these the model has an outcome without a state. The requests are taken one at a time, which
--   the lock on the order book sees to. What the database holds of a user and the salt of a new
--   user are arguments of a request.
--
-- Not modelled: the sparse Merkle trees, proofs and commitments (contracts/orderbook/src/zk), which
-- rest on a crate outside the repository, what zk/commitment_metadata.rs makes of the collected
-- values with them, the debugging output of `diff`; of the server the start of the database module
-- and its queues to the workers, the queries of the user, book and asset services, the start of the
-- server (init.rs, setup.rs, conf.rs, main.rs), the prover, the metrics and the JSON views, and its
-- command line tools; the load test and the front end, which are clients.
pub mod Prelude
pub mod Types
pub mod Errors
pub mod Actions
pub mod Externals
pub mod OrderManager
pub mod State
pub mod Transaction
pub mod Contract
pub mod Server
pub mod Bridge
mod Tests
