-- ===== src/Server.antt =====
-- The server of the order book (server/src): what its modules say to each other.
pub mod Requests
pub mod Assets
pub mod App
pub mod Database
pub mod Books
