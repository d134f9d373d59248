-- ===== src/Client.antt =====
-- client/client.go: the worker's business logic, one module for each part of it.
pub mod Heights
pub mod Paging
pub mod Stream
pub mod Accounts
pub mod Ranges
pub mod Pipeline
pub mod Range
pub mod Transactions
pub mod Latest
pub mod Tasks
pub mod Streams
