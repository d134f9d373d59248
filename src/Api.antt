-- ===== src/Api.antt =====
-- api: the client of the chain's RPC and LCD, and the conversion of what they return.
pub mod Types
pub mod Dispatch
pub mod Events
pub mod Transactions
pub mod Search
pub mod Amounts
pub mod Blocks
pub mod Requests
pub mod Delegations
pub mod Rewards
pub mod Balances
