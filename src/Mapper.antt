-- ===== src/Mapper.antt =====
-- api/mapper: one function for each type of message, from the message to an event.
pub mod Bank
pub mod Messages
pub mod Encoding
pub mod Staking
pub mod Distribution
pub mod Gov
pub mod Market
pub mod Msgauth
pub mod Oracle
pub mod Wasm
pub mod Single
pub mod Labels
