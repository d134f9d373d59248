-- ===== src/Go.antt =====
-- What the source uses of Go and its standard library: outcomes of calls, maps, and texts.
pub mod Outcome
pub mod Map
pub mod Text
pub mod Float
