-- ===== src/Worker.antt =====
-- cmd/: the logger that the worker's parts share, and the worker's start-up.
pub mod Logger
pub mod Command
pub mod Servers
