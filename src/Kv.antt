-- ===== src/Kv.antt =====
-- kvraft/: the key-value server.
pub mod Command
pub mod Server
pub mod Clerk
pub mod Calls
pub mod Committed
mod Examples
