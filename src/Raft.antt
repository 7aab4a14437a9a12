-- ===== src/Raft.antt =====
-- raft/raft.go and raft/data/rpc_data.go.
pub mod Data
pub mod State
pub mod Persister
pub mod Log
pub mod Vote
pub mod Ticker
pub mod Loop
pub mod Stop
pub mod Append
pub mod Election
pub mod Leader
pub mod Exchange
pub mod Commit
pub mod Server
pub mod Cluster
pub mod Examples
