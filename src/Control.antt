-- ===== src/Control.antt =====
-- The controllers of controller/: what they keep beside the servers.
pub mod Metrics
pub mod Connection
pub mod Peers
pub mod Registry
pub mod Urls
pub mod Services
pub mod Calls
pub mod KvController
pub mod ClientController
pub mod Mesh
mod Examples
