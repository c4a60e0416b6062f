-- ===== src/ControlPlane.antt =====
-- apps/control-plane/src: the server that turns events into tasks and hands them to workers.
pub mod Db
pub mod Identifiers
pub mod Audit
pub mod Tasks
pub mod Threads
pub mod Workers
pub mod Memory
pub mod Deletion
pub mod Channels
pub mod Pipeline
pub mod Routes
