-- ===== src/Worker.antt =====
-- apps/worker/src: what the worker on a user's device keeps between and during its tasks.
pub mod State
pub mod Activity
pub mod Process
pub mod Daemon
