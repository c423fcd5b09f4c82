-- ===== src/Monitor.antt =====
-- server/internal/monitor: what the checks of the servers say of each of them.
pub mod Settings
pub mod Entries
pub mod State
pub mod Results
pub mod Dispatch
pub mod Sets
pub mod Evidence
