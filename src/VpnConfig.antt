-- ===== src/VpnConfig.antt =====
-- server/internal/vpnconfig: the unified configuration and the operations on it.
pub mod Address
pub mod Config
pub mod Failover
pub mod Moves
pub mod Clients
pub mod Paused
pub mod Pending
pub mod Exits
pub mod Servers
pub mod Names
pub mod Pairs
pub mod Refresh
pub mod Store
pub mod Operations
