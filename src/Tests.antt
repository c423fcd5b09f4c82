-- ===== src/Tests.antt =====
-- Runs of the model on concrete configurations, and each theorem at an input where its hypotheses
-- hold.
mod Sample
mod Addresses
mod Best
mod Failover
mod Clients
mod Walk
mod Operations
mod Restore
mod Versions
mod Merges
mod Monitor
mod Notifications
mod Pauses
mod Watch
mod Returns
