-- ===== src/Notifications.antt =====
-- server/internal/notifications: the events of the watch and what each chat still has to be sent.
pub mod Events
pub mod State
pub mod Recipients
pub mod Saves
pub mod Pages
pub mod Operations
pub mod History
