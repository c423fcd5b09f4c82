-- ===== src/Updater.antt =====
-- server/internal/updater: the self-update of the daemons.
pub mod Versions
