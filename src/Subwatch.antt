-- ===== src/Subwatch.antt =====
-- server/internal/subwatch: the subscription watch, which picks the server Xray runs on.
pub mod Actuality
pub mod Best
pub mod Choice
pub mod Order
pub mod Watch
pub mod Copies
pub mod Returns
pub mod Fast
