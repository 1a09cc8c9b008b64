-- ===== src/Journal.antt =====
-- The journals and logs (src/trading/persistence).
pub mod OrderLog
pub mod AccountLog
pub mod EventLog
pub mod Restore
