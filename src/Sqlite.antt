-- ===== src/Sqlite.antt =====
-- The journals and logs that are kept in SQLite (src/trading/persistence).
pub mod Iso
pub mod Table
pub mod Connection
pub mod Orders
pub mod Accounts
pub mod Alerts
pub mod Events
