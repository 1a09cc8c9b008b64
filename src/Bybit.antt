-- ===== src/Bybit.antt =====
-- Bybit's wire format, order vocabulary and REST calls (src/trading/bybit, src/trading/venues/bybit).
pub mod Wire
pub mod Adapters
pub mod Tables
pub mod Rest
