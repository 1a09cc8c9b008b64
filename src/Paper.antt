-- ===== src/Paper.antt =====
-- The paper venue (src/trading/venues/paper.py): simulated fills on live market data.
pub mod Netting
pub mod Valuation
pub mod Venue
pub mod Invariant
pub mod Account
pub mod PostOnly
