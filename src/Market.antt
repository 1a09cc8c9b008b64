-- ===== src/Market.antt =====
-- The live market data (src/trading/market_data/live.py): the books, and the source that keeps them.
pub mod Book
pub mod Ladder
pub mod Replay
pub mod Live
