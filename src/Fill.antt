-- ===== src/Fill.antt =====
-- The fill engines of the paper venue (src/trading/fill).
pub mod Immediate
pub mod Orderbook
pub mod Execution
pub mod Walk
pub mod Slippage
pub mod Engine
