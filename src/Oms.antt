-- ===== src/Oms.antt =====
-- src/trading/oms/default.py: the order manager, a cache of orders over a venue, with its journal.
pub mod Cache
pub mod Submit
pub mod Restart
pub mod Mirror
pub mod Emergency
