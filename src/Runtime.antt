-- ===== src/Runtime.antt =====
-- The runtime (src/trading/runtime and src/trading/alerts): the bus, the alert router and the
-- supervisor.
pub mod Supervisor
pub mod Bus
pub mod Main
