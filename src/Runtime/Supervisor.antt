-- ===== src/Runtime/Supervisor.antt =====
-- src/trading/runtime/supervisor/default.py: the owner of the system's state, its methods, and what
-- they guarantee whatever the components do.
pub mod Actions
pub mod Methods
pub mod Edges
pub mod Run
pub mod Routine
pub mod Overlap
pub mod Return
pub mod Triples
pub mod Reach
pub mod Quarantine
pub mod Shutdown
pub mod Stuck
pub mod Acknowledge
