-- ===== src/Risk.antt =====
-- The risk gate (src/trading/risk): circuit breakers and the manager that evaluates them.
pub mod Loop
pub mod Limits
pub mod Drawdown
pub mod Errors
pub mod Cooldown
pub mod Silence
pub mod Breaker
pub mod Manager
