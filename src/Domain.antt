-- ===== src/Domain.antt =====
-- The value objects that the components exchange (src/trading/domain and runtime/events.py).
mod Orders
mod Markets
mod Accounts
mod Risks
mod Events
pub use Orders.*
pub use Markets.*
pub use Accounts.*
pub use Risks.*
pub use Events.*
