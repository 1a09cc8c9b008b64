-- ===== src/Domain/Events.antt =====
-- src/trading/runtime/events.py and system_state.py: what travels on the event bus.
use claude_trade_teams.Base.{ℕ, List}
use claude_trade_teams.Domain.Orders.{Time, Order, Fill}
use claude_trade_teams.Domain.Risks.{Reason, TriggerAction}

pub data SystemState : Type 0 where
  booting reconciling running quarantine draining stopped : SystemState

pub record SystemStateChanged : Type 0 where
  pub old_state : SystemState
  pub new_state : SystemState
  pub reason : Reason
  pub timestamp : Time

pub record BreakerTripped : Type 0 where
  pub breaker_name : ℕ
  pub action : TriggerAction
  pub reason : Reason
  pub timestamp : Time

pub record Heartbeat : Type 0 where
  pub component : ℕ
  pub timestamp : Time

pub record ReconciliationCompleted : Type 0 where
  pub component : ℕ
  pub drift_count : ℕ
  pub timestamp : Time

-- `exception_type` is the name of a class, as its code points.
pub record ErrorOccurred : Type 0 where
  pub component : ℕ
  pub message : ℕ
  pub exception_type : List ℕ
  pub timestamp : Time

-- An object that is published, by its class.
pub data Event : Type 0 where
  state_changed : SystemStateChanged → Event
  breaker_tripped : BreakerTripped → Event
  heartbeat : Heartbeat → Event
  reconciliation_completed : ReconciliationCompleted → Event
  error_occurred : ErrorOccurred → Event

-- What a venue tells its subscribers, through `on_order_update` and `on_fill`.
pub data VenueEvent : Type 0 where
  order_update : Order → VenueEvent
  fill : Fill → VenueEvent
