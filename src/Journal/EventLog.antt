-- ===== src/Journal/EventLog.antt =====
-- src/trading/persistence/event_log/in_memory.py and alert_log/in_memory.py.
use claude_trade_teams.Base.{
  ℕ, ◌==◌, leb, Bool, true, false, ◌&&◌, Option, none, some, List, [], ◌∷◌, ◌++◌, keep,
}
use claude_trade_teams.Domain.{Time, Event, Alert, AlertLevel}

-- The class of an event, which `isinstance` asks for.
pub data EventType : Type 0 where
  state_changed breaker_tripped heartbeat reconciliation_completed error_occurred : EventType

-- `isinstance(event, event_type)`
abbrev pub is_instance : Event → EventType → Bool
is_instance (Event.state_changed _) EventType.state_changed = true
is_instance (Event.breaker_tripped _) EventType.breaker_tripped = true
is_instance (Event.heartbeat _) EventType.heartbeat = true
is_instance (Event.reconciliation_completed _) EventType.reconciliation_completed = true
is_instance (Event.error_occurred _) EventType.error_occurred = true
is_instance _ _ = false

-- `event.timestamp`, which every class of event has
abbrev pub timestamp : Event → Time
timestamp (Event.state_changed e) = e.timestamp
timestamp (Event.breaker_tripped e) = e.timestamp
timestamp (Event.heartbeat e) = e.timestamp
timestamp (Event.reconciliation_completed e) = e.timestamp
timestamp (Event.error_occurred e) = e.timestamp

-- `InMemoryEventLog.write`
abbrev pub write : Event → List Event → List Event
write event events = events ++ event ∷ []

-- `InMemoryEventLog.read_since`
unfoldable pub read_since : EventType → Time → List Event → List Event
read_since event_type since events =
    keep (λ e. is_instance e event_type && leb since (timestamp e)) events

abbrev pub same_level : AlertLevel → AlertLevel → Bool
same_level AlertLevel.info AlertLevel.info = true
same_level AlertLevel.warn AlertLevel.warn = true
same_level AlertLevel.alert AlertLevel.alert = true
same_level AlertLevel.critical AlertLevel.critical = true
same_level _ _ = false

abbrev for_level : Option AlertLevel → List Alert → List Alert
for_level none alerts = alerts
for_level (some level) alerts = keep (λ a. same_level a.level level) alerts

abbrev for_component : Option ℕ → List Alert → List Alert
for_component none alerts = alerts
for_component (some component) alerts = keep (λ a. a.component == component) alerts

-- `InMemoryAlertLog.write`
abbrev pub write_alert : Alert → List Alert → List Alert
write_alert alert alerts = alerts ++ alert ∷ []

-- `InMemoryAlertLog.read_since`
unfoldable pub read_alerts_since : Time → Option AlertLevel → Option ℕ → List Alert → List Alert
read_alerts_since since level component alerts =
    for_component component (for_level level (keep (λ a. leb since a.timestamp) alerts))
