-- ===== src/Sqlite/Events.antt =====
-- src/trading/persistence/event_log/sqlite.py: `SQLiteEventLog`. Every event has a time, so that the
-- test of `write` passes.
pub mod Replay
use claude_trade_teams.Base.{Bool, true, false, not, ◌&&◌, Option, none, some, List}
use claude_trade_teams.Domain.{Time, Event}
use claude_trade_teams.Journal.EventLog
use claude_trade_teams.Journal.EventLog.{EventType}
use claude_trade_teams.Serde.{Json}
use claude_trade_teams.Serde.Events.{class_of, encode_dataclass, decode_dataclass}
use claude_trade_teams.Sqlite.Iso.{IsoText, isoformat, iso_ltb}
use claude_trade_teams.Sqlite.Table.{
  Table, empty_table, insert_row, where_entry, entries, order_by, decode_all,
}
use claude_trade_teams.Sqlite.Connection
use claude_trade_teams.Sqlite.Connection.{Store, query, execute}

-- the table `events`; `event_type` is the name of a class
pub record EventRow : Type 0 where
  pub event_type : EventType
  pub payload : Json
  pub timestamp : IsoText

abbrev pub EventStore : Type 0
EventStore = Store (Table EventRow)

-- `__init__`, by whether the path is `:memory:`
abbrev pub new : Bool → EventStore
new in_memory = Connection.new in_memory empty_table

abbrev pub start : EventStore → EventStore
start = Connection.start empty_table

abbrev pub stop : EventStore → EventStore
stop = Connection.stop

-- the values of the `INSERT` in `write`
unfoldable pub event_to_row : Event → EventRow
event_to_row event = record {
  event_type = class_of event;
  payload = encode_dataclass event;
  timestamp = isoformat (EventLog.timestamp event);
}

-- `write`
unfoldable pub write : Event → EventStore → Option EventStore
write event = execute (insert_row (event_to_row event))

-- ` event_type = ?`
abbrev pub same_type : EventType → EventType → Bool
same_type EventType.state_changed EventType.state_changed = true
same_type EventType.breaker_tripped EventType.breaker_tripped = true
same_type EventType.heartbeat EventType.heartbeat = true
same_type EventType.reconciliation_completed EventType.reconciliation_completed = true
same_type EventType.error_occurred EventType.error_occurred = true
same_type _ _ = false

-- `read_since`
unfoldable pub read_since : EventType → Time → EventStore → Option (List Event)
read_since event_type since = query (λ t.
    decode_all (λ row. decode_dataclass event_type row.payload)
      (entries (
        order_by (λ a b. iso_ltb a.timestamp b.timestamp)
          (where_entry
            (λ row.
              same_type row.event_type event_type && not (iso_ltb row.timestamp (isoformat since)))
            t.rows))))
