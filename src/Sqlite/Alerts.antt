-- ===== src/Sqlite/Alerts.antt =====
-- src/trading/persistence/alert_log/sqlite.py: `SQLiteAlertLog`.
pub mod Replay
use Prim.Native.String.{String}
use text.Mathlib.Text.{◌==◌ as str_eq}
use claude_trade_teams.Base.{ℕ, ◌==◌, Bool, true, not, ◌&&◌, Option, none, some, List, ◌>>=◌}
use claude_trade_teams.Domain.{Time, Reason, Alert, AlertLevel}
use claude_trade_teams.Values.{level_value, level_of}
use claude_trade_teams.Sqlite.Iso.{IsoText, isoformat, fromisoformat, iso_ltb}
use claude_trade_teams.Sqlite.Table.{
  Table, empty_table, insert_row, where_entry, entries, order_by, decode_all,
}
use claude_trade_teams.Sqlite.Connection
use claude_trade_teams.Sqlite.Connection.{Store, query, execute}

-- the table `alerts`
pub record AlertRow : Type 0 where
  pub level : String
  pub component : ℕ
  pub message : Reason
  pub correlation_key : Option ℕ
  pub timestamp : IsoText

abbrev pub AlertStore : Type 0
AlertStore = Store (Table AlertRow)

-- `__init__`, by whether the path is `:memory:`
abbrev pub new : Bool → AlertStore
new in_memory = Connection.new in_memory empty_table

abbrev pub start : AlertStore → AlertStore
start = Connection.start empty_table

abbrev pub stop : AlertStore → AlertStore
stop = Connection.stop

-- the values of the `INSERT` in `write`
unfoldable pub alert_to_row : Alert → AlertRow
alert_to_row alert = record {
  level = level_value alert.level;
  component = alert.component;
  message = alert.message;
  correlation_key = alert.correlation_key;
  timestamp = isoformat alert.timestamp;
}

-- `_row_to_alert`
unfoldable pub row_to_alert : AlertRow → Option Alert
row_to_alert row = do
  level ← level_of row.level
  timestamp ← fromisoformat row.timestamp
  some (record {
    level = level;
    component = row.component;
    message = row.message;
    timestamp = timestamp;
    correlation_key = row.correlation_key;
  })

-- `write`
unfoldable pub write : Alert → AlertStore → Option AlertStore
write alert = execute (insert_row (alert_to_row alert))

-- ` AND level = ?` and ` AND component = ?`, each where it is asked for
abbrev pub level_clause : Option AlertLevel → AlertRow → Bool
level_clause none row = true
level_clause (some level) row = str_eq row.level (level_value level)

abbrev pub component_clause : Option ℕ → AlertRow → Bool
component_clause none row = true
component_clause (some component) row = row.component == component

-- `read_since`
unfoldable pub read_since : Time → Option AlertLevel → Option ℕ → AlertStore → Option (List Alert)
read_since since level component = query (λ t. decode_all row_to_alert (
    entries (
      order_by (λ a b. iso_ltb a.timestamp b.timestamp)
        (where_entry
          (λ row.
            (not (iso_ltb row.timestamp (isoformat since)) && level_clause level row)
            && component_clause component row)
          t.rows))))
