-- ===== src/Sqlite/Accounts.antt =====
-- src/trading/persistence/account_journal/sqlite.py: `SQLiteAccountJournal`.
pub mod Rows
pub mod Replay
pub mod Answers
use Prim.Native.String.{String}
use claude_trade_teams.Base.{ℕ, ◌==◌, Bool, not, ◌&&◌, Option, none, some, List, ◌>>=◌}
use claude_trade_teams.Base.Decimal.{Decimal}
use claude_trade_teams.Domain.{Symbol, Time, Position, Balance}
use claude_trade_teams.Values.{position_side_value, position_side_of}
use claude_trade_teams.Sqlite.Iso.{IsoText, isoformat, fromisoformat, iso_ltb}
use claude_trade_teams.Sqlite.Table.{
  Table, empty_table, insert_row, where_entry, entries, order_by, last_row, latest_rows, decode_all,
  decode_row,
}
use claude_trade_teams.Sqlite.Connection
use claude_trade_teams.Sqlite.Connection.{Store, query, execute}

-- the table `position_snapshots`
pub record PositionRow : Type 0 where
  pub symbol : Symbol
  pub side : String
  pub quantity : Decimal
  pub entry_price : Decimal
  pub mark_price : Decimal
  pub unrealized_pnl : Decimal
  pub realized_pnl : Decimal
  pub leverage : Decimal
  pub liquidation_price : Option Decimal
  pub updated_at : IsoText

-- the table `balance_snapshots`
pub record BalanceRow : Type 0 where
  pub currency : ℕ
  pub total : Decimal
  pub available : Decimal
  pub margin_used : Decimal
  pub updated_at : IsoText

pub record Database : Type 0 where
  pub position_snapshots : Table PositionRow
  pub balance_snapshots : Table BalanceRow

abbrev pub empty_database : Database
empty_database = record { position_snapshots = empty_table; balance_snapshots = empty_table }

abbrev pub AccountStore : Type 0
AccountStore = Store Database

-- `__init__`, by whether the path is `:memory:`
abbrev pub new : Bool → AccountStore
new in_memory = Connection.new in_memory empty_database

abbrev pub start : AccountStore → AccountStore
start = Connection.start empty_database

abbrev pub stop : AccountStore → AccountStore
stop = Connection.stop

-- the values of the `INSERT` in `write_position_snapshot`
unfoldable pub position_to_row : Position → PositionRow
position_to_row position = record {
  symbol = position.symbol;
  side = position_side_value position.side;
  quantity = position.quantity;
  entry_price = position.entry_price;
  mark_price = position.mark_price;
  unrealized_pnl = position.unrealized_pnl;
  realized_pnl = position.realized_pnl;
  leverage = position.leverage;
  liquidation_price = position.liquidation_price;
  updated_at = isoformat position.updated_at;
}

-- the values of the `INSERT` in `write_balance_snapshot`
unfoldable pub balance_to_row : Balance → BalanceRow
balance_to_row balance = record {
  currency = balance.currency;
  total = balance.total;
  available = balance.available;
  margin_used = balance.margin_used;
  updated_at = isoformat balance.updated_at;
}

-- `_row_to_position`
unfoldable pub row_to_position : PositionRow → Option Position
row_to_position row = do
  side ← position_side_of row.side
  updated_at ← fromisoformat row.updated_at
  some (record {
    symbol = row.symbol;
    side = side;
    quantity = row.quantity;
    entry_price = row.entry_price;
    mark_price = row.mark_price;
    unrealized_pnl = row.unrealized_pnl;
    realized_pnl = row.realized_pnl;
    leverage = row.leverage;
    liquidation_price = row.liquidation_price;
    updated_at = updated_at;
  })

-- `_row_to_balance`
unfoldable pub row_to_balance : BalanceRow → Option Balance
row_to_balance row = do
  updated_at ← fromisoformat row.updated_at
  some (record {
    currency = row.currency;
    total = row.total;
    available = row.available;
    margin_used = row.margin_used;
    updated_at = updated_at;
  })

-- `write_position_snapshot`
unfoldable pub write_position_snapshot : Position → AccountStore → Option AccountStore
write_position_snapshot position = execute (λ d. record d {
  position_snapshots = insert_row (position_to_row position) d.position_snapshots;
})

-- `write_balance_snapshot`
unfoldable pub write_balance_snapshot : Balance → AccountStore → Option AccountStore
write_balance_snapshot balance =
    execute (λ d. record d {
      balance_snapshots = insert_row (balance_to_row balance) d.balance_snapshots;
    })

-- the order of the snapshots of positions
abbrev pub position_before : PositionRow → PositionRow → Bool
position_before a b = iso_ltb a.updated_at b.updated_at

-- `read_latest_position`
unfoldable pub read_latest_position : Symbol → AccountStore → Option (Option Position)
read_latest_position symbol = query (λ d. decode_row row_to_position (
    last_row position_before (where_entry (λ row. row.symbol == symbol) d.position_snapshots.rows)))

-- `read_latest_balance`
unfoldable pub read_latest_balance : AccountStore → Option (Option Balance)
read_latest_balance = query (λ d.
    decode_row row_to_balance
      (last_row (λ a b. iso_ltb a.updated_at b.updated_at) d.balance_snapshots.rows))

-- `read_all_latest_positions`
unfoldable pub read_all_latest_positions : AccountStore → Option (List Position)
read_all_latest_positions = query (λ d.
    decode_all row_to_position
      (entries (latest_rows position_before (λ row. row.symbol) d.position_snapshots.rows)))

-- `read_position_history`
unfoldable pub read_position_history : Symbol → Time → AccountStore → Option (List Position)
read_position_history symbol since = query (λ d. decode_all row_to_position (
    entries (
      order_by position_before (
        where_entry (λ row. row.symbol == symbol && not (iso_ltb row.updated_at (isoformat since)))
          d.position_snapshots.rows))))
