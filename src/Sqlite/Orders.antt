-- ===== src/Sqlite/Orders.antt =====
-- src/trading/persistence/order_journal/sqlite.py: `SQLiteOrderJournal`. A decimal is stored as its
-- text, which reads back as the same value, so that its column holds the value.
pub mod Rows
pub mod Replay
pub mod Answers
pub mod Restart
pub mod Wired
use Prim.Native.String.{String}
use text.Mathlib.Text.{◌==◌ as str_eq}
use claude_trade_teams.Base.{
  ℕ, ◌==◌, Bool, true, false, not, ◌&&◌, ◌||◌, if◌then◌else◌, Option, none, some, List, [], ◌∷◌,
  ◌>>=◌,
}
use claude_trade_teams.Base.Decimal.{Decimal}
use claude_trade_teams.Domain.{Symbol, OrderId, ClientOrderId, Time, Order, OrderStatus, Fill}
use claude_trade_teams.Values.{
  side_value, side_of, type_value, type_of, status_value, status_of, time_in_force_value,
  time_in_force_of,
}
use claude_trade_teams.Sqlite.Iso.{IsoText, isoformat, fromisoformat, iso_ltb}
use claude_trade_teams.Sqlite.Table.{
  Table, empty_table, insert_row, where_entry, entries, order_by, latest_rows, decode_all,
}
use claude_trade_teams.Sqlite.Connection
use claude_trade_teams.Sqlite.Connection.{Store, query, execute}

-- the table `order_events`
pub record OrderRow : Type 0 where
  pub order_id : OrderId
  pub client_order_id : ClientOrderId
  pub symbol : Symbol
  pub side : String
  pub type : String
  pub quantity : Decimal
  pub filled_quantity : Decimal
  pub price : Option Decimal
  pub average_fill_price : Option Decimal
  pub status : String
  pub time_in_force : String
  pub reduce_only : ℕ
  pub created_at : IsoText
  pub updated_at : IsoText

-- the table `fills`
pub record FillRow : Type 0 where
  pub order_id : OrderId
  pub symbol : Symbol
  pub side : String
  pub price : Decimal
  pub quantity : Decimal
  pub fee : Decimal
  pub fee_currency : ℕ
  pub is_maker : ℕ
  pub timestamp : IsoText

pub record Database : Type 0 where
  pub order_events : Table OrderRow
  pub fills : Table FillRow

abbrev pub empty_database : Database
empty_database = record { order_events = empty_table; fills = empty_table }

abbrev pub OrderStore : Type 0
OrderStore = Store Database

-- `__init__`, by whether the path is `:memory:`
abbrev pub new : Bool → OrderStore
new in_memory = Connection.new in_memory empty_database

abbrev pub start : OrderStore → OrderStore
start = Connection.start empty_database

abbrev pub stop : OrderStore → OrderStore
stop = Connection.stop

-- `int(b)` and `bool(n)`
abbrev pub int_of : Bool → ℕ
int_of true = 1
int_of false = 0

abbrev pub bool_of : ℕ → Bool
bool_of n = not (n == 0)

-- the values of the `INSERT` in `write_order`
unfoldable pub order_to_row : Order → OrderRow
order_to_row order = record {
  order_id = order.order_id;
  client_order_id = order.client_order_id;
  symbol = order.symbol;
  side = side_value order.side;
  type = type_value order.type;
  quantity = order.quantity;
  filled_quantity = order.filled_quantity;
  price = order.price;
  average_fill_price = order.average_fill_price;
  status = status_value order.status;
  time_in_force = time_in_force_value order.time_in_force;
  reduce_only = int_of order.reduce_only;
  created_at = isoformat order.created_at;
  updated_at = isoformat order.updated_at;
}

-- the values of the `INSERT` in `write_fill`
unfoldable pub fill_to_row : Fill → FillRow
fill_to_row fill = record {
  order_id = fill.order_id;
  symbol = fill.symbol;
  side = side_value fill.side;
  price = fill.price;
  quantity = fill.quantity;
  fee = fill.fee;
  fee_currency = fill.fee_currency;
  is_maker = int_of fill.is_maker;
  timestamp = isoformat fill.timestamp;
}

-- `_row_to_order`; `none` where a value is not one of an enumeration's or a time does not parse
unfoldable pub row_to_order : OrderRow → Option Order
row_to_order row = do
  side ← side_of row.side
  type ← type_of row.type
  status ← status_of row.status
  time_in_force ← time_in_force_of row.time_in_force
  created_at ← fromisoformat row.created_at
  updated_at ← fromisoformat row.updated_at
  some (record {
    order_id = row.order_id;
    client_order_id = row.client_order_id;
    symbol = row.symbol;
    side = side;
    type = type;
    quantity = row.quantity;
    filled_quantity = row.filled_quantity;
    price = row.price;
    average_fill_price = row.average_fill_price;
    status = status;
    time_in_force = time_in_force;
    reduce_only = bool_of row.reduce_only;
    created_at = created_at;
    updated_at = updated_at;
  })

-- `_row_to_fill`
unfoldable pub row_to_fill : FillRow → Option Fill
row_to_fill row = do
  side ← side_of row.side
  timestamp ← fromisoformat row.timestamp
  some (record {
    order_id = row.order_id;
    symbol = row.symbol;
    side = side;
    price = row.price;
    quantity = row.quantity;
    fee = row.fee;
    fee_currency = row.fee_currency;
    is_maker = bool_of row.is_maker;
    timestamp = timestamp;
  })

-- `write_order`
unfoldable pub write_order : Order → OrderStore → Option OrderStore
write_order order =
    execute (λ d. record d { order_events = insert_row (order_to_row order) d.order_events })

-- `write_fill`
unfoldable pub write_fill : Fill → OrderStore → Option OrderStore
write_fill fill = execute (λ d. record d { fills = insert_row (fill_to_row fill) d.fills })

-- `_TERMINAL_STATUS_VALUES`
abbrev pub terminal_status_values : List String
terminal_status_values =
    status_value OrderStatus.filled
    ∷ status_value OrderStatus.cancelled
    ∷ status_value OrderStatus.rejected
    ∷ status_value OrderStatus.expired
    ∷ status_value OrderStatus.failed
    ∷ []

abbrev pub is_in : String → List String → Bool
is_in v [] = false
is_in v (w ∷ ws) = str_eq v w || is_in v ws

-- ` AND symbol = ?`, where there is a symbol
abbrev pub symbol_clause : Option Symbol → OrderRow → Bool
symbol_clause none row = true
symbol_clause (some symbol) row = row.symbol == symbol

-- `read_open_orders`: SQL leaves the order of its rows open; they come in the order of their ids.
unfoldable pub read_open_orders : Option Symbol → OrderStore → Option (List Order)
read_open_orders symbol = query (λ d. decode_all row_to_order (
    entries (
      where_entry (λ row. not (is_in row.status terminal_status_values) && symbol_clause symbol row)
        (latest_rows (λ a b. iso_ltb a.updated_at b.updated_at) (λ row. row.order_id)
          d.order_events.rows))))

-- `read_order_history`
unfoldable pub read_order_history : OrderId → OrderStore → Option (List Order)
read_order_history order_id = query (λ d. decode_all row_to_order (
    entries (
      order_by (λ a b. iso_ltb a.updated_at b.updated_at)
        (where_entry (λ row. row.order_id == order_id) d.order_events.rows))))

-- `read_fills_since`
unfoldable pub read_fills_since : Time → OrderStore → Option (List Fill)
read_fills_since since = query (λ d. decode_all row_to_fill (
    entries (
      order_by (λ a b. iso_ltb a.timestamp b.timestamp)
        (where_entry (λ row. not (iso_ltb row.timestamp (isoformat since))) d.fills.rows))))
