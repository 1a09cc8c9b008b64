-- ===== src/Sqlite/Orders/Rows.antt =====
-- The rows of `SQLiteOrderJournal` read back as the records that were written
-- (src/trading/persistence/order_journal/sqlite.py).
use claude_trade_teams.Base.{◌≡◌, refl, ap, Bool, true, false, not, some}
use claude_trade_teams.Domain.{Order, OrderStatus, Fill, is_open}
use claude_trade_teams.Values.{
  side_of-side_value, type_of-type_value, status_value, status_of-status_value,
  time_in_force_of-time_in_force_value,
}
use claude_trade_teams.Sqlite.Iso.Order.{fromisoformat-isoformat}
use claude_trade_teams.Sqlite.Orders.{
  int_of, bool_of, order_to_row, fill_to_row, row_to_order, row_to_fill, is_in,
  terminal_status_values,
}

pub bool_of-int_of : (b : Bool) → bool_of (int_of b) ≡ b
bool_of-int_of true = refl
bool_of-int_of false = refl

-- An order reads back as it was written, in every field.
pub row_to_order-order_to_row : (order : Order) → row_to_order (order_to_row order) ≡ some order
unfolding row_to_order order_to_row
row_to_order-order_to_row order =
    rw
      (
        row_to_order,
        order_to_row,
        side_of-side_value order.side,
        type_of-type_value order.type,
        status_of-status_value order.status,
        time_in_force_of-time_in_force_value order.time_in_force,
        fromisoformat-isoformat order.created_at,
        fromisoformat-isoformat order.updated_at,
      )
      (ap (λ b. some (record order { reduce_only = b })) (bool_of-int_of order.reduce_only))

-- A fill reads back as it was written, in every field.
pub row_to_fill-fill_to_row : (fill : Fill) → row_to_fill (fill_to_row fill) ≡ some fill
unfolding row_to_fill fill_to_row
row_to_fill-fill_to_row fill =
    rw
      (
        row_to_fill,
        fill_to_row,
        side_of-side_value fill.side,
        fromisoformat-isoformat fill.timestamp,
      )
      (ap (λ b. some (record fill { is_maker = b })) (bool_of-int_of fill.is_maker))

-- The statuses that the statement leaves out are the terminal ones.
pub is_in-terminal :
    (s : OrderStatus) → not (is_in (status_value s) terminal_status_values) ≡ is_open s
is_in-terminal OrderStatus.submitted = refl
is_in-terminal OrderStatus.acked = refl
is_in-terminal OrderStatus.partially_filled = refl
is_in-terminal OrderStatus.filled = refl
is_in-terminal OrderStatus.cancelled = refl
is_in-terminal OrderStatus.rejected = refl
is_in-terminal OrderStatus.expired = refl
is_in-terminal OrderStatus.failed = refl
