-- ===== src/Journal/OrderLog.antt =====
-- src/trading/persistence/order_journal/in_memory.py: order and fill records, append-only.
use claude_trade_teams.Base.{◌==◌, leb, Option, none, some, List, [], ◌∷◌, ◌++◌, keep}
use claude_trade_teams.Base.Dict.{Dict, values, collect}
use claude_trade_teams.Domain.{Symbol, OrderId, Time, Order, Fill, is_open}

pub record OrderJournal : Type 0 where
  pub orders : List Order
  pub fills : List Fill

abbrev pub empty_journal : OrderJournal
empty_journal = record { orders = []; fills = [] }

-- `write_order`
abbrev pub write_order : Order → OrderJournal → OrderJournal
write_order order j = record j { orders = j.orders ++ order ∷ [] }

-- `write_fill`
abbrev pub write_fill : Fill → OrderJournal → OrderJournal
write_fill fill j = record j { fills = j.fills ++ fill ∷ [] }

-- `if symbol is not None: result = [o for o in result if o.symbol == symbol]`
abbrev pub for_symbol : Option Symbol → List Order → List Order
for_symbol none orders = orders
for_symbol (some symbol) orders = keep (λ o. o.symbol == symbol) orders

-- the dict of the last record of each order
abbrev pub latest : List Order → Dict Order
latest orders = collect (λ o. o.order_id) [] orders

-- `read_open_orders`
unfoldable pub read_open_orders : Option Symbol → OrderJournal → List Order
read_open_orders symbol j =
    for_symbol symbol (keep (λ o. is_open o.status) (values (latest j.orders)))

-- `read_order_history`
unfoldable pub read_order_history : OrderId → OrderJournal → List Order
read_order_history order_id j = keep (λ o. o.order_id == order_id) j.orders

-- `read_fills_since`
unfoldable pub read_fills_since : Time → OrderJournal → List Fill
read_fills_since since j = keep (λ f. leb since f.timestamp) j.fills

-- The calls of an order journal that the order manager makes
-- (src/trading/persistence/order_journal/base.py), of a journal that has been started and whose calls
-- return.
pub record JournalCalls (J : Type 0) : Type 0 where
  pub write_order : Order → J → J
  pub write_fill : Fill → J → J
  pub read_open_orders : Option Symbol → J → List Order

instance abbrev pub in_memory : JournalCalls OrderJournal
in_memory = record {
  write_order = write_order;
  write_fill = write_fill;
  read_open_orders = read_open_orders;
}
