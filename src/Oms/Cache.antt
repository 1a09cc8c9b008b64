-- ===== src/Oms/Cache.antt =====
-- src/trading/oms/default.py: the state of `DefaultOrderManager`, its callbacks and its queries.
use claude_trade_teams.Base.{if◌then◌else◌, Option, none, some, List, [], ◌∷◌, keep}
use claude_trade_teams.Base.Decimal.{Decimal, Context, ◌+ℤ◌, leb_ℤ}
use claude_trade_teams.Base.Dict.{Dict, lookup, insert, values, collect}
use claude_trade_teams.Domain.{Symbol, OrderId, OrderStatus, Order, Fill, is_open, VenueEvent}
use claude_trade_teams.Journal.OrderLog.{JournalCalls, for_symbol}

-- an order manager over a journal with states of type `J`
pub record Oms (J : Type 0) : Type 0 where
  pub orders : Dict Order
  pub journal : J

-- An order manager as its constructor leaves it.
abbrev pub new : {J : Type 0} → J → Oms J
new journal = record { orders = []; journal = journal }

-- `get_order`
abbrev pub get_order : {J : Type 0} → OrderId → Oms J → Option Order
get_order order_id s = lookup order_id s.orders

-- `open_orders`
unfoldable pub open_orders : {J : Type 0} → Option Symbol → Oms J → List Order
open_orders symbol s = for_symbol symbol (keep (λ o. is_open o.status) (values s.orders))

module _ {J : Type 0} ⦃calls : JournalCalls J⦄ where
  -- `start`: the cache is read back from the journal.
  unfoldable pub start : Oms J → Oms J
  start s = record s {
    orders = collect (λ o. o.order_id) [] (calls.read_open_orders none s.journal);
  }

  -- `_on_order_update`
  unfoldable pub on_order_update : Order → Oms J → Oms J
  on_order_update order s = record {
    orders = insert order.order_id order s.orders;
    journal = calls.write_order order s.journal;
  }

module _ (c : Context) where
  -- `new_avg` in `_on_fill`
  abbrev new_average : Order → Fill → Decimal → Decimal
  new_average order fill new_filled = elim order.average_fill_price [
    | none ↦ fill.price
    | some average ↦
        c.over (c.times average order.filled_quantity +ℤ c.times fill.price fill.quantity)
          new_filled
  ]

  -- `updated` in `_on_fill`
  unfoldable pub filled_order : Order → Fill → Order
  filled_order order fill =
      let new_filled = order.filled_quantity +ℤ fill.quantity in
      record order {
        filled_quantity = new_filled;
        average_fill_price = some (new_average order fill new_filled);
        status =
            if leb_ℤ order.quantity new_filled
            then OrderStatus.filled
            else OrderStatus.partially_filled;
        updated_at = fill.timestamp;
      }

module _ (c : Context) {J : Type 0} ⦃calls : JournalCalls J⦄ where
  -- `_on_fill`
  unfoldable pub on_fill : Fill → Oms J → Oms J
  on_fill fill s =
      let journal = calls.write_fill fill s.journal in
      elim (lookup fill.order_id s.orders) [
        | none ↦ record s { journal = journal }
        | some order ↦
            let updated = filled_order c order fill in
            record {
              orders = insert fill.order_id updated s.orders;
              journal = calls.write_order updated journal;
            }
      ]

  -- the callbacks of `events`, awaited in order
  unfoldable pub deliver : List VenueEvent → Oms J → Oms J
  deliver [] s = s
  deliver (VenueEvent.order_update order ∷ events) s = deliver events (on_order_update order s)
  deliver (VenueEvent.fill fill ∷ events) s = deliver events (on_fill fill s)
