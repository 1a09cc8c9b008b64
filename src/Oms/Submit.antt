-- ===== src/Oms/Submit.antt =====
-- src/trading/oms/default.py: submission and cancellation, over the interface of a venue
-- (src/trading/venues/base.py).
use claude_trade_teams.Base.{ℕ, suc, Bool, true, if◌then◌else◌, Option, none, some, List, [], ◌∷◌}
use claude_trade_teams.Base.Decimal.{Context, pos}
use claude_trade_teams.Base.Dict.{setdefault}
use claude_trade_teams.Domain.{
  Symbol, OrderId, ClientOrderId, Time, OrderStatus, OrderRequest, Order, TradeIntent, Reason,
  SubmitResult, VenueEvent,
}
use claude_trade_teams.Journal.OrderLog.{JournalCalls}
use claude_trade_teams.Oms.Cache.{Oms, deliver, open_orders}

-- How a call of `place_order` ends: with an id, or with an exception.
pub data Placement : Type 0 where
  placed : OrderId → Placement
  raised : Reason → Placement

-- The calls of a venue that the order manager makes, with the callbacks that each one awaits
-- before it ends. `cancel_order` answers `none` if it raises.
pub record Venue (S : Type 0) : Type 0 where
  pub place_order : OrderRequest → S → Placement × List VenueEvent × S
  pub cancel_order : OrderId → S → Option Bool × List VenueEvent × S

-- the `OrderRequest` that `submit` builds
unfoldable pub request_of : ClientOrderId → TradeIntent → OrderRequest
request_of cid intent = record {
  symbol = intent.symbol;
  side = intent.side;
  type = intent.type;
  quantity = intent.quantity;
  client_order_id = cid;
  price = intent.price;
  time_in_force = intent.time_in_force;
  reduce_only = intent.reduce_only;
  stop_price = none;
}

-- the `Order` that `submit` records
unfoldable pub submitted_order : OrderId → ClientOrderId → Time → TradeIntent → Order
submitted_order oid cid submitted_at intent = record {
  order_id = oid;
  client_order_id = cid;
  symbol = intent.symbol;
  side = intent.side;
  type = intent.type;
  quantity = intent.quantity;
  filled_quantity = pos 0;
  price = intent.price;
  average_fill_price = none;
  status = OrderStatus.submitted;
  time_in_force = intent.time_in_force;
  reduce_only = intent.reduce_only;
  created_at = submitted_at;
  updated_at = submitted_at;
}

-- the lines of `submit` after `place_order` has returned
unfoldable pub record_submission : {J : Type 0} ⦃calls : JournalCalls J⦄ → Order → Oms J → Oms J
record_submission ⦃calls⦄ order s = record {
  orders = setdefault order.order_id order s.orders;
  journal = calls.write_order order s.journal;
}

module _ (c : Context) {J : Type 0} ⦃calls : JournalCalls J⦄ {S : Type 0} (venue : Venue S) where
  -- `submit`, with the id that the factory gives and the time that the clock gives
  unfoldable pub submit : ClientOrderId → Time → TradeIntent → Oms J × S → SubmitResult × Oms J × S
  submit cid submitted_at intent (s, v) =
      let (placement, events, v') = venue.place_order (request_of cid intent) v in
      let s' = deliver c events s in
      elim placement [
        | raised reason ↦ (SubmitResult.submission_failed reason true, s', v')
        | placed oid ↦ (
          SubmitResult.submitted oid cid,
          record_submission (submitted_order oid cid submitted_at intent) s',
          v',
        )
      ]

  -- `cancel`
  unfoldable pub cancel : OrderId → Oms J × S → Option Bool × Oms J × S
  cancel order_id (s, v) =
      let (answer, events, v') = venue.cancel_order order_id v in (answer, deliver c events s, v')

  -- the loop of `cancel_all`; an exception ends it
  unfoldable pub cancel_each : List Order → ℕ → Oms J × S → Option ℕ × Oms J × S
  cancel_each [] count w = (some count, w.0, w.1)
  cancel_each (order ∷ orders) count w =
      let (answer, s', v') = cancel order.order_id w in
      elim answer [
        | none ↦ (none, s', v')
        | some done ↦ cancel_each orders (if done then suc count else count) (s', v')
      ]

  -- `cancel_all`
  unfoldable pub cancel_all : Option Symbol → Oms J × S → Option ℕ × Oms J × S
  cancel_all symbol w = cancel_each (open_orders symbol w.0) 0 w
