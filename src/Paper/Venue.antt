-- ===== src/Paper/Venue.antt =====
-- src/trading/venues/paper.py: the state of `PaperVenue` and its operations. The callbacks that
-- an operation awaits are listed in `outbox`, in order; `clock` is the clock that it reads.
use claude_trade_teams.Base.{
  ℕ, suc, ◌==◌, Bool, true, false, if◌then◌else◌, Option, none, some, List, [], ◌∷◌, ◌++◌, map,
  keep,
}
use claude_trade_teams.Base.Decimal.{Decimal, Context, pos, ◌+ℤ◌, leb_ℤ}
use claude_trade_teams.Base.Dict.{Dict, lookup, insert, erase, values}
use claude_trade_teams.Clock.{Clock, now}
use claude_trade_teams.Domain.{
  Symbol, OrderId, Time, OrderSide, OrderStatus, TimeInForce, OrderRequest, Order, Fill, Level,
  OrderbookSnapshot, best_bid, best_ask, VenueEvent,
}
use claude_trade_teams.Fill.Engine.{FillEngine}
use claude_trade_teams.Paper.Netting.{PositionState, no_position, apply_fill}

-- What the constructor fixes.
pub record PaperConfig : Type 0 where
  pub fill_engine : FillEngine
  pub initial_balance : Decimal
  pub currency : ℕ

pub record PaperVenue : Type 0 where
  pub next_oid : ℕ
  pub open_orders : Dict Order
  pub all_orders : Dict Order
  pub positions : Dict PositionState
  pub latest_book : Dict OrderbookSnapshot
  pub clock : Clock
  pub outbox : List VenueEvent

-- A venue as its constructor leaves it.
unfoldable pub new : Clock → PaperVenue
new clock = record {
  next_oid = 0;
  open_orders = [];
  all_orders = [];
  positions = [];
  latest_book = [];
  clock = clock;
  outbox = [];
}

-- `for cb in self._order_cbs: await cb(order)`, and the same for fills
abbrev pub emit : VenueEvent → PaperVenue → PaperVenue
emit event v = record v { outbox = v.outbox ++ event ∷ [] }

abbrev pub ask_at_most : Decimal → Option Level → Bool
ask_at_most price none = false
ask_at_most price (some ask) = leb_ℤ ask.price price

abbrev pub bid_at_least : Decimal → Option Level → Bool
bid_at_least price none = false
bid_at_least price (some bid) = leb_ℤ price bid.price

abbrev pub would_cross_at : OrderSide → Decimal → OrderbookSnapshot → Bool
would_cross_at OrderSide.buy price book = ask_at_most price (best_ask book)
would_cross_at OrderSide.sell price book = bid_at_least price (best_bid book)

-- `_would_cross_immediately`
unfoldable pub would_cross_immediately : OrderRequest → OrderbookSnapshot → Bool
would_cross_immediately request book = elim request.price [
  | none ↦ false
  | some price ↦ would_cross_at request.side price book
]

abbrev pub is_post_only : TimeInForce → Bool
is_post_only TimeInForce.post_only = true
is_post_only TimeInForce.gtc = false
is_post_only TimeInForce.ioc = false
is_post_only TimeInForce.fok = false

-- `book is not None and self._would_cross_immediately(request, book)`
abbrev pub crosses : OrderRequest → Option OrderbookSnapshot → Bool
crosses request none = false
crosses request (some book) = would_cross_immediately request book

-- the test that rejects a POST_ONLY order at submission
unfoldable pub rejects : OrderRequest → PaperVenue → Bool
unfolding would_cross_immediately
rejects request v =
    if is_post_only request.time_in_force
    then crosses request (lookup request.symbol v.latest_book)
    else false

-- the `Order` that `place_order` builds
unfoldable pub placed_order : OrderRequest → OrderId → OrderStatus → Time → Order
placed_order request oid status now' = record {
  order_id = oid;
  client_order_id = request.client_order_id;
  symbol = request.symbol;
  side = request.side;
  type = request.type;
  quantity = request.quantity;
  filled_quantity = pos 0;
  price = request.price;
  average_fill_price = none;
  status = status;
  time_in_force = request.time_in_force;
  reduce_only = request.reduce_only;
  created_at = now';
  updated_at = now';
}

-- `self._positions.get(fill.symbol, _PositionState())`
abbrev pub position_of : Symbol → Dict PositionState → PositionState
position_of symbol d = elim (lookup symbol d) [ none ↦ no_position | some state ↦ state ]

module _ (c : Context) where
  -- the weighted average price after a fill
  abbrev new_average : Order → Fill → Decimal → Decimal
  new_average order fill new_filled = elim order.average_fill_price [
    | none ↦ fill.price
    | some average ↦
        c.over (c.times average order.filled_quantity +ℤ c.times fill.price fill.quantity)
          new_filled
  ]

  -- `updated` in `_apply_fill_to_order`
  unfoldable pub updated_order : Order → Fill → Order
  updated_order order fill =
      let new_filled = order.filled_quantity +ℤ fill.quantity in
      record order {
        filled_quantity = new_filled;
        average_fill_price = some (new_average order fill new_filled);
        status =
            if leb_ℤ order.quantity new_filled
            then OrderStatus.filled
            else OrderStatus.partially_filled;
        updated_at = fill.timestamp;
      }

  -- `_apply_fill_to_order`
  unfoldable pub apply_fill_to_order : Order → Fill → PaperVenue → PaperVenue
  apply_fill_to_order order fill v =
      let updated = updated_order order fill in
      let result = apply_fill c (position_of fill.symbol v.positions) fill in
      emit (VenueEvent.order_update updated) (
        emit (VenueEvent.fill fill) (record v {
          open_orders =
              if leb_ℤ order.quantity (order.filled_quantity +ℤ fill.quantity)
              then erase order.order_id v.open_orders
              else insert order.order_id updated v.open_orders;
          all_orders = insert order.order_id updated v.all_orders;
          positions = insert fill.symbol result.new_state v.positions;
        }))

  module _ (cfg : PaperConfig) where
    -- the rest of `_try_fill_order`, for an order that is open
    unfoldable pub attempt_fill : Order → OrderbookSnapshot → PaperVenue → PaperVenue
    attempt_fill order snapshot v =
        let (now', clock') = now v.clock in
        let v' = record v { clock = clock' } in
        elim (cfg.fill_engine.try_fill order snapshot now') [
          | none ↦ v'
          | some fill ↦ apply_fill_to_order order fill v'
        ]

    -- `_try_fill_order`
    unfoldable pub try_fill_order : OrderId → OrderbookSnapshot → PaperVenue → PaperVenue
    try_fill_order order_id snapshot v = elim (lookup order_id v.open_orders) [
      | none ↦ v
      | some order ↦ attempt_fill order snapshot v
    ]

    -- the immediate attempt at the end of `place_order`
    abbrev pub fill_at_once : OrderId → Symbol → PaperVenue → PaperVenue
    fill_at_once oid symbol v = elim (lookup symbol v.latest_book) [
      | none ↦ v
      | some book ↦ try_fill_order oid book v
    ]

    -- `place_order`
    unfoldable pub place_order : OrderRequest → PaperVenue → OrderId × PaperVenue
    place_order request v =
        let oid = suc v.next_oid in
        let (now', clock') = now v.clock in
        let rejected = rejects request v in
        let status = if rejected then OrderStatus.rejected else OrderStatus.acked in
        let order = placed_order request oid status now' in
        let v' = emit (VenueEvent.order_update order) (record v {
          next_oid = oid;
          clock = clock';
          all_orders = insert oid order v.all_orders;
          open_orders = if rejected then v.open_orders else insert oid order v.open_orders;
        }) in
        (oid, if rejected then v' else fill_at_once oid request.symbol v')

    -- the loop of `_on_orderbook` over the ids that it took first
    unfoldable pub fill_each : OrderbookSnapshot → List OrderId → PaperVenue → PaperVenue
    fill_each snapshot [] v = v
    fill_each snapshot (oid ∷ ids) v = fill_each snapshot ids (try_fill_order oid snapshot v)

    abbrev pub ids_for : Symbol → Dict Order → List OrderId
    ids_for symbol d = map (λ e. e.0) (keep (λ e. e.1.symbol == symbol) d)

    -- `_on_orderbook`
    unfoldable pub on_orderbook : OrderbookSnapshot → PaperVenue → PaperVenue
    on_orderbook snapshot v =
        let v' = record v { latest_book = insert snapshot.symbol snapshot v.latest_book } in
        fill_each snapshot (ids_for snapshot.symbol v'.open_orders) v'

-- `cancel_order`
unfoldable pub cancel_order : OrderId → PaperVenue → Bool × PaperVenue
cancel_order order_id v = elim (lookup order_id v.open_orders) [
  | none ↦ (false, v)
  | some order ↦
      let (now', clock') = now v.clock in
      let cancelled = record order { status = OrderStatus.cancelled; updated_at = now' } in
      (
        true,
        emit (VenueEvent.order_update cancelled) (record v {
          clock = clock';
          open_orders = erase order_id v.open_orders;
          all_orders = insert order_id cancelled v.all_orders;
        }),
      )
]

-- `get_order`
abbrev pub get_order : OrderId → PaperVenue → Option Order
get_order order_id v = lookup order_id v.all_orders

-- `get_open_orders`
abbrev pub get_open_orders : Option Symbol → PaperVenue → List Order
get_open_orders none v = values v.open_orders
get_open_orders (some symbol) v = keep (λ o. o.symbol == symbol) (values v.open_orders)
