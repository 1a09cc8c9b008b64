-- ===== src/Fill/Immediate.antt =====
-- src/trading/fill/immediate.py: the whole remaining quantity at the top of the opposite side.
use claude_trade_teams.Base.{ℕ, ◌==◌, Bool, not, if◌then◌else◌, Option, none, some}
use claude_trade_teams.Base.Decimal.{Decimal, pos, ◌-ℤ◌, ltb_ℤ, leb_ℤ}
use claude_trade_teams.Domain.{
  Time, OrderSide, OrderType, Order, Fill, Level, OrderbookSnapshot, best_bid, best_ask,
}

-- `level.price if level else None`
abbrev pub price_of : Option Level → Option Decimal
price_of none = none
price_of (some level) = some level.price

-- a buy limit at `limit` against the best ask
unfoldable pub buy_limit : Decimal → Option Level → Option Decimal
buy_limit limit none = none
buy_limit limit (some ask) = if ltb_ℤ limit ask.price then none else some ask.price

-- a sell limit at `limit` against the best bid
unfoldable pub sell_limit : Decimal → Option Level → Option Decimal
sell_limit limit none = none
sell_limit limit (some bid) = if ltb_ℤ bid.price limit then none else some bid.price

abbrev limit_price : OrderSide → Option Decimal → OrderbookSnapshot → Option Decimal
limit_price side none book = none
limit_price OrderSide.buy (some limit) book = buy_limit limit (best_ask book)
limit_price OrderSide.sell (some limit) book = sell_limit limit (best_bid book)

abbrev market_price : OrderSide → OrderbookSnapshot → Option Decimal
market_price OrderSide.buy book = price_of (best_ask book)
market_price OrderSide.sell book = price_of (best_bid book)

abbrev price_by_type : OrderType → Order → OrderbookSnapshot → Option Decimal
price_by_type OrderType.market order book = market_price order.side book
price_by_type OrderType.limit order book = limit_price order.side order.price book
price_by_type OrderType.stop_market order book = none
price_by_type OrderType.stop_limit order book = none

-- `_fill_price`
unfoldable pub fill_price : Order → OrderbookSnapshot → Option Decimal
unfolding buy_limit sell_limit
fill_price order book = price_by_type order.type order book

-- `ImmediateFillEngine.try_fill`, for the engine's `fee_currency`
unfoldable pub try_fill : ℕ → Order → OrderbookSnapshot → Time → Option Fill
try_fill fee_currency order book timestamp =
    let remaining = order.quantity -ℤ order.filled_quantity in
    if not (order.symbol == book.symbol)
    then none
    else if leb_ℤ remaining (pos 0)
    then none
    else elim (fill_price order book) [
      | none ↦ none
      | some price ↦ some (record {
        order_id = order.order_id;
        symbol = order.symbol;
        side = order.side;
        price = price;
        quantity = remaining;
        fee = pos 0;
        fee_currency = fee_currency;
        is_maker = Bool.false;
        timestamp = timestamp;
      })
    ]
