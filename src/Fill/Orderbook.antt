-- ===== src/Fill/Orderbook.antt =====
-- src/trading/fill/orderbook.py: market orders walk the book, crossed limits fill at their price.
use claude_trade_teams.Base.{
  ℕ, ◌==◌, Bool, true, false, not, if◌then◌else◌, Option, none, some, List, [], ◌∷◌,
}
use claude_trade_teams.Base.Decimal.{Decimal, Context, pos, ◌+ℤ◌, ◌-ℤ◌, leb_ℤ, eqb_ℤ, min_ℤ}
use claude_trade_teams.Domain.{
  Time, OrderSide, OrderType, Order, Fill, Level, OrderbookSnapshot, best_bid, best_ask,
}

pub record OrderbookFillEngine : Type 0 where
  pub maker_fee : Decimal
  pub taker_fee : Decimal
  pub fee_currency : ℕ

-- `book.asks if order.side == OrderSide.BUY else book.bids`
abbrev pub levels_for : OrderSide → OrderbookSnapshot → List Level
levels_for OrderSide.buy book = book.asks
levels_for OrderSide.sell book = book.bids

-- `best is not None and best.price <= limit`
abbrev ask_crossed : Decimal → Option Level → Bool
ask_crossed limit none = false
ask_crossed limit (some best) = leb_ℤ best.price limit

-- `best is not None and best.price >= limit`
abbrev bid_crossed : Decimal → Option Level → Bool
bid_crossed limit none = false
bid_crossed limit (some best) = leb_ℤ limit best.price

abbrev pub crossed : OrderSide → Decimal → OrderbookSnapshot → Bool
crossed OrderSide.buy limit book = ask_crossed limit (best_ask book)
crossed OrderSide.sell limit book = bid_crossed limit (best_bid book)

module _ (c : Context) where
  -- the loop of `_walk`, with its two accumulators
  unfoldable pub walk_from : List Level → Decimal → Decimal → Decimal → Decimal × Decimal
  walk_from [] remaining filled notional = (filled, notional)
  walk_from (level ∷ levels) remaining filled notional =
      let take = min_ℤ (remaining -ℤ filled) level.quantity in
      let filled' = filled +ℤ take in
      let notional' = notional +ℤ c.times take level.price in
      if leb_ℤ remaining filled'
      then (filled', notional')
      else walk_from levels remaining filled' notional'

  -- `_walk`
  unfoldable pub walk : List Level → Decimal → Decimal × Decimal
  walk levels remaining = walk_from levels remaining (pos 0) (pos 0)

  -- `_build`
  unfoldable pub build : OrderbookFillEngine → Order → Decimal → Decimal → Bool → Time → Fill
  build engine order price quantity is_maker timestamp =
      let fee_rate = if is_maker then engine.maker_fee else engine.taker_fee in
      record {
        order_id = order.order_id;
        symbol = order.symbol;
        side = order.side;
        price = price;
        quantity = quantity;
        fee = c.times (c.times price quantity) fee_rate;
        fee_currency = engine.fee_currency;
        is_maker = is_maker;
        timestamp = timestamp;
      }

  -- `_market_fill`
  unfoldable pub market_fill :
      OrderbookFillEngine → Order → OrderbookSnapshot → Decimal → Time → Option Fill
  unfolding build
  market_fill engine order book remaining timestamp =
      let (filled, notional) = walk (levels_for order.side book) remaining in
      if eqb_ℤ filled (pos 0)
      then none
      else some (build engine order (c.over notional filled) filled false timestamp)

  -- `_limit_fill`
  unfoldable pub limit_fill :
      OrderbookFillEngine → Order → OrderbookSnapshot → Decimal → Time → Option Fill
  unfolding build
  limit_fill engine order book remaining timestamp = elim order.price [
    | none ↦ none
    | some limit ↦
        if not (crossed order.side limit book)
        then none
        else some (build engine order limit remaining true timestamp)
  ]

  abbrev fill_by_type :
      OrderType → OrderbookFillEngine → Order → OrderbookSnapshot → Decimal → Time → Option Fill
  fill_by_type OrderType.market engine order book remaining now =
      market_fill engine order book remaining now
  fill_by_type OrderType.limit engine order book remaining now =
      limit_fill engine order book remaining now
  fill_by_type OrderType.stop_market engine order book remaining now = none
  fill_by_type OrderType.stop_limit engine order book remaining now = none

  -- `OrderbookFillEngine.try_fill`
  unfoldable pub try_fill : OrderbookFillEngine → Order → OrderbookSnapshot → Time → Option Fill
  try_fill engine order book timestamp =
      let remaining = order.quantity -ℤ order.filled_quantity in
      if not (order.symbol == book.symbol)
      then none
      else if leb_ℤ remaining (pos 0)
      then none
      else fill_by_type order.type engine order book remaining timestamp
