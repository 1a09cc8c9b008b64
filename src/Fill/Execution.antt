-- ===== src/Fill/Execution.antt =====
-- When src/trading/fill/immediate.py fills an order, at which price, and how much of it.
use claude_trade_teams.Base.{
  ℕ, ◌≡◌, refl, ◌↔◌, false, Option, none, some, arith, Option-cases, inl, inr,
}
use claude_trade_teams.Base.Decimal.{Decimal, pos, ◌-ℤ◌, ◌≤ℤ◌, ◌<ℤ◌, -ℤ_parts}
use claude_trade_teams.Domain.{
  Time, OrderSide, OrderType, Order, Fill, Level, OrderbookSnapshot, best_bid, best_ask,
}
use claude_trade_teams.Fill.Immediate.{price_of, buy_limit, sell_limit, fill_price, try_fill}

-- The prices at which an order may trade against the top of a book.
pub data Executable (order : Order) (book : OrderbookSnapshot) (price : Decimal) : Type 0 where
  market_buy :
      (ask : Level)
      → order.type ≡ OrderType.market
      → order.side ≡ OrderSide.buy
      → best_ask book ≡ some ask
      → price ≡ ask.price
      → Executable order book price
  market_sell :
      (bid : Level)
      → order.type ≡ OrderType.market
      → order.side ≡ OrderSide.sell
      → best_bid book ≡ some bid
      → price ≡ bid.price
      → Executable order book price
  limit_buy :
      (ask : Level) (limit : Decimal)
      → order.type ≡ OrderType.limit
      → order.side ≡ OrderSide.buy
      → order.price ≡ some limit
      → best_ask book ≡ some ask
      → ask.price ≤ℤ limit
      → price ≡ ask.price
      → Executable order book price
  limit_sell :
      (bid : Level) (limit : Decimal)
      → order.type ≡ OrderType.limit
      → order.side ≡ OrderSide.sell
      → order.price ≡ some limit
      → best_bid book ≡ some bid
      → limit ≤ℤ bid.price
      → price ≡ bid.price
      → Executable order book price

price_of-some :
    (o : Option Level) {p : Decimal}
    → price_of o ≡ some p
    → (l : Level) × (o ≡ some l) × (p ≡ l.price)
price_of-some none h = cc
price_of-some (some l) h = (l, refl, ground arith)

buy_limit-some :
    (limit : Decimal) (o : Option Level) {p : Decimal}
    → buy_limit limit o ≡ some p
    → (l : Level) × (o ≡ some l) × (l.price ≤ℤ limit) × (p ≡ l.price)
unfolding buy_limit
buy_limit-some limit none h = cc
buy_limit-some limit (some l) h = (l, refl, ground arith, ground arith)

sell_limit-some :
    (limit : Decimal) (o : Option Level) {p : Decimal}
    → sell_limit limit o ≡ some p
    → (l : Level) × (o ≡ some l) × (limit ≤ℤ l.price) × (p ≡ l.price)
unfolding sell_limit
sell_limit-some limit none h = cc
sell_limit-some limit (some l) h = (l, refl, ground arith, ground arith)

module _ (order : Order) (book : OrderbookSnapshot) {p : Decimal} where
  market_sound :
      (s : OrderSide)
      → order.type ≡ OrderType.market
      → order.side ≡ s
      → fill_price order book ≡ some p
      → Executable order book p
  unfolding fill_price
  market_sound OrderSide.buy t s h =
      let (l, e, q) = price_of-some (best_ask book) (rw (t, s) at h) in market_buy l t s e q
  market_sound OrderSide.sell t s h =
      let (l, e, q) = price_of-some (best_bid book) (rw (t, s) at h) in market_sell l t s e q

  limit_sound :
      (s : OrderSide) (o : Option Decimal)
      → order.type ≡ OrderType.limit
      → order.side ≡ s
      → order.price ≡ o
      → fill_price order book ≡ some p
      → Executable order book p
  unfolding fill_price
  limit_sound OrderSide.buy none t s o h = cc (t, o)
  limit_sound OrderSide.sell none t s o h = ground arith
  limit_sound OrderSide.buy (some limit) t s o h =
      let (l, e, c, q) = buy_limit-some limit (best_ask book) (rw (t, s, o) at h) in
      limit_buy l limit t s o e c q
  limit_sound OrderSide.sell (some limit) t s o h =
      let (l, e, c, q) = sell_limit-some limit (best_bid book) (rw (t, s, o) at h) in
      limit_sell l limit t s o e c q

  type_sound :
      (t : OrderType) → order.type ≡ t → fill_price order book ≡ some p → Executable order book p
  unfolding fill_price
  type_sound OrderType.market t h = market_sound order.side t refl h
  type_sound OrderType.limit t h = limit_sound order.side order.price t refl refl h
  type_sound OrderType.stop_market t h = ground arith
  type_sound OrderType.stop_limit t h = ground arith

  pub fill_price_sound : fill_price order book ≡ some p → Executable order book p
  fill_price_sound h = type_sound order.type refl h

  pub fill_price_complete : Executable order book p → fill_price order book ≡ some p
  unfolding fill_price
  fill_price_complete (market_buy ask t s b e) = ground arith
  fill_price_complete (market_sell bid t s b e) = ground arith
  fill_price_complete (limit_buy ask limit t s o b c e) = ground arith
  fill_price_complete (limit_sell bid limit t s o b c e) = ground arith

-- The fill of the whole remaining quantity at one price, with no fee.
abbrev pub whole_fill : ℕ → Order → Decimal → Time → Fill
whole_fill fee_currency order price timestamp = record {
  order_id = order.order_id;
  symbol = order.symbol;
  side = order.side;
  price = price;
  quantity = order.quantity -ℤ order.filled_quantity;
  fee = pos 0;
  fee_currency = fee_currency;
  is_maker = false;
  timestamp = timestamp;
}

module _ (cur : ℕ) (order : Order) (book : OrderbookSnapshot) (now : Time) where
  try_fill_sound :
      (fill : Fill)
      → try_fill cur order book now ≡ some fill
      → (order.symbol ≡ book.symbol)
        × (order.filled_quantity <ℤ order.quantity)
        × Executable order book fill.price
        × (fill ≡ whole_fill cur order fill.price now)
  unfolding try_fill
  try_fill_sound fill h = elim (Option-cases (fill_price order book)) [
    | inl e ↦ ground arith
    | inr (p, e) ↦
        let q : fill.price ≡ p = ground arith in
        (
          ground arith,
          ground (arith, -ℤ_parts order.quantity order.filled_quantity),
          rw q (fill_price_sound order book e),
          ground arith,
        )
  ]

  try_fill_complete :
      (p : Decimal)
      → order.symbol ≡ book.symbol
      → order.filled_quantity <ℤ order.quantity
      → Executable order book p
      → try_fill cur order book now ≡ some (whole_fill cur order p now)
  unfolding try_fill
  try_fill_complete p s r x =
      ground
        (arith, -ℤ_parts order.quantity order.filled_quantity, fill_price_complete order book x)

-- `ImmediateFillEngine.try_fill` returns a fill exactly when the book is for the order's symbol,
-- something of the order is left to fill, and the book's top of the opposite side is a price at
-- which the order may trade; the fill is then for all that is left, at that price, with no fee.
pub try_fill-eq-some_iff :
    (fee_currency : ℕ) (order : Order) (book : OrderbookSnapshot) (now : Time) (fill : Fill)
    → (try_fill fee_currency order book now ≡ some fill) ↔ (
        (order.symbol ≡ book.symbol)
        × (order.filled_quantity <ℤ order.quantity)
        × Executable order book fill.price
        × (fill ≡ whole_fill fee_currency order fill.price now))
try_fill-eq-some_iff cur order book now fill = (
  try_fill_sound cur order book now fill,
  λ (s, r, x, e). rw e (try_fill_complete cur order book now fill.price s r x),
)
