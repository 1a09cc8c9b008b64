-- ===== src/Fill/Engine.antt =====
-- src/trading/fill/base.py: the interface that the paper venue takes its fills from, the law that
-- the venue relies on, and the two engines behind it.
use claude_trade_teams.Base.{ℕ, ◌≡◌, refl, Option, some, List, [], ◌∷◌, arith, Bool-cases, inl, inr}
use claude_trade_teams.Base.Decimal.{
  Decimal, Context, pos, ◌+ℤ◌, ◌-ℤ◌, ◌≤ℤ◌, leb_ℤ, min_ℤ, int_laws, -ℤ_parts, min_ℤ-le_left,
}
use claude_trade_teams.Domain.{Time, OrderType, Order, Fill, Level, OrderbookSnapshot}
use claude_trade_teams.Fill.Immediate
use claude_trade_teams.Fill.Orderbook.{
  OrderbookFillEngine, walk_from, walk, build, market_fill, limit_fill, levels_for,
}
use claude_trade_teams.Fill.Orderbook
use claude_trade_teams.Fill.Execution.{try_fill-eq-some_iff}

pub record FillEngine : Type 0 where
  pub try_fill : Order → OrderbookSnapshot → Time → Option Fill

-- A fill is for the order, on the book's symbol, and for no more than is left of the order.
pub record IsFillOf (order : Order) (book : OrderbookSnapshot) (fill : Fill) : Type 0 where
  pub same_id : fill.order_id ≡ order.order_id
  pub same_symbol : fill.symbol ≡ order.symbol
  pub same_side : fill.side ≡ order.side
  pub on_book : order.symbol ≡ book.symbol
  pub fits : order.filled_quantity +ℤ fill.quantity ≤ℤ order.quantity

pub record IsSound (engine : FillEngine) : Type 0 where
  pub fills :
      (order : Order) (book : OrderbookSnapshot) (now : Time) (fill : Fill)
      → engine.try_fill order book now ≡ some fill
      → IsFillOf order book fill

-- `ImmediateFillEngine`
unfoldable pub immediate : ℕ → FillEngine
immediate fee_currency = record { try_fill = Immediate.try_fill fee_currency }

-- The immediate engine fills the order at hand, on its symbol, and never more than is left.
pub immediate-IsSound : (fee_currency : ℕ) → IsSound (immediate fee_currency)
unfolding immediate
immediate-IsSound cur = record {
  fills = λ order book now fill h.
      let (symbol, left, _, e) = (try_fill-eq-some_iff cur order book now fill).0 h in
      record {
        same_id = ground arith;
        same_symbol = ground arith;
        same_side = ground arith;
        on_book = symbol;
        fits = rw e (omega int_laws);
      };
}

module _ (c : Context) where
  -- `OrderbookFillEngine`
  unfoldable pub orderbook : OrderbookFillEngine → FillEngine
  orderbook engine = record { try_fill = Orderbook.try_fill c engine }

  walk_from-le :
      (levels : List Level) (r f n : Decimal) → f ≤ℤ r → (walk_from c levels r f n).0 ≤ℤ r
  unfolding walk_from
  walk_from-le [] r f n h = h
  walk_from-le (l ∷ ls) r f n h =
      let t = min_ℤ (r -ℤ f) l.quantity in
      let h' : f +ℤ t ≤ℤ r = omega (int_laws, min_ℤ-le_left (r -ℤ f) l.quantity) in
      elim (Bool-cases (leb_ℤ r (f +ℤ t))) [
        | inl done ↦ rw done h'
        | inr more ↦ rw more (walk_from-le ls r (f +ℤ t) (n +ℤ c.times t l.price) h')
      ]

  module _ (engine : OrderbookFillEngine) (order : Order) (book : OrderbookSnapshot) where
    market_sound :
        (r : Decimal) (now : Time) (fill : Fill)
        → pos 0 ≤ℤ r
        → market_fill c engine order book r now ≡ some fill
        → (fill.order_id ≡ order.order_id)
          × (fill.symbol ≡ order.symbol)
          × (fill.side ≡ order.side)
          × (fill.quantity ≤ℤ r)
    unfolding market_fill walk
    market_sound r now fill p h =
        let w = walk_from-le (levels_for order.side book) r (pos 0) (pos 0) p in ground (arith, w)

    limit_sound :
        (r : Decimal) (now : Time) (fill : Fill)
        → limit_fill c engine order book r now ≡ some fill
        → (fill.order_id ≡ order.order_id)
          × (fill.symbol ≡ order.symbol)
          × (fill.side ≡ order.side)
          × (fill.quantity ≤ℤ r)
    unfolding limit_fill
    limit_sound r now fill h = ground arith

    type_sound :
        (t : OrderType) (now : Time) (fill : Fill)
        → order.type ≡ t
        → Orderbook.try_fill c engine order book now ≡ some fill
        → IsFillOf order book fill
    unfolding Orderbook.try_fill
    type_sound OrderType.market now fill t h =
        let r = order.quantity -ℤ order.filled_quantity in
        let parts = -ℤ_parts order.quantity order.filled_quantity in
        let m : (pos 0 ≤ℤ r)
            × (market_fill c engine order book r now ≡ some fill)
            × (order.symbol ≡ book.symbol) =
          (ground arith, ground arith, ground arith) in
        let (i, s, d, q) = market_sound r now fill m.0 m.1 in
        record { same_id = i; same_symbol = s; same_side = d; on_book = m.2; fits = omega int_laws }
    type_sound OrderType.limit now fill t h =
        let r = order.quantity -ℤ order.filled_quantity in
        let m : (limit_fill c engine order book r now ≡ some fill) × (order.symbol ≡ book.symbol) =
          (ground arith, ground arith) in
        let (i, s, d, q) = limit_sound r now fill m.0 in
        record { same_id = i; same_symbol = s; same_side = d; on_book = m.1; fits = omega int_laws }
    type_sound OrderType.stop_market now fill t h = ground arith
    type_sound OrderType.stop_limit now fill t h = ground arith

  -- The book-walking engine fills the order at hand, on its symbol, and never more than is left.
  pub orderbook-IsSound : (engine : OrderbookFillEngine) → IsSound (orderbook engine)
  unfolding orderbook
  orderbook-IsSound engine = record {
    fills = λ order book now fill h. type_sound engine order book order.type now fill refl h;
  }
