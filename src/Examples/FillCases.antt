-- ===== src/Examples/FillCases.antt =====
-- The theorems on src/trading/fill at concrete inputs.
use claude_trade_teams.Base.{◌≡◌, ◌↔◌, some, arith}
use claude_trade_teams.Base.Decimal.{
  whole, whole-IsExact, whole-IsMonotone, pos, ◌*ℤ◌, ◌≤ℤ◌, ◌<ℤ◌, min_ℤ,
}
use claude_trade_teams.Fill.Immediate.{try_fill}
use claude_trade_teams.Fill.Execution.{Executable, whole_fill, try_fill-eq-some_iff}
use claude_trade_teams.Fill.Orderbook.{OrderbookFillEngine, walk}
use claude_trade_teams.Fill.Walk.{depth, walk-filled}
use claude_trade_teams.Fill.Slippage.{walk-Bounded}
use claude_trade_teams.Fill.Engine.{IsSound, orderbook, orderbook-IsSound}
use claude_trade_teams.Examples.Data.{a_book, market_order}

try_fill-eq-some_iff_example :
    (try_fill 0 market_order a_book 100 ≡ some (whole_fill 0 market_order (pos 101) 100)) ↔ (
      (market_order.symbol ≡ a_book.symbol)
      × (pos 1 <ℤ pos 8)
      × Executable market_order a_book (pos 101)
      × (whole_fill 0 market_order (pos 101) 100 ≡ whole_fill 0 market_order (pos 101) 100))
try_fill-eq-some_iff_example =
    try_fill-eq-some_iff 0 market_order a_book 100 (whole_fill 0 market_order (pos 101) 100)

walk-filled_example : (walk whole a_book.asks (pos 8)).0 ≡ min_ℤ (pos 8) (depth a_book.asks)
walk-filled_example =
    walk-filled whole a_book.asks (pos 8) (omega arith, (omega arith, tt)) (omega arith)

walk-Bounded_example :
    ((walk whole a_book.asks (pos 8)).0 *ℤ pos 101 ≤ℤ (walk whole a_book.asks (pos 8)).1)
    × ((walk whole a_book.asks (pos 8)).1 ≤ℤ (walk whole a_book.asks (pos 8)).0 *ℤ pos 102)
walk-Bounded_example =
    walk-Bounded whole whole-IsExact whole-IsMonotone (pos 101) (pos 102) a_book.asks (pos 8)
      (omega arith, (omega arith, tt))
      ((omega arith, omega arith), ((omega arith, omega arith), tt)) (omega arith)

abbrev an_engine : OrderbookFillEngine
an_engine = record { maker_fee = pos 1; taker_fee = pos 2; fee_currency = 0 }

orderbook-IsSound_example : IsSound (orderbook whole an_engine)
orderbook-IsSound_example = orderbook-IsSound whole an_engine
