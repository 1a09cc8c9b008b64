-- ===== src/Examples/PaperCases.antt =====
-- The theorems on src/trading/venues/paper.py at concrete inputs.
use claude_trade_teams.Base.{suc, ◌≡◌, refl, if◌then◌else◌, arith}
use claude_trade_teams.Base.Decimal.{whole, whole-IsExact, pos, ◌+ℤ◌, ◌-ℤ◌, ◌*ℤ◌, over_ℤ}
use claude_trade_teams.Clock.{now}
use claude_trade_teams.Domain.{OrderStatus, TimeInForce}
use claude_trade_teams.Fill.Engine.{immediate-IsSound}
use claude_trade_teams.Paper.Netting.{PositionState, signed_qty, added}
use claude_trade_teams.Paper.Valuation.{
  after, marked_value, HasExactAverage, apply_fill-marked_value,
}
use claude_trade_teams.Paper.Venue.{
  PaperVenue, new, place_order, on_orderbook, cancel_order, placed_order, rejects,
}
use claude_trade_teams.Paper.Invariant.{IsValid}
use claude_trade_teams.Paper.Invariant.Reach.{
  Reach, start, next, place, cancel, book, Reach-IsValid,
}
use claude_trade_teams.Paper.PostOnly.{IsOnlyReported, place_order-post_only}
use claude_trade_teams.Examples.Data.{ticking, a_book, buy_request, a_fill, paper_config}

abbrev quoted : PaperVenue
quoted = on_orderbook whole paper_config a_book (new ticking)

abbrev traded : PaperVenue
traded = (place_order whole paper_config (buy_request TimeInForce.gtc 101) quoted).1

abbrev pub session : PaperVenue
session = (cancel_order 1 traded).1

abbrev pub session-Reach : Reach whole paper_config ticking session
session-Reach =
    next (next (next start (book a_book)) (place (buy_request TimeInForce.gtc 101) (omega arith)))
      (cancel 1)

Reach-IsValid_example : IsValid session
Reach-IsValid_example = Reach-IsValid whole paper_config (immediate-IsSound 0) ticking session-Reach

place_order-post_only_example :
    IsOnlyReported quoted
      (placed_order
        (buy_request TimeInForce.post_only 100)
        (suc quoted.next_oid)
        (if rejects (buy_request TimeInForce.post_only 100) quoted
          then OrderStatus.rejected
          else OrderStatus.acked)
        (now quoted.clock).0)
      (place_order whole paper_config (buy_request TimeInForce.post_only 100) quoted).1
place_order-post_only_example =
    place_order-post_only whole paper_config 0 refl (buy_request TimeInForce.post_only 100) quoted
      refl refl

abbrev held : PositionState
held = record { net_qty = pos 2; entry_price = pos 99; realized_pnl = pos 5 }

held-HasExactAverage : HasExactAverage whole held a_fill
unfolding added signed_qty ◌+ℤ◌ ◌*ℤ◌ over_ℤ
held-HasExactAverage = refl

apply_fill-marked_value_example :
    marked_value whole (after whole held a_fill) (pos 110)
    ≡ marked_value whole held (pos 110) +ℤ (pos 110 -ℤ pos 101) *ℤ signed_qty a_fill -ℤ pos 1
apply_fill-marked_value_example =
    apply_fill-marked_value whole whole-IsExact held a_fill (pos 110) (λ h. held-HasExactAverage)
