-- ===== src/Paper/Invariant/Reach.antt =====
-- Every state that `PaperVenue` (src/trading/venues/paper.py) can reach, and what holds of it.
use claude_trade_teams.Base.Decimal.{Context, pos, ◌≤ℤ◌}
use claude_trade_teams.Clock.{Clock}
use claude_trade_teams.Domain.{OrderId, OrderRequest, OrderbookSnapshot}
use claude_trade_teams.Fill.Engine.{IsSound}
use claude_trade_teams.Paper.Venue.{
  PaperConfig, PaperVenue, new, place_order, on_orderbook, cancel_order,
}
use claude_trade_teams.Paper.Invariant.{IsValid, new-IsValid}
use claude_trade_teams.Paper.Invariant.Calls.{on_orderbook-IsValid, cancel_order-IsValid}
use claude_trade_teams.Paper.Invariant.Place.{place_order-IsValid}

module _ (c : Context) (cfg : PaperConfig) where
  -- One call from outside: an order for a quantity that is not negative, a cancellation, a book.
  pub data Step (v : PaperVenue) : PaperVenue → Type 0 where
    place :
        (request : OrderRequest)
        → pos 0 ≤ℤ request.quantity
        → Step v (place_order c cfg request v).1
    cancel : (oid : OrderId) → Step v (cancel_order oid v).1
    book : (snapshot : OrderbookSnapshot) → Step v (on_orderbook c cfg snapshot v)

  pub data Reach (clock : Clock) : PaperVenue → Type 0 where
    start : Reach clock (new clock)
    next : {v w : PaperVenue} → Reach clock v → Step v w → Reach clock w

  module _ (engine : IsSound cfg.fill_engine) where
    Step-IsValid : {v w : PaperVenue} → Step v w → IsValid v → IsValid w
    Step-IsValid {v} (place request q) h = place_order-IsValid c cfg engine request v q h
    Step-IsValid {v} (cancel oid) h = cancel_order-IsValid oid v h
    Step-IsValid {v} (book snapshot) h = on_orderbook-IsValid c cfg engine snapshot v h

    -- After any calls, in any order: an order is listed as open exactly while its status on record
    -- is not terminal; its filled quantity is the sum of the fills reported for it, and at most
    -- its quantity; no order is on record under an id not yet given; and each symbol's net
    -- quantity is the signed sum of the fills reported for it.
    pub Reach-IsValid : (clock : Clock) {v : PaperVenue} → Reach clock v → IsValid v
    Reach-IsValid clock start = new-IsValid clock
    Reach-IsValid clock (next r st) = Step-IsValid st (Reach-IsValid clock r)
