-- ===== src/Idle.antt =====
-- The null components (src/trading/oms/null.py, pms/null.py, risk/null.py, venues/null.py): stand-ins
-- of the entry point that never trade. The calls that do nothing have no definition.
pub mod Quiet
use claude_trade_teams.Base.{ℕ, Bool, false, Option, none, some, List, []}
use claude_trade_teams.Base.Decimal.{pos}
use claude_trade_teams.Clock.{Clock, now}
use claude_trade_teams.Domain.{
  Symbol, OrderId, OrderRequest, Order, TradeIntent, SubmitResult, Decision, Reason, Position,
  Balance, VenueEvent,
}
use claude_trade_teams.Oms.Submit.{Venue, Placement, raised}

-- the balance of `NullPositionManager` and of `NullVenue`
abbrev pub zero_balance : ℕ → Clock → Balance × Clock
zero_balance currency clock =
    let (time, clock') = now clock in
    (
      record {
        currency = currency;
        total = pos 0;
        available = pos 0;
        margin_used = pos 0;
        updated_at = time;
      },
      clock',
    )

-- `NullVenue`: `place_order` raises, with a text of its own.
abbrev pub null_venue : ℕ → Venue Clock
null_venue text = record {
  place_order = λ request clock. (raised (Reason.free_text text), [], clock);
  cancel_order = λ order_id clock. (some false, [], clock);
}

abbrev pub venue_get_order : OrderId → Option Order
venue_get_order order_id = none

abbrev pub venue_get_open_orders : Option Symbol → List Order
venue_get_open_orders symbol = []

abbrev pub venue_get_positions : List Position
venue_get_positions = []

abbrev pub venue_get_balance : ℕ → Clock → Balance × Clock
venue_get_balance = zero_balance

-- `NullOrderManager`, with the text of its rejection
abbrev pub oms_submit : ℕ → TradeIntent → SubmitResult
oms_submit text intent = SubmitResult.venue_rejected (Reason.free_text text)

abbrev pub oms_cancel : OrderId → Bool
oms_cancel order_id = false

abbrev pub oms_cancel_all : Option Symbol → ℕ
oms_cancel_all symbol = 0

abbrev pub oms_get_order : OrderId → Option Order
oms_get_order order_id = none

abbrev pub oms_open_orders : Option Symbol → List Order
oms_open_orders symbol = []

-- `NullPositionManager`
abbrev pub pms_positions : List Position
pms_positions = []

abbrev pub pms_position : Symbol → Option Position
pms_position symbol = none

abbrev pub pms_balance : ℕ → Clock → Balance × Clock
pms_balance = zero_balance

-- `NullRiskManager.check`
abbrev pub risk_check : TradeIntent → Decision
risk_check intent = Decision.approved
