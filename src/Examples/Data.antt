-- ===== src/Examples/Data.antt =====
-- Small books, orders, accounts and breakers that the examples share. Prices are whole numbers.
use claude_trade_teams.Base.{ℕ, ◌+◌, false, none, some, [], ◌∷◌}
use claude_trade_teams.Base.Decimal.{pos}
use claude_trade_teams.Clock.{Clock, now}
use claude_trade_teams.Domain.{
  TriggerAction, Reason, Time, OrderSide, OrderType, OrderStatus, TimeInForce, OrderRequest, Order,
  Fill, TradeIntent, Level, OrderbookSnapshot, PositionSide, Position, Balance, FundingRate,
  RiskContext,
}
use claude_trade_teams.Fill.Engine.{immediate}
use claude_trade_teams.Paper.Venue.{PaperConfig}
use claude_trade_teams.Risk.Manager.{Answers}
use claude_trade_teams.Risk.Limits.{LimitBreaker}
use claude_trade_teams.Risk.Drawdown.{DrawdownBreaker}
use claude_trade_teams.Risk.Silence.{HeartbeatBreaker}

abbrev pub ticking : Clock
ticking = record { readings = λ n. n + 100; used = 0 }

abbrev pub level : ℕ → ℕ → Level
level price quantity = record { price = pos price; quantity = pos quantity }

abbrev pub a_book : OrderbookSnapshot
a_book = record {
  symbol = 7;
  bids = level 99 5 ∷ level 98 10 ∷ [];
  asks = level 101 5 ∷ level 102 10 ∷ [];
  sequence = 1;
  timestamp = 100;
}

abbrev pub buy_request : TimeInForce → ℕ → OrderRequest
buy_request time_in_force limit = record {
  symbol = 7;
  side = OrderSide.buy;
  type = OrderType.limit;
  quantity = pos 3;
  client_order_id = 1;
  price = some (pos limit);
  time_in_force = time_in_force;
  reduce_only = false;
  stop_price = none;
}

abbrev pub market_order : Order
market_order = record {
  order_id = 1;
  client_order_id = 1;
  symbol = 7;
  side = OrderSide.buy;
  type = OrderType.market;
  quantity = pos 8;
  filled_quantity = pos 1;
  price = none;
  average_fill_price = some (pos 100);
  status = OrderStatus.partially_filled;
  time_in_force = TimeInForce.gtc;
  reduce_only = false;
  created_at = 90;
  updated_at = 95;
}

abbrev pub a_fill : Fill
a_fill = record {
  order_id = 1;
  symbol = 7;
  side = OrderSide.buy;
  price = pos 101;
  quantity = pos 2;
  fee = pos 1;
  fee_currency = 0;
  is_maker = false;
  timestamp = 100;
}

abbrev pub an_intent : TradeIntent
an_intent = record {
  symbol = 7;
  side = OrderSide.buy;
  type = OrderType.limit;
  quantity = pos 3;
  price = some (pos 101);
  time_in_force = TimeInForce.gtc;
  reduce_only = false;
  reason = 0;
}

abbrev pub a_position : Position
a_position = record {
  symbol = 7;
  side = PositionSide.long;
  quantity = pos 4;
  entry_price = pos 90;
  mark_price = pos 100;
  unrealized_pnl = pos 40;
  realized_pnl = pos 0;
  leverage = pos 2;
  liquidation_price = some (pos 60);
  updated_at = 90;
}

abbrev pub balance_of : ℕ → Balance
balance_of total = record {
  currency = 0;
  total = pos total;
  available = pos total;
  margin_used = pos 0;
  updated_at = 90;
}

abbrev pub a_rate : FundingRate
a_rate = record {
  symbol = 7;
  rate = pos 2;
  predicted_rate = none;
  next_funding_time = 200;
  timestamp = 90;
}

abbrev pub context_at : Time → ℕ → RiskContext
context_at now total = record {
  now = now;
  positions = a_position ∷ [];
  balance = balance_of total;
  open_orders = [];
  funding_rates = (7, a_rate) ∷ [];
}

-- what the managers answer, by the total of the balance
abbrev pub answers_of : ℕ → Answers
answers_of total = record {
  positions = some (a_position ∷ []);
  balance = some (balance_of total);
  open_orders = some [];
}

-- the context that the risk manager builds of it
abbrev pub context_of : ℕ → RiskContext
context_of total = record (context_at (now ticking).0 total) { funding_rates = [] }

abbrev pub paper_config : PaperConfig
paper_config = record { fill_engine = immediate 0; initial_balance = pos 1000; currency = 0 }

abbrev pub limit_of : ℕ → LimitBreaker
limit_of n = record { limit = pos n; action = TriggerAction.reject_new; name = 1 }

abbrev pub drawdown_breaker : DrawdownBreaker
drawdown_breaker = record {
  threshold = pos 0;
  window = 50;
  action = TriggerAction.flatten;
  name = 2;
  equity_history = (90, pos 100) ∷ [];
  latched = false;
  latched_reason = Reason.empty;
}

abbrev pub heartbeat_breaker : HeartbeatBreaker
heartbeat_breaker = record {
  components = 1 ∷ 2 ∷ [];
  threshold = 5;
  action = TriggerAction.quarantine;
  name = 6;
  last_seen = [];
}
