-- ===== src/Domain/Orders.antt =====
-- src/trading/domain/order.py, fill.py, ids.py and submit_result.py: orders, intents, fills and
-- the outcomes of a submission.
use claude_trade_teams.Base.{ℕ, Bool, true, false, Option}
use claude_trade_teams.Base.Decimal.{Decimal}

abbrev pub Symbol : Type 0
Symbol = ℕ

abbrev pub OrderId : Type 0
OrderId = ℕ

abbrev pub ClientOrderId : Type 0
ClientOrderId = ℕ

-- A point in time, in microseconds after the first `datetime`.
abbrev pub Time : Type 0
Time = ℕ

pub data OrderSide : Type 0 where
  buy sell : OrderSide

pub data OrderType : Type 0 where
  market limit stop_market stop_limit : OrderType

pub data TimeInForce : Type 0 where
  gtc ioc fok post_only : TimeInForce

pub data OrderStatus : Type 0 where
  submitted acked partially_filled filled cancelled rejected expired failed : OrderStatus

pub record OrderRequest : Type 0 where
  pub symbol : Symbol
  pub side : OrderSide
  pub type : OrderType
  pub quantity : Decimal
  pub client_order_id : ClientOrderId
  pub price : Option Decimal
  pub time_in_force : TimeInForce
  pub reduce_only : Bool
  pub stop_price : Option Decimal

pub record Order : Type 0 where
  pub order_id : OrderId
  pub client_order_id : ClientOrderId
  pub symbol : Symbol
  pub side : OrderSide
  pub type : OrderType
  pub quantity : Decimal
  pub filled_quantity : Decimal
  pub price : Option Decimal
  pub average_fill_price : Option Decimal
  pub status : OrderStatus
  pub time_in_force : TimeInForce
  pub reduce_only : Bool
  pub created_at : Time
  pub updated_at : Time

-- `reason` is a free text that nothing reads.
pub record TradeIntent : Type 0 where
  pub symbol : Symbol
  pub side : OrderSide
  pub type : OrderType
  pub quantity : Decimal
  pub price : Option Decimal
  pub time_in_force : TimeInForce
  pub reduce_only : Bool
  pub reason : ℕ

pub record Fill : Type 0 where
  pub order_id : OrderId
  pub symbol : Symbol
  pub side : OrderSide
  pub price : Decimal
  pub quantity : Decimal
  pub fee : Decimal
  pub fee_currency : ℕ
  pub is_maker : Bool
  pub timestamp : Time

-- `status not in _TERMINAL_STATUSES`
abbrev pub is_open : OrderStatus → Bool
is_open OrderStatus.submitted = true
is_open OrderStatus.acked = true
is_open OrderStatus.partially_filled = true
is_open OrderStatus.filled = false
is_open OrderStatus.cancelled = false
is_open OrderStatus.rejected = false
is_open OrderStatus.expired = false
is_open OrderStatus.failed = false
