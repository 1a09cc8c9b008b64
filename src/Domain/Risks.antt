-- ===== src/Domain/Risks.antt =====
-- src/trading/domain/trigger.py, decision.py, risk_context.py and alert.py, and the outcomes of
-- src/trading/domain/submit_result.py. A message that the code formats is a `Reason` that carries
-- the formatted values.
use claude_trade_teams.Base.{ℕ, Bool, Option, List}
use claude_trade_teams.Base.Decimal.{Decimal}
use claude_trade_teams.Base.Dict.{Dict}
use claude_trade_teams.Domain.Orders.{Symbol, Time, OrderId, ClientOrderId, Order}
use claude_trade_teams.Domain.Markets.{FundingRate}
use claude_trade_teams.Domain.Accounts.{Position, Balance}

pub data Reason : Type 0 where
  empty : Reason
  free_text : ℕ → Reason
  latched : Reason → Reason
  quarantined : Reason → Option ℕ → Reason
  drawdown_of : Decimal → Decimal → Decimal → Decimal → Reason
  errors_in_window : ℕ → ℕ → ℕ → Reason
  funding_of : Symbol → Decimal → Decimal → Reason
  silent_for : ℕ → ℕ → ℕ → Reason
  leverage_of : Symbol → Decimal → Decimal → Reason
  distance_of : Symbol → Decimal → Decimal → Decimal → Decimal → Reason
  notional_of : Symbol → Decimal → Decimal → Reason
  cooldown_active : ℕ → Reason
  rate_limited : ℕ → ℕ → ℕ → Reason

pub data TriggerAction : Type 0 where
  reject_new cancel_all quarantine flatten : TriggerAction

pub record Trigger : Type 0 where
  pub breaker_name : ℕ
  pub action : TriggerAction
  pub reason : Reason

pub data Decision : Type 0 where
  approved : Decision
  rejected : Reason → Option ℕ → Decision

pub record RiskContext : Type 0 where
  pub now : Time
  pub positions : List Position
  pub balance : Balance
  pub open_orders : List Order
  pub funding_rates : Dict FundingRate

pub data SubmitResult : Type 0 where
  submitted : OrderId → ClientOrderId → SubmitResult
  risk_rejected : Reason → Option ℕ → SubmitResult
  venue_rejected : Reason → SubmitResult
  submission_failed : Reason → Bool → SubmitResult

pub data AlertLevel : Type 0 where
  info warn alert critical : AlertLevel

-- `correlation_key` is `quarantine:…` with the breaker's name, or `quarantine:manual`.
pub record Alert : Type 0 where
  pub level : AlertLevel
  pub component : ℕ
  pub message : Reason
  pub timestamp : Time
  pub correlation_key : Option ℕ
