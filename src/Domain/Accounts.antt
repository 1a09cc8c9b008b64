-- ===== src/Domain/Accounts.antt =====
-- src/trading/domain/position.py and balance.py: what an account holds.
use claude_trade_teams.Base.{ℕ, Option}
use claude_trade_teams.Base.Decimal.{Decimal}
use claude_trade_teams.Domain.Orders.{Symbol, Time}

pub data PositionSide : Type 0 where
  long short flat : PositionSide

pub record Position : Type 0 where
  pub symbol : Symbol
  pub side : PositionSide
  pub quantity : Decimal
  pub entry_price : Decimal
  pub mark_price : Decimal
  pub unrealized_pnl : Decimal
  pub realized_pnl : Decimal
  pub leverage : Decimal
  pub liquidation_price : Option Decimal
  pub updated_at : Time

pub record Balance : Type 0 where
  pub currency : ℕ
  pub total : Decimal
  pub available : Decimal
  pub margin_used : Decimal
  pub updated_at : Time
