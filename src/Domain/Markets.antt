-- ===== src/Domain/Markets.antt =====
-- src/trading/domain/market_data.py and funding.py: price levels, books and public trades.
use claude_trade_teams.Base.{ℕ, Option, List, head?}
use claude_trade_teams.Base.Decimal.{Decimal}
use claude_trade_teams.Domain.Orders.{Symbol, Time, OrderSide}

pub record Level : Type 0 where
  pub price : Decimal
  pub quantity : Decimal

pub record OrderbookSnapshot : Type 0 where
  pub symbol : Symbol
  pub bids : List Level
  pub asks : List Level
  pub sequence : ℕ
  pub timestamp : Time

abbrev pub best_bid : OrderbookSnapshot → Option Level
best_bid book = head? book.bids

abbrev pub best_ask : OrderbookSnapshot → Option Level
best_ask book = head? book.asks

pub record Trade : Type 0 where
  pub symbol : Symbol
  pub price : Decimal
  pub quantity : Decimal
  pub side : OrderSide
  pub timestamp : Time

pub record FundingRate : Type 0 where
  pub symbol : Symbol
  pub rate : Decimal
  pub predicted_rate : Option Decimal
  pub next_funding_time : Time
  pub timestamp : Time
