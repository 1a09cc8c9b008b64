-- ===== src/Clock.antt =====
-- src/trading/clock/base.py: a clock is a source of readings. Nothing is assumed of them, since
-- the wall clock may be set back.
use claude_trade_teams.Base.{ℕ, suc}
use claude_trade_teams.Domain.{Time}

pub record Clock : Type 0 where
  pub readings : ℕ → Time
  pub used : ℕ

-- `clock.now()`: the next reading
unfoldable pub now : Clock → Time × Clock
now clock = (clock.readings clock.used, record clock { used = suc clock.used })
