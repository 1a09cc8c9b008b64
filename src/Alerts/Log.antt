-- ===== src/Alerts/Log.antt =====
-- src/trading/alerts/channels/log.py: the channel that writes to a logger.
use claude_trade_teams.Base.{ℕ, List, [], ◌∷◌, ◌++◌}
use claude_trade_teams.Domain.{Alert, AlertLevel, Reason}
use claude_trade_teams.Runtime.Supervisor.Actions.{Exit, returned}

-- the levels of the logging module that the channel uses
pub data LogLevel : Type 0 where
  info warning error critical : LogLevel

-- `_LEVEL_MAP`
abbrev pub level_map : AlertLevel → LogLevel
level_map AlertLevel.info = info
level_map AlertLevel.warn = warning
level_map AlertLevel.alert = error
level_map AlertLevel.critical = critical

-- what the logger is given
pub record LogRecord : Type 0 where
  pub level : LogLevel
  pub component : ℕ
  pub message : Reason

-- `send`
abbrev pub send : Alert → List LogRecord → Exit × List LogRecord
send alert records = (
  returned,
  records
      ++ record {
        level = level_map alert.level;
        component = alert.component;
        message = alert.message;
      }
        ∷ [],
)
