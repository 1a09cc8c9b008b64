-- ===== src/Runtime/Main/Logging.antt =====
-- The alerts of a session of src/trading/runtime/main.py, which has one channel, the log.
use claude_trade_teams.Base.{ℕ, ◌≡◌, refl, List, [], ◌∷◌}
use claude_trade_teams.Domain.{Alert, AlertLevel}
use claude_trade_teams.Alerts.{alert}
use claude_trade_teams.Alerts.Log.{LogRecord, send}
use claude_trade_teams.Runtime.Main.{alert_router}

-- Every alert of a session, whatever its level, is written to the log once.
pub alert-alert_router :
    (channel : ℕ) (a : Alert) (records : List LogRecord)
    → alert (λ _. send) a (alert_router channel) records ≡ (channel ∷ [], (send a records).1)
unfolding alert
alert-alert_router channel a records = go a.level
  where
    go :
        (level : AlertLevel)
        → alert (λ _. send) (record a { level = level }) (alert_router channel) records
          ≡ (channel ∷ [], (send (record a { level = level }) records).1)
    go AlertLevel.info = refl
    go AlertLevel.warn = refl
    go AlertLevel.alert = refl
    go AlertLevel.critical = refl
