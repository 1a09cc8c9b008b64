-- ===== src/Examples/GateCases.antt =====
-- The theorems on src/trading/risk/default.py at concrete inputs.
use claude_trade_teams.Base.{◌≡◌, refl, none, some, List, [], ◌∷◌}
use claude_trade_teams.Base.Decimal.{whole}
use claude_trade_teams.Clock.{now}
use claude_trade_teams.Domain.{Decision}
use claude_trade_teams.Risk.Limits
use claude_trade_teams.Risk.Limits.{evaluate_leverage}
use claude_trade_teams.Risk.Breaker.{Breaker, evaluate}
use claude_trade_teams.Risk.Manager.{build_context, decide, check}
use claude_trade_teams.Risk.Manager.Gate.{first_verdict, decision_of, check-decides}
use claude_trade_teams.Examples.Data.{
  ticking, context_of, answers_of, limit_of, drawdown_breaker, heartbeat_breaker,
}

abbrev gate : List Breaker
gate =
    Breaker.heartbeat heartbeat_breaker
    ∷ Breaker.leverage (limit_of 1)
    ∷ Breaker.drawdown drawdown_breaker
    ∷ []

check-decides_example :
    (after : List Breaker) × (check whole (answers_of 80) (gate, ticking) ≡ (
      some (decision_of whole (context_of 80) (first_verdict whole (context_of 80) gate)),
      after,
      (now ticking).1,
    ))
unfolding build_context
check-decides_example = check-decides whole (answers_of 80) gate ticking

abbrev quiet_gate : List Breaker
quiet_gate = Breaker.leverage (limit_of 3) ∷ []

quiet :
    check whole (answers_of 80) (quiet_gate, ticking)
    ≡ (some Decision.approved, quiet_gate, (now ticking).1)
unfolding check build_context decide evaluate evaluate_leverage Limits.check_leverage
quiet = refl

-- Without a balance the gate raises.
unanswered :
    check whole (record (answers_of 80) { balance = none }) (quiet_gate, ticking)
    ≡ (none, quiet_gate, ticking)
unfolding check build_context
unanswered = refl
