-- ===== src/Runtime/Main/Rounds.antt =====
-- The rounds of a session of src/trading/runtime/main.py, as its breakers see them: each round publishes
-- a heartbeat of the supervisor, and the risk manager ticks in a context that it builds.
use claude_trade_teams.Base.{ℕ, Option, none, some, List, [], ◌∷◌, ◌++◌, map}
use claude_trade_teams.Base.Decimal.{Context}
use claude_trade_teams.Clock.{Clock}
use claude_trade_teams.Domain.{Time, RiskContext, Heartbeat, BreakerTripped}
use claude_trade_teams.Risk.Breaker.{Breaker}
use claude_trade_teams.Risk.Silence.{on_heartbeat}
use claude_trade_teams.Risk.Manager.{publish_trips}

-- a heartbeat as it reaches a breaker: only one kind of breaker subscribes to them
abbrev pub hear : Heartbeat → Breaker → Breaker
hear h (Breaker.heartbeat b) = Breaker.heartbeat (on_heartbeat h b)
hear h (Breaker.leverage b) = Breaker.leverage b
hear h (Breaker.position_notional b) = Breaker.position_notional b
hear h (Breaker.liquidation_distance b) = Breaker.liquidation_distance b
hear h (Breaker.funding_spike b symbols) = Breaker.funding_spike b symbols
hear h (Breaker.drawdown b) = Breaker.drawdown b
hear h (Breaker.consecutive_error b) = Breaker.consecutive_error b
hear h (Breaker.rate_limit b) = Breaker.rate_limit b

module _ (c : Context) where
  -- the rounds of a session: the heartbeat is heard, then the risk manager ticks; the reconciliation in
  -- between changes no breaker
  unfoldable pub session :
      ℕ
      → List (Time × RiskContext)
      → List Breaker
      → Clock
      → Option (List BreakerTripped × List Breaker × Clock)
  session supervisor [] bs clock = some ([], bs, clock)
  session supervisor ((beat, context) ∷ rounds) bs clock =
      elim (publish_trips c (map (hear (record { component = supervisor; timestamp = beat })) bs)
        context clock) [
          | none ↦ none
          | some (events, bs', clock') ↦ elim (session supervisor rounds bs' clock') [
            | none ↦ none
            | some (more, bs'', clock'') ↦ some (events ++ more, bs'', clock'')
          ]
        ]
