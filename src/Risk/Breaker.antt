-- ===== src/Risk/Breaker.antt =====
-- src/trading/risk/breakers/base.py: any of the breakers, evaluated.
use claude_trade_teams.Base.{◌≡◌, refl, Option, none, some, List, Option-cases, inl, inr}
use claude_trade_teams.Base.Decimal.{Context}
use claude_trade_teams.Domain.{Symbol, RiskContext, Trigger}
use claude_trade_teams.Risk.Limits.{
  LimitBreaker, evaluate_leverage, evaluate_notional, evaluate_distance, evaluate_funding,
}
use claude_trade_teams.Risk.Drawdown
use claude_trade_teams.Risk.Errors
use claude_trade_teams.Risk.Cooldown
use claude_trade_teams.Risk.Silence
use claude_trade_teams.Risk.Drawdown.Peak.{evaluate-total}

pub data Breaker : Type 0 where
  leverage : LimitBreaker → Breaker
  position_notional : LimitBreaker → Breaker
  liquidation_distance : LimitBreaker → Breaker
  funding_spike : LimitBreaker → Option (List Symbol) → Breaker
  drawdown : Drawdown.DrawdownBreaker → Breaker
  consecutive_error : Errors.ConsecutiveErrorBreaker → Breaker
  rate_limit : Cooldown.RateLimitBreaker → Breaker
  heartbeat : Silence.HeartbeatBreaker → Breaker

-- `breaker.evaluate(context)`, with the breaker that is left; `none` if it raises
unfoldable pub evaluate : Context → Breaker → RiskContext → Option (Option Trigger × Breaker)
evaluate c (leverage b) context = some (evaluate_leverage b context, leverage b)
evaluate c (position_notional b) context = some (evaluate_notional c b context, position_notional b)
evaluate c (liquidation_distance b) context =
    some (evaluate_distance c b context, liquidation_distance b)
evaluate c (funding_spike b symbols) context =
    some (evaluate_funding b symbols context, funding_spike b symbols)
evaluate c (drawdown b) context = elim (Drawdown.evaluate c b context) [
  | none ↦ none
  | some r ↦ some (r.0, drawdown r.1)
]
evaluate c (consecutive_error b) context =
    let r = Errors.evaluate b context in some (r.0, consecutive_error r.1)
evaluate c (rate_limit b) context =
    let r = Cooldown.evaluate b context in some (r.0, rate_limit r.1)
evaluate c (heartbeat b) context = some (Silence.evaluate b context, heartbeat b)

-- No breaker raises when it is evaluated.
pub evaluate-returns :
    (c : Context) (b : Breaker) (context : RiskContext)
    → (r : Option Trigger × Breaker) × (evaluate c b context ≡ some r)
unfolding evaluate
evaluate-returns c (leverage b) context = ((evaluate_leverage b context, leverage b), refl)
evaluate-returns c (position_notional b) context =
    ((evaluate_notional c b context, position_notional b), refl)
evaluate-returns c (liquidation_distance b) context =
    ((evaluate_distance c b context, liquidation_distance b), refl)
evaluate-returns c (funding_spike b symbols) context =
    ((evaluate_funding b symbols context, funding_spike b symbols), refl)
evaluate-returns c (drawdown b) context = elim (Option-cases (Drawdown.evaluate c b context)) [
  | inl e ↦ elim (evaluate-total c b context e) [ ]
  | inr (r, e) ↦ ((r.0, drawdown r.1), rw (evaluate, e) refl)
]
evaluate-returns c (consecutive_error b) context =
    (((Errors.evaluate b context).0, consecutive_error (Errors.evaluate b context).1), refl)
evaluate-returns c (rate_limit b) context =
    (((Cooldown.evaluate b context).0, rate_limit (Cooldown.evaluate b context).1), refl)
evaluate-returns c (heartbeat b) context = ((Silence.evaluate b context, heartbeat b), refl)
