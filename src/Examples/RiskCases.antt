-- ===== src/Examples/RiskCases.antt =====
-- The theorems on src/trading/risk/breakers at concrete inputs.
use claude_trade_teams.Base.{
  ℕ, ◌-◌, ◌≤◌, ◌≡◌, ◌↔◌, refl, true, none, some, List, [], ◌∷◌, All, length, is_some, arith, inl,
}
use claude_trade_teams.Base.Decimal.{whole, over_ℤ, ◌-ℤ◌, pos, ◌<ℤ◌}
use claude_trade_teams.Domain.{
  TriggerAction, Reason, SystemState, SystemStateChanged, ErrorOccurred,
}
use claude_trade_teams.Risk.Limits
use claude_trade_teams.Risk.Limits.{
  LimitBreaker, evaluate_leverage, evaluate_notional, evaluate_distance, evaluate_funding, IsCalm,
  IsFarEnough,
}
use claude_trade_teams.Risk.Drawdown
use claude_trade_teams.Risk.Drawdown.Latch.{evaluate-stays_latched, latched_trigger}
use claude_trade_teams.Risk.Drawdown.Peak.{evaluate-trips_iff, trips, IsPeak}
use claude_trade_teams.Risk.Errors
use claude_trade_teams.Risk.Cooldown
use claude_trade_teams.Examples.Data.{context_at, limit_of, drawdown_breaker}

abbrev tripped_breaker : Drawdown.DrawdownBreaker
tripped_breaker = record drawdown_breaker {
  latched = true;
  latched_reason = Reason.drawdown_of (pos 1) (pos 100) (pos 0) (pos 0);
  equity_history = (90, pos 100) ∷ (100, pos 0) ∷ [];
}

evaluate_distance-eq-none_iff_example :
    (evaluate_distance whole (limit_of 1) (context_at 100 10) ≡ none)
    ↔ All (IsFarEnough whole (pos 1)) (context_at 100 10).positions
evaluate_distance-eq-none_iff_example =
    Limits.evaluate_distance-eq-none_iff whole (limit_of 1) (context_at 100 10)

-- the loss of everything trips it
trips_now :
    Drawdown.evaluate whole drawdown_breaker (context_at 100 0)
    ≡ some (
      some (record {
        breaker_name = 2;
        action = TriggerAction.flatten;
        reason = Reason.drawdown_of (pos 1) (pos 100) (pos 0) (pos 0);
      }),
      tripped_breaker,
    )
unfolding Drawdown.evaluate Drawdown.judge Drawdown.recorded Drawdown.prune Drawdown.peak_of
    Drawdown.peak_from Drawdown.larger over_ℤ ◌-ℤ◌
trips_now = refl

abbrev start_draining : SystemStateChanged
start_draining = record {
  old_state = SystemState.quarantine;
  new_state = SystemState.draining;
  reason = Reason.empty;
  timestamp = 105;
}

abbrev later_inputs : List Drawdown.Input
later_inputs =
    Drawdown.Input.evaluation (context_at 110 500) ∷ Drawdown.Input.change start_draining ∷ []

evaluate-stays_latched_example :
    Drawdown.evaluate whole (Drawdown.run whole tripped_breaker later_inputs) (context_at 300 900)
    ≡ some (some (latched_trigger tripped_breaker), tripped_breaker)
evaluate-stays_latched_example =
    evaluate-stays_latched whole drawdown_breaker tripped_breaker (context_at 100 0)
      (context_at 300 900)
      (record {
        breaker_name = 2;
        action = TriggerAction.flatten;
        reason = Reason.drawdown_of (pos 1) (pos 100) (pos 0) (pos 0);
      })
      later_inputs trips_now (tt, (refl, tt))

IsPeak-now : IsPeak (pos 100) (Drawdown.recorded drawdown_breaker (context_at 100 80))
unfolding Drawdown.recorded Drawdown.prune
IsPeak-now = ((omega arith, (omega arith, tt)), inl refl)

evaluate-trips_iff_example :
    (trips (Drawdown.evaluate whole drawdown_breaker (context_at 100 80)) ≡ true)
    ↔ ((pos 0 <ℤ pos 100) × (pos 0 <ℤ Drawdown.drawdown_from whole (pos 100) (pos 80)))
evaluate-trips_iff_example =
    evaluate-trips_iff whole drawdown_breaker (context_at 100 80) (pos 100) refl IsPeak-now

abbrev error_at : ℕ → ErrorOccurred
error_at at = record { component = 4; message = 0; exception_type = 82 ∷ 65 ∷ []; timestamp = at }

abbrev error_breaker : Errors.ConsecutiveErrorBreaker
error_breaker = record {
  threshold = 2;
  window = 10;
  components = some (4 ∷ []);
  action = TriggerAction.quarantine;
  name = 3;
  error_times = [];
}

abbrev error_inputs : List Errors.Input
error_inputs =
    Errors.Input.error (error_at 80)
    ∷ Errors.Input.error (error_at 95)
    ∷ Errors.Input.evaluation (context_at 99 10)
    ∷ Errors.Input.error (error_at 100)
    ∷ []

run-evaluate_iff_example :
    (is_some (Errors.evaluate (Errors.run error_breaker error_inputs) (context_at 101 10)).0 ≡ true)
    ↔ (2 ≤ length (Errors.since (101 - 10) (Errors.all_errors (some (4 ∷ [])) error_inputs)))
run-evaluate_iff_example =
    Errors.run-evaluate_iff error_breaker error_inputs (context_at 101 10) refl (omega arith, tt)

abbrev rate_breaker : Cooldown.RateLimitBreaker
rate_breaker = record {
  threshold = 1;
  window = 10;
  cooldown = 50;
  matched = 82 ∷ [];
  action = TriggerAction.reject_new;
  name = 5;
  error_times = 99 ∷ [];
  tripped_until = none;
}

abbrev cooling_breaker : Cooldown.RateLimitBreaker
cooling_breaker = record rate_breaker { tripped_until = some 150 }

cools_now : Cooldown.evaluate_fresh rate_breaker (context_at 100 10) ≡ (
  some (record {
    breaker_name = 5;
    action = TriggerAction.reject_new;
    reason = Reason.rate_limited 1 10 50;
  }),
  cooling_breaker,
)
unfolding Cooldown.evaluate_fresh Errors.since
cools_now = refl

abbrev cooling_inputs : List Cooldown.Input
cooling_inputs =
    Cooldown.Input.error (error_at 120) ∷ Cooldown.Input.evaluation (context_at 140 10) ∷ []

evaluate_fresh-cools_example :
    Cooldown.evaluate (Cooldown.run cooling_breaker cooling_inputs) (context_at 149 10) ≡ (
      some (
          Cooldown.cooling_trigger
            (Cooldown.run cooling_breaker cooling_inputs)
            150
            (context_at 149 10)),
      Cooldown.run cooling_breaker cooling_inputs,
    )
evaluate_fresh-cools_example =
    Cooldown.evaluate_fresh-cools rate_breaker cooling_breaker (context_at 100 10)
      (context_at 149 10)
      (record {
        breaker_name = 5;
        action = TriggerAction.reject_new;
        reason = Reason.rate_limited 1 10 50;
      })
      cooling_inputs cools_now (tt, (omega arith, tt)) (omega arith)
