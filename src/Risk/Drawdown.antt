-- ===== src/Risk/Drawdown.antt =====
-- src/trading/risk/breakers/drawdown.py: the latching breaker on the loss from the peak.
pub mod Latch
pub mod Peak
use claude_trade_teams.Base.{
  ℕ, ◌-◌, ◌≤◌, ◌≡◌, refl, Bool, true, false, if◌then◌else◌, leb, Option, none, some, List, [], ◌∷◌,
  ◌++◌, All, keep, arith, Bool-cases, inl, inr,
}
use claude_trade_teams.Base.Decimal.{Decimal, Context, pos, ◌-ℤ◌, ◌≤ℤ◌, ◌<ℤ◌, ltb_ℤ, leb_ℤ}
use claude_trade_teams.Domain.{
  Time, RiskContext, Trigger, TriggerAction, Reason, SystemState, SystemStateChanged,
}

pub record DrawdownBreaker : Type 0 where
  pub threshold : Decimal
  pub window : ℕ
  pub action : TriggerAction
  pub name : ℕ
  pub equity_history : List (Time × Decimal)
  pub latched : Bool
  pub latched_reason : Reason

-- the constructor, which raises where the threshold is not positive
unfoldable pub new : Decimal → ℕ → TriggerAction → ℕ → Option DrawdownBreaker
new threshold window action name =
    if leb_ℤ threshold (pos 0)
    then none
    else some (record {
      threshold = threshold;
      window = window;
      action = action;
      name = name;
      equity_history = [];
      latched = false;
      latched_reason = Reason.empty;
    })

-- `event.old_state == SystemState.QUARANTINE and event.new_state == SystemState.RECONCILING`
abbrev pub is_acknowledge : SystemState → SystemState → Bool
is_acknowledge SystemState.quarantine SystemState.reconciling = true
is_acknowledge _ _ = false

-- `_on_state_change`
unfoldable pub on_state_change : SystemStateChanged → DrawdownBreaker → DrawdownBreaker
on_state_change event b =
    if is_acknowledge event.old_state event.new_state
    then record b { latched = false; latched_reason = Reason.empty; equity_history = [] }
    else b

-- `[(t, e) for t, e in history if t >= cutoff]`
unfoldable pub prune : Time → List (Time × Decimal) → List (Time × Decimal)
prune cutoff history = keep (λ e. leb cutoff e.0) history

unfoldable pub larger : Decimal → Decimal → Decimal
larger a b = if ltb_ℤ a b then b else a

-- `max` of the equities of a history that starts with `first`
unfoldable pub peak_from : Decimal → List (Time × Decimal) → Decimal
peak_from first [] = first
peak_from first ((_, e) ∷ rest) = peak_from (larger first e) rest

-- `max(e for _, e in history)`, which raises on an empty history
unfoldable pub peak_of : List (Time × Decimal) → Option Decimal
peak_of [] = none
peak_of ((_, e) ∷ rest) = some (peak_from e rest)

-- the history with the current equity recorded and the old entries pruned
unfoldable pub recorded : DrawdownBreaker → RiskContext → List (Time × Decimal)
recorded b context =
    prune (context.now - b.window) (b.equity_history ++ ((context.now, context.balance.total) ∷ []))

module _ (c : Context) where
  -- `(peak - equity) / peak`
  abbrev pub drawdown_from : Decimal → Decimal → Decimal
  drawdown_from peak equity = c.over (peak -ℤ equity) peak

  -- the comparison of the current equity with the peak
  unfoldable pub judge : DrawdownBreaker → Decimal → Decimal → Option Trigger × DrawdownBreaker
  judge b peak equity =
      if leb_ℤ peak (pos 0)
      then (none, b)
      else if ltb_ℤ b.threshold (drawdown_from peak equity)
      then (
        some (record {
          breaker_name = b.name;
          action = b.action;
          reason = Reason.drawdown_of (drawdown_from peak equity) peak equity b.threshold;
        }),
        record b {
          latched = true;
          latched_reason = Reason.drawdown_of (drawdown_from peak equity) peak equity b.threshold;
        },
      )
      else (none, b)

  -- `evaluate`; `max` raises on an empty history: the outer `none`
  unfoldable pub evaluate :
      DrawdownBreaker → RiskContext → Option (Option Trigger × DrawdownBreaker)
  evaluate b context =
      if b.latched
      then some (
        some (record {
          breaker_name = b.name;
          action = b.action;
          reason = Reason.latched b.latched_reason;
        }),
        b,
      )
      else elim (peak_of (recorded b context)) [
        | none ↦ none
        | some peak ↦
            some
              (judge (record b { equity_history = recorded b context }) peak context.balance.total)
      ]

-- What reaches the breaker: an evaluation, or a change of the system's state.
pub data Input : Type 0 where
  evaluation : RiskContext → Input
  change : SystemStateChanged → Input

module _ (c : Context) where
  -- the breaker after one input; an evaluation that raises leaves it as it was
  unfoldable pub react : DrawdownBreaker → Input → DrawdownBreaker
  react b (evaluation context) = elim (evaluate c b context) [ none ↦ b | some (_, after) ↦ after ]
  react b (change event) = on_state_change event b

  unfoldable pub run : DrawdownBreaker → List Input → DrawdownBreaker
  run b [] = b
  run b (i ∷ inputs) = run (react b i) inputs
