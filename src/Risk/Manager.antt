-- ===== src/Risk/Manager.antt =====
-- src/trading/risk/default.py: the manager that evaluates the breakers, before each intent and on
-- each tick. The subscribers of BreakerTripped change no breaker, so the events of a tick are listed.
pub mod Gate
use claude_trade_teams.Base.{Option, none, some, List, [], ◌∷◌, ◌>>=◌}
use claude_trade_teams.Base.Decimal.{Context}
use claude_trade_teams.Domain.{
  Position, Balance, Order, RiskContext, Trigger, Decision, BreakerTripped, Time,
}
use claude_trade_teams.Clock.{Clock, now}
use claude_trade_teams.Risk.Breaker.{Breaker, evaluate}

-- What the managers of positions and of orders answer to the questions of `_build_context`, `none`
-- where the call raises: `balance()` does if it asks the venue and the venue raises.
pub record Answers : Type 0 where
  pub positions : Option (List Position)
  pub balance : Option Balance
  pub open_orders : Option (List Order)

-- `_build_context`, which raises with the first question that raises
unfoldable pub build_context : Answers → Clock → Option (RiskContext × Clock)
build_context answers clock = do
  positions ← answers.positions
  balance ← answers.balance
  open_orders ← answers.open_orders
  some (
    record {
      now = (now clock).0;
      positions = positions;
      balance = balance;
      open_orders = open_orders;
      funding_rates = [];
    },
    (now clock).1,
  )

-- `Rejected(reason=trigger.reason, breaker_name=trigger.breaker_name)`
abbrev pub rejection : Trigger → Decision
rejection t = Decision.rejected t.reason (some t.breaker_name)

-- the `BreakerTripped` of a trigger
abbrev pub tripped : Trigger → Time → BreakerTripped
tripped t at = record {
  breaker_name = t.breaker_name;
  action = t.action;
  reason = t.reason;
  timestamp = at;
}

module _ (c : Context) where
  -- the loop of `check`, with the breakers that it leaves; the ones after the first trigger are not
  -- evaluated
  unfoldable pub decide : List Breaker → RiskContext → Option (Decision × List Breaker)
  decide [] context = some (Decision.approved, [])
  decide (b ∷ bs) context =
      let rest = decide bs context in
      elim (evaluate c b context) [
        | none ↦ none
        | some (none, b') ↦ elim rest [
          | none ↦ none
          | some (decision, bs') ↦ some (decision, b' ∷ bs')
        ]
        | some (some t, b') ↦ some (rejection t, b' ∷ bs)
      ]

  -- the loop of `tick`: every breaker is evaluated, and each trigger is published
  unfoldable pub publish_trips :
      List Breaker → RiskContext → Clock → Option (List BreakerTripped × List Breaker × Clock)
  publish_trips [] context clock = some ([], [], clock)
  publish_trips (b ∷ bs) context clock = elim (evaluate c b context) [
    | none ↦ none
    | some (none, b') ↦ elim (publish_trips bs context clock) [
      | none ↦ none
      | some (events, bs', clock') ↦ some (events, b' ∷ bs', clock')
    ]
    | some (some t, b') ↦ elim (publish_trips bs context (now clock).1) [
      | none ↦ none
      | some (events, bs', clock') ↦ some (tripped t (now clock).0 ∷ events, b' ∷ bs', clock')
    ]
  ]

  -- `check`, with the breakers and the clock that it leaves; `none` if it raises, which no breaker
  -- does
  unfoldable pub check : Answers → List Breaker × Clock → Option Decision × List Breaker × Clock
  check answers (bs, clock) = elim (build_context answers clock) [
    | none ↦ (none, bs, clock)
    | some (context, clock') ↦ elim (decide bs context) [
      | none ↦ (none, bs, clock')
      | some (decision, bs') ↦ (some decision, bs', clock')
    ]
  ]

  -- `tick`, with the events that it publishes; `none` if it raises, which no breaker does
  unfoldable pub tick :
      Answers → List Breaker × Clock → Option (List BreakerTripped) × List Breaker × Clock
  tick answers (bs, clock) = elim (build_context answers clock) [
    | none ↦ (none, bs, clock)
    | some (context, clock') ↦ elim (publish_trips bs context clock') [
      | none ↦ (none, bs, clock')
      | some (events, bs', clock'') ↦ (some events, bs', clock'')
    ]
  ]
