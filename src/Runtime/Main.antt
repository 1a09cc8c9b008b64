-- ===== src/Runtime/Main.antt =====
-- src/trading/runtime/main.py: the parts that `build_supervisor` configures, `_main_async` and `run`.
-- The command line is parsed and the signal handlers are installed before.
pub mod Spared
pub mod Session
pub mod Logging
pub mod Rounds
pub mod Calm
use claude_trade_teams.Base.{ℕ, zero, suc, ◌*◌, true, Option, none, some, List, [], ◌∷◌}
use claude_trade_teams.Base.Decimal.{Decimal}
use claude_trade_teams.Domain.{AlertLevel, TriggerAction}
use claude_trade_teams.Alerts.{Router, register}
use claude_trade_teams.Risk.Breaker.{Breaker}
use claude_trade_teams.Risk.Drawdown
use claude_trade_teams.Risk.Silence
use claude_trade_teams.Runtime.Supervisor.Actions
use claude_trade_teams.Runtime.Supervisor.Actions.{
  Supervisor, World, Action, Exit, returned, raised, ◌then_do◌, attempt,
}
use claude_trade_teams.Runtime.Supervisor.Methods.{start, stop, tick}

-- a second, in microseconds
abbrev pub second : ℕ
second = 1000000

-- the breakers of `build_supervisor`, with the value of `Decimal("0.05")` and the names of the
-- supervisor and of the two breakers
unfoldable pub breakers : Decimal → ℕ → ℕ → ℕ → Option (List Breaker)
breakers five_percent supervisor drawdown_name heartbeat_name =
    elim (Drawdown.new five_percent (86400 * second) TriggerAction.flatten drawdown_name) [
      | none ↦ none
      | some b ↦
          let silence =
            Silence.new (supervisor ∷ []) (10 * second) TriggerAction.quarantine heartbeat_name in
          some (Breaker.drawdown b ∷ Breaker.heartbeat silence ∷ [])
    ]

-- the router of `build_supervisor`, with the number of its `LogChannel`
abbrev pub alert_router : ℕ → Router
alert_router log_channel =
    register log_channel
      (AlertLevel.info ∷ AlertLevel.warn ∷ AlertLevel.alert ∷ AlertLevel.critical ∷ []) []

-- How the wait for `stop_event` ends: a signal handler sets it, or, where no handler can be
-- installed, a KeyboardInterrupt cancels the wait.
pub data Ending : Type 0 where
  signalled interrupted : Ending

-- How `run` ends: with an exit code, or with the exception of `supervisor.start()`.
pub data Outcome : Type 0 where
  exited : ℕ → Outcome
  crashed : Outcome

module _ (w : World) where
  -- the rounds of the supervisor's loop during the wait
  unfoldable pub idle : ℕ → Action
  idle zero s = (returned, s)
  idle (suc rounds) s = idle rounds (tick w s)

  -- `_main_async`, from `supervisor.start()` on
  unfoldable pub main_async : ℕ → Action
  main_async rounds = start w then_do idle rounds then_do attempt (stop w true)

  -- `run`
  unfoldable pub run : ℕ → Ending → Outcome × Supervisor
  run rounds ending =
      let (exit, s) = main_async rounds Actions.new in
      (
        elim exit [
          | raised ↦ crashed
          | returned ↦ elim ending [ signalled ↦ exited 0 | interrupted ↦ exited 130 ]
        ],
        s,
      )
