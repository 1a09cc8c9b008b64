-- ===== src/Runtime/Supervisor/Run.antt =====
-- Sequences of calls of src/trading/runtime/supervisor/default.py, and what all of them keep.
use claude_trade_teams.Base.{ℕ, Bool, Option, List, [], ◌∷◌}
use claude_trade_teams.Domain.{BreakerTripped, Reason}
use claude_trade_teams.Runtime.Supervisor.Actions.{Supervisor, World}
use claude_trade_teams.Runtime.Supervisor.Methods.{
  start, stop, quarantine, acknowledge, on_breaker_tripped, tick,
}

-- A call of a method of the supervisor, or a round of its loop.
pub data Op : Type 0 where
  op_start : Op
  op_stop : Bool → Op
  op_quarantine : Reason → Option ℕ → Op
  op_acknowledge : Op
  op_breaker : BreakerTripped → Op
  op_tick : Op

module _ (w : World) where
  unfoldable pub perform : Op → Supervisor → Supervisor
  perform op_start s = (start w s).1
  perform (op_stop drain) s = (stop w drain s).1
  perform (op_quarantine reason name) s = (quarantine w reason name s).1
  perform op_acknowledge s = (acknowledge w s).1
  perform (op_breaker event) s = (on_breaker_tripped w event s).1
  perform op_tick s = tick w s

  unfoldable pub run : List Op → Supervisor → Supervisor
  run [] s = s
  run (op ∷ ops) s = run ops (perform op s)
