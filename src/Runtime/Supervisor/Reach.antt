-- ===== src/Runtime/Supervisor/Reach.antt =====
-- What src/trading/runtime/supervisor/default.py keeps over any sequence of calls.
use claude_trade_teams.Base.{◌≡◌, refl, some, List, [], ◌∷◌, length}
use claude_trade_teams.Domain.{SystemState, BreakerTripped, TriggerAction}
use claude_trade_teams.Runtime.Supervisor.Actions.{
  Call, publish, reconcile, cancel_all, risk_tick, Supervisor, World, ◌then_do◌, attempt, call,
}
use claude_trade_teams.Runtime.Supervisor.Methods.{
  on_breaker_tripped, deliver, tick_risk, heartbeat_of, tick,
}
use claude_trade_teams.Runtime.Supervisor.Run.{
  Op, op_start, op_stop, op_quarantine, op_acknowledge, op_breaker, op_tick, perform, run,
}
use claude_trade_teams.Runtime.Supervisor.Triples.{
  start-IsLogged, stop-IsLogged, quarantine-IsLogged, acknowledge-IsLogged,
}
use claude_trade_teams.Runtime.Supervisor.Edges.{
  IsLogged, IsPath, changes, changes_of, attempt-Triple,
}

module _ (w : World) where
  call-IsLogged :
      (k : Call) (s : Supervisor) → changes_of k ≡ [] → IsLogged s → IsLogged (call w k s).1
  unfolding call attempt
  call-IsLogged k s e h = ((attempt-Triple w k s.state e).ends s (refl, h)).1

  on_breaker_tripped-IsLogged :
      (event : BreakerTripped) (s : Supervisor)
      → IsLogged s
      → IsLogged (on_breaker_tripped w event s).1
  unfolding on_breaker_tripped attempt ◌then_do◌
  on_breaker_tripped-IsLogged event s h = go event.action
    where
      dispatched : TriggerAction → BreakerTripped
      dispatched action = record event { action = action }

      go : (action : TriggerAction) → IsLogged (on_breaker_tripped w (dispatched action) s).1
      go TriggerAction.reject_new = h
      go TriggerAction.cancel_all = call-IsLogged cancel_all s refl h
      go TriggerAction.quarantine = quarantine-IsLogged w event.reason (some event.breaker_name) s h
      go TriggerAction.flatten =
          quarantine-IsLogged w event.reason (some event.breaker_name) (call w cancel_all s).1
            (call-IsLogged cancel_all s refl h)

  deliver-IsLogged :
      (events : List BreakerTripped) (s : Supervisor) → IsLogged s → IsLogged (deliver w events s)
  unfolding deliver attempt
  deliver-IsLogged [] s h = h
  deliver-IsLogged (e ∷ es) s h =
      deliver-IsLogged es (on_breaker_tripped w e s).1 (on_breaker_tripped-IsLogged e s h)

  tick-IsLogged : (s : Supervisor) → IsLogged s → IsLogged (tick w s)
  unfolding tick tick_risk
  tick-IsLogged s h =
      let beat = call-IsLogged (publish (heartbeat_of w s)) s refl h in
      let s1 : Supervisor = (call w (publish (heartbeat_of w s)) s).1 in
      let s2 : Supervisor = (call w reconcile s1).1 in
      let fresh = call-IsLogged reconcile s1 refl beat in
      deliver-IsLogged (w.trips (length s2.calls)) (call w risk_tick s2).1
        (call-IsLogged risk_tick s2 refl fresh)

  perform-IsLogged : (op : Op) (s : Supervisor) → IsLogged s → IsLogged (perform w op s)
  unfolding perform
  perform-IsLogged op_start s h = start-IsLogged w s h
  perform-IsLogged (op_stop drain) s h = stop-IsLogged w drain s h
  perform-IsLogged (op_quarantine reason name) s h = quarantine-IsLogged w reason name s h
  perform-IsLogged op_acknowledge s h = acknowledge-IsLogged w s h
  perform-IsLogged (op_breaker event) s h = on_breaker_tripped-IsLogged event s h
  perform-IsLogged op_tick s h = tick-IsLogged s h

  -- Whatever methods are called, in whatever order, and whichever calls on the components raise, the
  -- changes of state that the supervisor writes lead from BOOTING to its state, one after the other
  -- along the arrows.
  pub run-IsPath :
      (ops : List Op) (s : Supervisor)
      → IsPath SystemState.booting (changes s.calls) s.state
      → IsPath SystemState.booting (changes (run w ops s).calls) (run w ops s).state
  unfolding run
  run-IsPath [] s h = h
  run-IsPath (op ∷ ops) s h = run-IsPath ops (perform w op s) (perform-IsLogged op s h)
