-- ===== src/Runtime/Supervisor/Methods.antt =====
-- src/trading/runtime/supervisor/default.py: the methods of the supervisor. Each runs to its end
-- before the next one starts.
use claude_trade_teams.Base.{
  ℕ, Bool, true, false, if◌then◌else◌, Option, some, List, [], ◌∷◌, length, ◌||◌,
}
use claude_trade_teams.Domain.{
  SystemState, BreakerTripped, Event, TriggerAction, Reason, Alert, AlertLevel,
}
use claude_trade_teams.Runtime.Supervisor.Actions.{
  Component, order_journal, account_journal, event_log, alert_log, alert_router, event_bus, oms,
  pms, venue, market_data, start_of, stop_of, subscribe, publish, get_open_orders, get_positions,
  get_balance, reconcile, cancel_all, risk_tick, send_alert, Supervisor, World, Action, same_state,
  ◌then_do◌, attempt, skip, fail, call, transition, returned,
}

module _ (w : World) where
  abbrev pub start_if : Bool → Component → Action
  start_if is_lifecycle component = if is_lifecycle then call w (start_of component) else skip

  -- the bus, its flag and its subscription
  abbrev pub open_bus : Action
  open_bus =
      call w (start_of event_bus) then_do (λ s. call w subscribe (record s { bus_running = true }))

  -- the steps of `start` before the state changes
  abbrev pub start_infrastructure : Action
  start_infrastructure =
      call w (start_of order_journal)
      then_do call w (start_of account_journal)
      then_do call w (start_of event_log)
      then_do call w (start_of alert_log)
      then_do call w (start_of alert_router)
      then_do open_bus

  -- the steps of `start` in RECONCILING
  abbrev pub start_trading : Action
  start_trading =
      start_if w.oms_is_lifecycle oms
      then_do start_if w.pms_is_lifecycle pms
      then_do call w (start_of venue)
      then_do call w (start_of market_data)
      then_do call w get_open_orders
      then_do call w get_positions
      then_do call w get_balance
      then_do call w reconcile

  abbrev pub start_ticking : Action
  start_ticking s = (returned, record s { tick_task = true })

  abbrev pub boot_up : Action
  boot_up =
      start_infrastructure
      then_do transition w SystemState.reconciling (Reason.free_text 0)
      then_do start_trading
      then_do transition w SystemState.running (Reason.free_text 1)
      then_do start_ticking

  -- `start`
  unfoldable pub start : Action
  start s = if same_state s.state SystemState.booting then boot_up s else fail s

  -- `_safe_stop`
  abbrev pub safe_stop : Component → Action
  safe_stop component = attempt (call w (stop_of component))

  abbrev pub stop_if : Bool → Component → Action
  stop_if is_lifecycle component = if is_lifecycle then safe_stop component else skip

  abbrev pub cancel_ticking : Action
  cancel_ticking s = (returned, record s { tick_task = false })

  abbrev pub close_bus : Action
  close_bus s = safe_stop event_bus (record s { bus_running = false })

  abbrev pub cancel_if : Bool → Action
  cancel_if drain = if drain then attempt (call w cancel_all) else skip

  abbrev pub stop_trading : Action
  stop_trading =
      safe_stop market_data
      then_do safe_stop venue
      then_do close_bus
      then_do stop_if w.oms_is_lifecycle oms
      then_do stop_if w.pms_is_lifecycle pms

  abbrev pub stop_persistence : Action
  stop_persistence =
      safe_stop alert_router
      then_do safe_stop alert_log
      then_do safe_stop event_log
      then_do safe_stop account_journal
      then_do safe_stop order_journal

  abbrev pub shut_down : Bool → Action
  shut_down drain =
      cancel_ticking
      then_do transition w SystemState.draining (Reason.free_text (if drain then 3 else 2))
      then_do cancel_if drain
      then_do stop_trading
      then_do transition w SystemState.stopped (Reason.free_text 4)
      then_do stop_persistence

  -- `stop`
  unfoldable pub stop : Bool → Action
  stop drain s =
      if same_state s.state SystemState.stopped || same_state s.state SystemState.draining
      then skip s
      else shut_down drain s

  abbrev pub quarantine_alert : Reason → Option ℕ → Supervisor → Alert
  quarantine_alert reason breaker_name s = record {
    level = AlertLevel.critical;
    component = 0;
    message = Reason.quarantined reason breaker_name;
    timestamp = w.clock (length s.calls);
    correlation_key = breaker_name;
  }

  abbrev pub enter_quarantine : Reason → Option ℕ → Action
  enter_quarantine reason breaker_name =
      attempt (call w cancel_all)
      then_do transition w SystemState.quarantine reason
      then_do (λ s. call w (send_alert (quarantine_alert reason breaker_name s)) s)

  -- `quarantine`, which is ignored outside RUNNING
  unfoldable pub quarantine : Reason → Option ℕ → Action
  quarantine reason breaker_name s =
      if same_state s.state SystemState.running
      then enter_quarantine reason breaker_name s
      else skip s

  abbrev pub leave_quarantine : Action
  leave_quarantine =
      transition w SystemState.reconciling (Reason.free_text 5)
      then_do call w get_open_orders
      then_do call w get_positions
      then_do call w reconcile
      then_do transition w SystemState.running (Reason.free_text 6)

  -- `acknowledge`, which raises outside QUARANTINE
  unfoldable pub acknowledge : Action
  acknowledge s = if same_state s.state SystemState.quarantine then leave_quarantine s else fail s

  -- `_on_breaker_tripped`
  unfoldable pub on_breaker_tripped : BreakerTripped → Action
  on_breaker_tripped event = elim event.action [
    | TriggerAction.reject_new ↦ skip
    | TriggerAction.cancel_all ↦ attempt (call w cancel_all)
    | TriggerAction.quarantine ↦ quarantine event.reason (some event.breaker_name)
    | TriggerAction.flatten ↦
        attempt (call w cancel_all) then_do quarantine event.reason (some event.breaker_name)
  ]

  -- the trips that the bus delivers, whose exceptions it swallows
  unfoldable pub deliver : List BreakerTripped → Supervisor → Supervisor
  deliver [] s = s
  deliver (event ∷ events) s = deliver events (attempt (on_breaker_tripped event) s).1

  -- `risk.tick()`, during which the bus delivers
  unfoldable pub tick_risk : Supervisor → Supervisor
  tick_risk s = deliver (w.trips (length s.calls)) (call w risk_tick s).1

  abbrev pub heartbeat_of : Supervisor → Event
  heartbeat_of s = Event.heartbeat (record { component = 0; timestamp = w.clock (length s.calls) })

  -- one round of `_tick_loop`
  unfoldable pub tick : Supervisor → Supervisor
  tick s = tick_risk (call w reconcile (call w (publish (heartbeat_of s)) s).1).1
