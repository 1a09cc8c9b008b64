-- ===== src/Runtime/Supervisor/Actions.antt =====
-- src/trading/runtime/supervisor/default.py: the supervisor's state and `_transition`. A method is a
-- function of the state that says whether it returns or raises; the components that it awaits are
-- a trace of calls, each of which may raise.
use claude_trade_teams.Base.{ℕ, Bool, true, false, if◌then◌else◌, List, [], ◌∷◌, ◌++◌, length}
use claude_trade_teams.Domain.{
  Time, SystemState, SystemStateChanged, BreakerTripped, Event, Reason, Alert,
}

pub data Component : Type 0 where
  order_journal account_journal event_log alert_log alert_router event_bus : Component
  oms pms venue market_data : Component

-- A call that the supervisor awaits on a component.
pub data Call : Type 0 where
  start_of stop_of : Component → Call
  subscribe : Call
  write : SystemStateChanged → Call
  publish : Event → Call
  get_open_orders get_positions get_balance reconcile cancel_all risk_tick : Call
  send_alert : Alert → Call

pub data Exit : Type 0 where
  returned raised : Exit

pub record Supervisor : Type 0 where
  pub state : SystemState
  pub bus_running : Bool
  pub tick_task : Bool
  pub calls : List Call

-- The components: whether the nth call raises, when it is made, the trips that the bus delivers
-- while `risk.tick()` is the nth call, and whether the managers of orders and positions have a
-- `start` and a `stop`.
pub record World : Type 0 where
  pub raises : ℕ → Call → Bool
  pub clock : ℕ → Time
  pub trips : ℕ → List BreakerTripped
  pub oms_is_lifecycle : Bool
  pub pms_is_lifecycle : Bool

abbrev pub Action : Type 0
Action = Supervisor → Exit × Supervisor

-- equality of the members of `SystemState`
abbrev pub same_state : SystemState → SystemState → Bool
same_state SystemState.booting SystemState.booting = true
same_state SystemState.reconciling SystemState.reconciling = true
same_state SystemState.running SystemState.running = true
same_state SystemState.quarantine SystemState.quarantine = true
same_state SystemState.draining SystemState.draining = true
same_state SystemState.stopped SystemState.stopped = true
same_state _ _ = false

-- A supervisor as its constructor leaves it.
abbrev pub new : Supervisor
new = record { state = SystemState.booting; bus_running = false; tick_task = false; calls = [] }

infixr 30 ◌then_do◌
-- one statement after another; an exception ends both
unfoldable pub ◌then_do◌ : Action → Action → Action
(a then_do b) s = let (exit, s') = a s in elim exit [ returned ↦ b s' | raised ↦ (raised, s') ]

-- `try: ... except Exception: log`
unfoldable pub attempt : Action → Action
attempt a s = (returned, (a s).1)

abbrev pub skip : Action
skip s = (returned, s)

abbrev pub fail : Action
fail s = (raised, s)

module _ (w : World) where
  unfoldable pub call : Call → Action
  call k s = (
    if w.raises (length s.calls) k then raised else returned,
    record s { calls = s.calls ++ k ∷ [] },
  )

  abbrev pub changed : Supervisor → SystemState → Reason → SystemStateChanged
  changed s new_state reason = record {
    old_state = s.state;
    new_state = new_state;
    reason = reason;
    timestamp = w.clock (length s.calls);
  }

  -- the last line of `_transition`
  unfoldable pub publish_if_running : Event → Action
  publish_if_running event s = (if s.bus_running then call (publish event) else skip) s

  -- `_transition`
  unfoldable pub transition : SystemState → Reason → Action
  transition new_state reason s =
      let event = changed s new_state reason in
      (call (write event) then_do publish_if_running (Event.state_changed event))
        (record s { state = new_state })
