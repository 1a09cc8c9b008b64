-- ===== src/Examples/RuntimeCases.antt =====
-- The theorems on src/trading/runtime and src/trading/alerts at concrete inputs.
use claude_trade_teams.Base.{
  ℕ, ◌+◌, ◌==◌, if◌then◌else◌, ◌≡◌, ◌⊎◌, All, arith, refl, Bool, true, false, none, some, List, [],
  ◌∷◌, ◌++◌,
}
use claude_trade_teams.Domain.{
  TriggerAction, Reason, SystemState, BreakerTripped, Event, Time, RiskContext,
}
use claude_trade_teams.Journal.EventLog.{EventType}
use claude_trade_teams.Runtime.Supervisor.Actions.{
  Call, cancel_all, write, returned, raised, Supervisor, World, new, transition, ◌then_do◌, call,
  publish_if_running,
}
use claude_trade_teams.Runtime.Supervisor.Methods.{start, stop, acknowledge}
use claude_trade_teams.Runtime.Supervisor.Run.{
  Op, op_start, op_stop, op_quarantine, op_acknowledge, op_breaker, op_tick, run,
}
use claude_trade_teams.Runtime.Supervisor.Edges.{IsPath, changes}
use claude_trade_teams.Runtime.Supervisor.Reach.{run-IsPath}
use claude_trade_teams.Runtime.Supervisor.Quarantine.{run-stays_quarantined}
use claude_trade_teams.Runtime.Supervisor.Shutdown.{stops, shutdown_order, stop-completes}
use claude_trade_teams.Runtime.Supervisor.Stuck.{stuck, stop-stuck}
use claude_trade_teams.Runtime.Supervisor.Acknowledge.{acknowledge-leaves}
use claude_trade_teams.Runtime.Bus
use claude_trade_teams.Runtime.Supervisor.Routine.{Wait, quarantine_routine, acknowledge_routine}
use claude_trade_teams.Runtime.Supervisor.Overlap.{EndsIn, quarantine-stop}
use claude_trade_teams.Runtime.Supervisor.Return.{IsOvertaken, acknowledge-stop}
use claude_trade_teams.Runtime.Main
use claude_trade_teams.Runtime.Main.Session.{run-ends}
use claude_trade_teams.Runtime.Main.Calm.{session-breakers}
use claude_trade_teams.Runtime.Main.Rounds.{session}
use claude_trade_teams.Base.Decimal.{pos, whole}
use claude_trade_teams.Risk.Breaker.{Breaker}
use claude_trade_teams.Examples.Data.{ticking, context_at}

-- the call is `cancel_all`
abbrev is_cancel : Call → Bool
is_cancel cancel_all = true
is_cancel _ = false

-- the call writes to the event log
abbrev is_write : Call → Bool
is_write (write _) = true
is_write _ = false

abbrev a_trip : BreakerTripped
a_trip = record {
  breaker_name = 3;
  action = TriggerAction.flatten;
  reason = Reason.free_text 9;
  timestamp = 100;
}

-- Cancelling always fails, and each tick delivers one trip.
abbrev failing : World
failing = record {
  raises = λ n k. is_cancel k;
  clock = λ n. n + 100;
  trips = λ n. a_trip ∷ [];
  oms_is_lifecycle = true;
  pms_is_lifecycle = true;
}

-- The event log always fails.
abbrev logless : World
logless = record failing { raises = λ n k. is_write k }

abbrev in_state : SystemState → Supervisor
in_state state = record { state = state; bus_running = true; tick_task = true; calls = [] }

abbrev a_day : List Op
a_day = op_start ∷ op_tick ∷ op_acknowledge ∷ op_stop true ∷ op_tick ∷ []

run-IsPath_example :
    IsPath SystemState.booting (changes (run failing a_day new).calls) (run failing a_day new).state
run-IsPath_example = run-IsPath failing a_day new refl

abbrev automatic_ops : List Op
automatic_ops =
    op_tick ∷ op_breaker a_trip ∷ op_quarantine (Reason.free_text 1) none ∷ op_start ∷ []

run-stays_quarantined_example :
    (run failing automatic_ops (in_state SystemState.quarantine)).state ≡ SystemState.quarantine
run-stays_quarantined_example =
    run-stays_quarantined failing automatic_ops (in_state SystemState.quarantine)
      (tt, (tt, (tt, (tt, tt)))) refl

stop-completes_example :
    ((stop failing true (in_state SystemState.running)).0 ≡ returned)
    × ((stop failing true (in_state SystemState.running)).1.state ≡ SystemState.stopped)
    × (stops (stop failing true (in_state SystemState.running)).1.calls
        ≡ [] ++ shutdown_order failing)
stop-completes_example =
    stop-completes failing (λ n e. refl, λ n e. refl) true (in_state SystemState.running) refl

stop-stuck_example :
    (stop logless true (in_state SystemState.running)
      ≡ (raised, stuck logless true (in_state SystemState.running)))
    × (stops (stuck logless true (in_state SystemState.running)).calls ≡ [])
    × ((again : Bool)
        → stop logless again (stuck logless true (in_state SystemState.running))
          ≡ (returned, stuck logless true (in_state SystemState.running)))
stop-stuck_example = stop-stuck logless true (in_state SystemState.running) refl refl

-- The call with number 4 raises: in an acknowledgement, the reconciliation.
abbrev unreconciled : World
unreconciled = record failing { raises = λ n k. n == 4 }

acknowledge-leaves_example :
    ((acknowledge unreconciled (in_state SystemState.quarantine)).1.state ≡ SystemState.reconciling)
    × ((acknowledge unreconciled (in_state SystemState.quarantine)).0 ≡ raised)
unfolding transition ◌then_do◌ call publish_if_running
acknowledge-leaves_example = acknowledge-leaves unreconciled (in_state SystemState.quarantine) refl

-- callback 2 raises, and each one counts itself
abbrev counting : ℕ → Bus.Callback ℕ
counting callback event count = (if callback == 2 then raised else returned, count + callback)

abbrev a_bus : Bus.Bus
a_bus = record {
  subs =
      (EventType.breaker_tripped, 2)
      ∷ (EventType.heartbeat, 3)
      ∷ (EventType.breaker_tripped, 4)
      ∷ [];
  started = true;
  stopped = false;
}

publish-each_example :
    Bus.publish counting (Event.breaker_tripped a_trip) a_bus 0
    ≡ some (
      Bus.subscribers (Event.breaker_tripped a_trip) a_bus,
      Bus.each counting
          (Event.breaker_tripped a_trip)
          (Bus.subscribers (Event.breaker_tripped a_trip) a_bus)
          0,
    )
publish-each_example = Bus.publish-each counting (Event.breaker_tripped a_trip) a_bus 0 refl refl

-- a world in which no call fails
abbrev sound : World
sound = record failing { raises = λ n k. false }

run-ends_example :
    (((start sound new).0 ≡ raised)
      × ((Main.run sound 3 Main.signalled).0 ≡ Main.crashed)
      × (stops (Main.run sound 3 Main.signalled).1.calls ≡ []))
    ⊎ (((start sound new).0 ≡ returned)
        × ((Main.run sound 3 Main.signalled).0 ≡ Main.exited 0)
        × ((Main.run sound 3 Main.signalled).1.state ≡ SystemState.stopped)
        × (stops (Main.run sound 3 Main.signalled).1.calls ≡ shutdown_order sound))
run-ends_example = run-ends sound (λ n e. refl, λ n e. refl) 3 Main.signalled

-- an hour apart, with no equity
abbrev rounds : List (Time × RiskContext)
rounds = (90, context_at 100 0) ∷ (3600000090, context_at 3600000200 0) ∷ []

session-breakers_example :
    (bs : List Breaker) × (bs' : List Breaker) × (Main.breakers (pos 5) 0 1 2 ≡ some bs)
    × (session whole 0 rounds bs ticking ≡ some ([], bs', ticking))
session-breakers_example =
    session-breakers (pos 5) 0 1 2 whole rounds ticking (omega arith)
      ((refl, omega arith), ((refl, omega arith), tt))

quarantine-stop_example :
    (p : Wait) × (ps : List Wait) × ((quarantine_routine sound Reason.empty none).waits
        (in_state SystemState.running)
      ≡ p ∷ ps)
    × EndsIn sound true SystemState.quarantine p
    × All (EndsIn sound true SystemState.stopped) ps
quarantine-stop_example =
    quarantine-stop sound (λ n e. refl, λ n e. refl) true Reason.empty none
      (in_state SystemState.running) refl

acknowledge-stop_example :
    All
      (IsOvertaken sound true)
      ((acknowledge_routine sound).waits (in_state SystemState.quarantine))
acknowledge-stop_example =
    acknowledge-stop sound (λ n e. refl, λ n e. refl) true (in_state SystemState.quarantine)
