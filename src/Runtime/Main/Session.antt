-- ===== src/Runtime/Main/Session.antt =====
-- How a session of src/trading/runtime/main.py ends.
use claude_trade_teams.Base.{
  ℕ, zero, suc, ◌≡◌, refl, ap, ◌∙◌, ◌⊎◌, inl, inr, ◌++◌, true, false, List, [], ◌∷◌, length, ◌||◌,
  arith,
}
use claude_trade_teams.Domain.{SystemState, BreakerTripped, TriggerAction}
use claude_trade_teams.Runtime.Supervisor.Actions.{
  publish, reconcile, risk_tick, Supervisor, World, Exit, returned, raised, same_state, ◌then_do◌,
  attempt, call, new,
}
use claude_trade_teams.Runtime.Supervisor.Methods.{
  boot_up, start, stop, on_breaker_tripped, deliver, tick_risk, heartbeat_of, tick,
}
use claude_trade_teams.Runtime.Supervisor.Shutdown.{
  stops, IsLogging, shutdown_order, stop-completes,
}
use claude_trade_teams.Runtime.Supervisor.Edges.{IsAt, IsLogged, Ends}
use claude_trade_teams.Runtime.Supervisor.Triples.{boot-Triple}
use claude_trade_teams.Runtime.Supervisor.Quarantine.{
  on_breaker_tripped-quarantines, breaker-elsewhere,
}
use claude_trade_teams.Runtime.Main.{
  Ending, signalled, interrupted, exited, crashed, idle, main_async, run,
}
use claude_trade_teams.Runtime.Main.Spared.{start-Spares, idle-Spares}

-- The system is in RUNNING or in QUARANTINE.
abbrev IsUp : Supervisor → Type 0
IsUp s = (s.state ≡ SystemState.running) ⊎ (s.state ≡ SystemState.quarantine)

returned_at :
    (st : SystemState) (r : Exit × Supervisor)
    → Ends (IsAt st) IsLogged r
    → r.0 ≡ returned
    → r.1.state ≡ st
returned_at st (returned, s) h e = h.0
returned_at st (raised, s) h e = ground (arith, e)

exit_cases : (e : Exit) → (e ≡ raised) ⊎ (e ≡ returned)
exit_cases raised = inl refl
exit_cases returned = inr refl

module _ (w : World) where
  start-running : (start w new).0 ≡ returned → (start w new).1.state ≡ SystemState.running
  unfolding start
  start-running =
      returned_at SystemState.running (boot_up w new) ((boot-Triple w).ends new (refl, refl))

  breaker-IsUp :
      (event : BreakerTripped) (s : Supervisor) → IsUp s → IsUp (on_breaker_tripped w event s).1
  unfolding on_breaker_tripped attempt call
  breaker-IsUp event s (inr h) = inr (breaker-elsewhere w event s (rw h refl) ∙ h)
  breaker-IsUp event s (inl h) = go event.action refl
    where
      go : (action : TriggerAction) → event.action ≡ action → IsUp (on_breaker_tripped w event s).1
      go TriggerAction.reject_new e = inl (rw (on_breaker_tripped, e) h)
      go TriggerAction.cancel_all e = inl (rw (on_breaker_tripped, e) h)
      go TriggerAction.quarantine e = inr (on_breaker_tripped-quarantines w event s (inl e) h)
      go TriggerAction.flatten e = inr (on_breaker_tripped-quarantines w event s (inr e) h)

  deliver-IsUp :
      (events : List BreakerTripped) (s : Supervisor) → IsUp s → IsUp (deliver w events s)
  unfolding deliver attempt
  deliver-IsUp [] s h = h
  deliver-IsUp (e ∷ es) s h = deliver-IsUp es (on_breaker_tripped w e s).1 (breaker-IsUp e s h)

  idle-IsUp : (rounds : ℕ) (s : Supervisor) → IsUp s → IsUp (idle w rounds s).1
  unfolding idle tick tick_risk call
  idle-IsUp zero s h = h
  idle-IsUp (suc rounds) s h =
      let s1 : Supervisor = (call w (publish (heartbeat_of w s)) s).1 in
      let s2 : Supervisor = (call w reconcile s1).1 in
      idle-IsUp rounds (tick w s)
        (deliver-IsUp (w.trips (length s2.calls)) (call w risk_tick s2).1 h)

  up_to_stop :
      (s : Supervisor)
      → IsUp s
      → (same_state s.state SystemState.stopped || same_state s.state SystemState.draining) ≡ false
  up_to_stop s (inl h) = rw h refl
  up_to_stop s (inr h) = rw h refl

  idle-returns : (rounds : ℕ) (s : Supervisor) → (idle w rounds s).0 ≡ returned
  unfolding idle
  idle-returns zero s = refl
  idle-returns (suc rounds) s = idle-returns rounds (tick w s)

  -- what `run` answers after a start that raises, and after one that returns
  run-raised :
      (rounds : ℕ) (ending : Ending)
      → (start w new).0 ≡ raised
      → run w rounds ending ≡ (crashed, (start w new).1)
  unfolding run main_async ◌then_do◌
  run-raised rounds ending e = rw (run, main_async, ◌then_do◌, e) refl

  run-returned :
      (rounds : ℕ) (ending : Ending)
      → (start w new).0 ≡ returned
      → run w rounds ending ≡ (
        elim ending [ signalled ↦ exited 0 | interrupted ↦ exited 130 ],
        (stop w true (idle w rounds (start w new).1).1).1,
      )
  unfolding run main_async ◌then_do◌ attempt
  run-returned rounds ending e =
      rw (run, main_async, ◌then_do◌, e, idle-returns rounds (start w new).1) refl

  -- Where the event log can be written and the bus can publish, a session ends in one of two ways. If
  -- the start raises, the exception ends the process and nothing has been stopped. Otherwise, whatever
  -- the rounds of the loop do and whichever calls raise in the shutdown, the system ends in STOPPED with every component
  -- stopped once, in the order of the shutdown, and the exit code is 0 after a signal and 130 after
  -- an interrupt.
  pub run-ends :
      IsLogging w
      → (rounds : ℕ) (ending : Ending)
      → (((start w new).0 ≡ raised)
          × ((run w rounds ending).0 ≡ crashed)
          × (stops (run w rounds ending).1.calls ≡ []))
        ⊎ (((start w new).0 ≡ returned)
            × ((run w rounds ending).0
                ≡ elim ending [ signalled ↦ exited 0 | interrupted ↦ exited 130 ])
            × ((run w rounds ending).1.state ≡ SystemState.stopped)
            × (stops (run w rounds ending).1.calls ≡ shutdown_order w))
  run-ends l rounds ending = elim (exit_cases (start w new).0) [
    | inl e ↦
        let r = run-raised rounds ending e in
        inl (e, ap (λ r. r.0) r, ap (λ r. stops r.1.calls) r ∙ (start-Spares w).spares new)
    | inr e ↦
        let r = run-returned rounds ending e in
        let s : Supervisor = (idle w rounds (start w new).1).1 in
        let up = idle-IsUp rounds (start w new).1 (inl (start-running e)) in
        let (_, state, stopped) = stop-completes w l true s (up_to_stop s up) in
        let none_before =
          (idle-Spares w rounds).spares (start w new).1 ∙ (start-Spares w).spares new in
        inr (
          e,
          ap (λ r. r.0) r,
          ap (λ r. r.1.state) r ∙ state,
          ap (λ r. stops r.1.calls) r ∙ stopped ∙ ap (λ es. es ++ shutdown_order w) none_before,
        )
  ]
