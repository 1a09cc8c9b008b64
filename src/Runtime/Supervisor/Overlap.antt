-- ===== src/Runtime/Supervisor/Overlap.antt =====
-- A stop that runs while another method of src/trading/runtime/supervisor/default.py waits.
use claude_trade_teams.Base.{
  ℕ, ◌≡◌, refl, ◌∙◌, Bool, Option, List, [], ◌∷◌, ◌++◌, All, Bool-cases, inl, inr,
}
use claude_trade_teams.Domain.{SystemState, Event, Reason}
use claude_trade_teams.Runtime.Supervisor.Actions.{
  Call, write, publish, cancel_all, send_alert, Supervisor, World, Action, Exit, returned, raised,
  ◌then_do◌, attempt, call, changed,
}
use claude_trade_teams.Runtime.Supervisor.Methods.{stop, quarantine_alert}
use claude_trade_teams.Runtime.Supervisor.Routine.{
  Wait, Routine, followed, waits_after, call_routine, publish_routine, transition_routine,
  alert_routine, All-append, quarantine_routine,
}
use claude_trade_teams.Runtime.Supervisor.Shutdown.{
  IsLogging, stops, shutdown_order, stop-completes,
}
use claude_trade_teams.Runtime.Supervisor.Quarantine.{
  then_do-state, call-state, publish-state, transition-state,
}

-- The wait is in a state, and what is left of the method, on its own, changes the state no more.
abbrev pub IsLate : SystemState → Wait → Type 0
IsLate st p = (p.0.state ≡ st) × ((t : Supervisor) → (p.1 t).1.state ≡ t.state)

-- The wait is for the cancellation of the orders, and what is left takes the system to QUARANTINE
-- from wherever it is.
abbrev IsEarly : Wait → Type 0
IsEarly p =
    (p.0.state ≡ SystemState.running)
    × ((t : Supervisor) → (p.1 t).1.state ≡ SystemState.quarantine)

followed-IsLate :
    (st : SystemState) (b : Action)
    → ((t : Supervisor) → (b t).1.state ≡ t.state)
    → (waits : List Wait) → All (IsLate st) waits
    → All (IsLate st) (followed b waits)
followed-IsLate st b keeps [] h = tt
followed-IsLate st b keeps (p ∷ waits) h =
    ((h.0.0, λ t. then_do-state b keeps p.1 t ∙ h.0.1 t), followed-IsLate st b keeps waits h.1)

waits_after-IsLate :
    (st : SystemState) (b : Routine)
    → ((s : Supervisor) → s.state ≡ st → All (IsLate st) (b.waits s))
    → (r : Exit × Supervisor) → r.1.state ≡ st
    → All (IsLate st) (waits_after b r)
waits_after-IsLate st b f (returned, s) h = f s h
waits_after-IsLate st b f (raised, s) h = tt

module _ (w : World) (st : SystemState) where
  call-IsLate :
      (k : Call) (s : Supervisor) → s.state ≡ st → All (IsLate st) ((call_routine w k).waits s)
  unfolding call
  call-IsLate k s h = ((h, λ t. refl), tt)

  publish-IsLate :
      (e : Event) (s : Supervisor) → s.state ≡ st → All (IsLate st) ((publish_routine w e).waits s)
  publish-IsLate e s h = elim (Bool-cases s.bus_running) [
    | inl r ↦ simp r (call-IsLate (publish e) s h)
    | inr r ↦ simp r tt
  ]

  pub transition-IsLate :
      (reason : Reason) (s : Supervisor)
      → All (IsLate st) ((transition_routine w st reason).waits s)
  transition-IsLate reason s =
      let e = changed w s st reason in
      let at : Supervisor = record s { state = st } in
      let published = publish_routine w (Event.state_changed e) in
      All-append (IsLate st) (followed published.run ((call_routine w (write e)).waits at))
        (waits_after published (call w (write e) at))
        (followed-IsLate st published.run (publish-state w (Event.state_changed e))
          ((call_routine w (write e)).waits at) (call-IsLate (write e) at refl))
        (waits_after-IsLate st published (publish-IsLate (Event.state_changed e))
          (call w (write e) at) (call-state w (write e) at))

module _ (w : World) (reason : Reason) (name : Option ℕ) where
  abbrev alerting : Routine
  alerting = alert_routine w reason name

  alerting-state : (s : Supervisor) → (alerting.run s).1.state ≡ s.state
  alerting-state s = call-state w (send_alert (quarantine_alert w reason name s)) s

  waits-IsEarly_or_IsLate :
      (s : Supervisor)
      → s.state ≡ SystemState.running
      → (p : Wait) × (ps : List Wait) × ((quarantine_routine w reason name).waits s ≡ p ∷ ps)
        × IsEarly p
        × All (IsLate SystemState.quarantine) ps
  unfolding call attempt ◌then_do◌
  waits-IsEarly_or_IsLate s h =
      let changing = transition_routine w SystemState.quarantine reason in
      let s1 : Supervisor = (call w cancel_all s).1 in
      (
        _,
        _,
        refl,
        (
          h,
          λ t.
              then_do-state alerting.run alerting-state changing.run t
              ∙ transition-state w SystemState.quarantine reason t,
        ),
        All-append (IsLate SystemState.quarantine) (followed alerting.run (changing.waits s1))
            (waits_after alerting (changing.run s1))
            (followed-IsLate SystemState.quarantine alerting.run alerting-state (changing.waits s1)
              (transition-IsLate w SystemState.quarantine reason s1))
            (waits_after-IsLate SystemState.quarantine alerting
              (λ t.
                call-IsLate w SystemState.quarantine (send_alert (quarantine_alert w reason name t))
                  t)
              (changing.run s1) (transition-state w SystemState.quarantine reason s1)),
      )

-- A wait at which a stop may run whole, to end in STOPPED with every component stopped, and what is left
-- of the waiting method then ends in a given state.
abbrev pub EndsIn : World → Bool → SystemState → Wait → Type 0
EndsIn w drain st p =
    ((stop w drain p.0).1.state ≡ SystemState.stopped)
    × (stops (stop w drain p.0).1.calls ≡ stops p.0.calls ++ shutdown_order w)
    × ((p.1 (stop w drain p.0).1).1.state ≡ st)

module _ (w : World) (l : IsLogging w) (drain : Bool) where
  late_stopped : (p : Wait) → IsLate SystemState.quarantine p → EndsIn w drain SystemState.stopped p
  late_stopped p (h, f) =
      let (_, state, stopped) = stop-completes w l drain p.0 (rw h refl) in
      (state, stopped, f (stop w drain p.0).1 ∙ state)

  all_stopped :
      (ps : List Wait)
      → All (IsLate SystemState.quarantine) ps
      → All (EndsIn w drain SystemState.stopped) ps
  all_stopped [] h = tt
  all_stopped (p ∷ ps) h = (late_stopped p h.0, all_stopped ps h.1)

  -- Where the event log can be written and the bus can publish, a stop that runs whole while a
  -- quarantine waits ends in STOPPED with every component stopped. The
  -- quarantine, resumed, takes the stopped system to QUARANTINE where it waited for the cancellation
  -- of the orders, its first wait, and leaves it STOPPED at each later wait.
  pub quarantine-stop :
      (reason : Reason) (name : Option ℕ) (s : Supervisor)
      → s.state ≡ SystemState.running
      → (p : Wait) × (ps : List Wait) × ((quarantine_routine w reason name).waits s ≡ p ∷ ps)
        × EndsIn w drain SystemState.quarantine p
        × All (EndsIn w drain SystemState.stopped) ps
  quarantine-stop reason name s h =
      let (p, ps, e, early, late) = waits-IsEarly_or_IsLate w reason name s h in
      let (_, state, stopped) = stop-completes w l drain p.0 (rw early.0 refl) in
      (p, ps, e, (state, stopped, early.1 (stop w drain p.0).1), all_stopped ps late)
