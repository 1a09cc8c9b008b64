-- ===== src/Runtime/Supervisor/Quarantine.antt =====
-- How src/trading/runtime/supervisor/default.py enters QUARANTINE, and what alone leaves it.
use claude_trade_teams.Base.{
  ℕ, ◌≡◌, refl, ◌⊎◌, ap, ◌∙◌, All, true, false, Option, some, List, [], ◌∷◌, length, Bool-cases,
  inl, inr,
}
use claude_trade_teams.Domain.{
  SystemState, SystemStateChanged, Event, BreakerTripped, Reason, TriggerAction,
}
use claude_trade_teams.Runtime.Supervisor.Actions.{
  Call, publish, reconcile, cancel_all, risk_tick, send_alert, Supervisor, World, Action, returned,
  raised, Exit, same_state, ◌then_do◌, attempt, call, transition, changed, publish_if_running,
  write,
}
use claude_trade_teams.Runtime.Supervisor.Methods.{
  start, stop, quarantine_alert, enter_quarantine, quarantine, acknowledge, on_breaker_tripped,
  deliver, tick_risk, heartbeat_of, tick,
}
use claude_trade_teams.Runtime.Supervisor.Run.{
  Op, op_start, op_stop, op_quarantine, op_acknowledge, op_breaker, op_tick, perform, run,
}

module _ (b : Action) (keeps : (s : Supervisor) → (b s).1.state ≡ s.state) where
  go_on_state :
      (r : Exit × Supervisor)
      → ((elim r.0 as (λ _. Exit × Supervisor) [
        | returned ↦ b r.1
        | raised ↦ (raised, r.1)
      ]).1.state)
        ≡ r.1.state
  go_on_state (returned, s) = keeps s
  go_on_state (raised, s) = refl

  pub then_do-state : (a : Action) (s : Supervisor) → ((a then_do b) s).1.state ≡ (a s).1.state
  unfolding ◌then_do◌
  then_do-state a s = go_on_state (a s)

module _ (w : World) where
  pub call-state : (k : Call) (s : Supervisor) → (call w k s).1.state ≡ s.state
  unfolding call
  call-state k s = refl

  pub publish-state : (e : Event) (s : Supervisor) → (publish_if_running w e s).1.state ≡ s.state
  unfolding publish_if_running
  publish-state e s = elim (Bool-cases s.bus_running) [
    | inl r ↦ simp (publish_if_running, r) (call-state (publish e) s)
    | inr r ↦ simp (publish_if_running, r) refl
  ]

  pub transition-state :
      (st : SystemState) (reason : Reason) (s : Supervisor)
      → (transition w st reason s).1.state ≡ st
  unfolding transition
  transition-state st reason s =
      let e : SystemStateChanged = changed w s st reason in
      then_do-state (publish_if_running w (Event.state_changed e))
        (publish-state (Event.state_changed e)) (call w (write e)) (record s { state = st })
      ∙ call-state (write e) (record s { state = st })

  enter_quarantine-state :
      (reason : Reason) (name : Option ℕ) (s : Supervisor)
      → (enter_quarantine w reason name s).1.state ≡ SystemState.quarantine
  unfolding attempt ◌then_do◌
  enter_quarantine-state reason name s =
      let s1 : Supervisor = (call w cancel_all s).1 in
      then_do-state (λ t. call w (send_alert (quarantine_alert w reason name t)) t)
        (λ t. call-state (send_alert (quarantine_alert w reason name t)) t)
        (transition w SystemState.quarantine reason) s1
      ∙ transition-state SystemState.quarantine reason s1

  quarantine-running :
      (reason : Reason) (name : Option ℕ) (s : Supervisor)
      → s.state ≡ SystemState.running
      → (quarantine w reason name s).1.state ≡ SystemState.quarantine
  unfolding quarantine
  quarantine-running reason name s h =
      let t : same_state s.state SystemState.running ≡ true = rw h refl in
      rw (quarantine, t) (enter_quarantine-state reason name s)

  quarantine-elsewhere :
      (reason : Reason) (name : Option ℕ) (s : Supervisor)
      → same_state s.state SystemState.running ≡ false
      → quarantine w reason name s ≡ (returned, s)
  unfolding quarantine
  quarantine-elsewhere reason name s h = rw (quarantine, h) refl

  -- A trip whose action is QUARANTINE or FLATTEN takes a running system to QUARANTINE, whichever
  -- calls raise.
  pub on_breaker_tripped-quarantines :
      (event : BreakerTripped) (s : Supervisor)
      → (event.action ≡ TriggerAction.quarantine) ⊎ (event.action ≡ TriggerAction.flatten)
      → s.state ≡ SystemState.running
      → (on_breaker_tripped w event s).1.state ≡ SystemState.quarantine
  unfolding on_breaker_tripped ◌then_do◌ attempt
  on_breaker_tripped-quarantines event s (inl e) h =
      rw (on_breaker_tripped, e) (quarantine-running event.reason (some event.breaker_name) s h)
  on_breaker_tripped-quarantines event s (inr e) h =
      rw (on_breaker_tripped, e)
        (quarantine-running event.reason (some event.breaker_name) (call w cancel_all s).1
          (call-state cancel_all s ∙ h))

  pub breaker-elsewhere :
      (event : BreakerTripped) (s : Supervisor)
      → same_state s.state SystemState.running ≡ false
      → (on_breaker_tripped w event s).1.state ≡ s.state
  unfolding on_breaker_tripped attempt ◌then_do◌ call
  breaker-elsewhere event s h = go event.action
    where
      dispatched : TriggerAction → BreakerTripped
      dispatched action = record event { action = action }

      go : (action : TriggerAction) → (on_breaker_tripped w (dispatched action) s).1.state ≡ s.state
      go TriggerAction.reject_new = refl
      go TriggerAction.cancel_all = call-state cancel_all s
      go TriggerAction.quarantine =
          ap (λ (r : Exit × Supervisor). r.1.state)
            (quarantine-elsewhere event.reason (some event.breaker_name) s h)
      go TriggerAction.flatten =
          let s1 : Supervisor = (call w cancel_all s).1 in
          ap (λ (r : Exit × Supervisor). r.1.state)
            (quarantine-elsewhere event.reason (some event.breaker_name) s1 h)
          ∙ call-state cancel_all s

  deliver-elsewhere :
      (events : List BreakerTripped) (s : Supervisor)
      → same_state s.state SystemState.running ≡ false
      → (deliver w events s).state ≡ s.state
  unfolding deliver attempt
  deliver-elsewhere [] s h = refl
  deliver-elsewhere (e ∷ es) s h =
      let s1 : Supervisor = (on_breaker_tripped w e s).1 in
      let same = breaker-elsewhere e s h in
      deliver-elsewhere es s1 (ap (λ st. same_state st SystemState.running) same ∙ h) ∙ same

  tick-elsewhere :
      (s : Supervisor) → same_state s.state SystemState.running ≡ false → (tick w s).state ≡ s.state
  unfolding tick tick_risk call
  tick-elsewhere s h =
      let s1 : Supervisor = (call w (publish (heartbeat_of w s)) s).1 in
      let s2 : Supervisor = (call w reconcile s1).1 in
      deliver-elsewhere (w.trips (length s2.calls)) (call w risk_tick s2).1 h

  -- The call is neither an acknowledgement nor a stop.
  abbrev pub IsAutomatic : Op → Type 0
  IsAutomatic op_acknowledge = ⊥
  IsAutomatic (op_stop _) = ⊥
  IsAutomatic _ = Unit

  perform-quarantined :
      (op : Op) (s : Supervisor)
      → IsAutomatic op
      → s.state ≡ SystemState.quarantine
      → (perform w op s).state ≡ SystemState.quarantine
  unfolding perform start
  perform-quarantined op_start s k h =
      let t : same_state s.state SystemState.booting ≡ false = rw h refl in rw (perform, start, t) h
  perform-quarantined (op_stop drain) s k h = elim k [ ]
  perform-quarantined (op_quarantine reason name) s k h =
      ap (λ (r : Exit × Supervisor). r.1.state) (quarantine-elsewhere reason name s (rw h refl)) ∙ h
  perform-quarantined op_acknowledge s k h = elim k [ ]
  perform-quarantined (op_breaker event) s k h = breaker-elsewhere event s (rw h refl) ∙ h
  perform-quarantined op_tick s k h = tick-elsewhere s (rw h refl) ∙ h

  -- A system in QUARANTINE stays there, whatever the components do and whatever trips or ticks
  -- come, until it is acknowledged or stopped.
  pub run-stays_quarantined :
      (ops : List Op) (s : Supervisor)
      → All IsAutomatic ops
      → s.state ≡ SystemState.quarantine
      → (run w ops s).state ≡ SystemState.quarantine
  unfolding run
  run-stays_quarantined [] s k h = h
  run-stays_quarantined (op ∷ ops) s k h =
      run-stays_quarantined ops (perform w op s) k.1 (perform-quarantined op s k.0 h)

  perform-stopped :
      (op : Op) (s : Supervisor)
      → s.state ≡ SystemState.stopped
      → (perform w op s).state ≡ SystemState.stopped
  unfolding perform start stop acknowledge
  perform-stopped op_start s h =
      let t : same_state s.state SystemState.booting ≡ false = rw h refl in rw (perform, start, t) h
  perform-stopped (op_stop drain) s h =
      let t : same_state s.state SystemState.stopped ≡ true = rw h refl in rw (perform, stop, t) h
  perform-stopped (op_quarantine reason name) s h =
      ap (λ (r : Exit × Supervisor). r.1.state) (quarantine-elsewhere reason name s (rw h refl)) ∙ h
  perform-stopped op_acknowledge s h =
      let t : same_state s.state SystemState.quarantine ≡ false = rw h refl in
      rw (perform, acknowledge, t) h
  perform-stopped (op_breaker event) s h = breaker-elsewhere event s (rw h refl) ∙ h
  perform-stopped op_tick s h = tick-elsewhere s (rw h refl) ∙ h

  -- A stopped system never leaves STOPPED.
  pub run-stays_stopped :
      (ops : List Op) (s : Supervisor)
      → s.state ≡ SystemState.stopped
      → (run w ops s).state ≡ SystemState.stopped
  unfolding run
  run-stays_stopped [] s h = h
  run-stays_stopped (op ∷ ops) s h = run-stays_stopped ops (perform w op s) (perform-stopped op s h)
