-- ===== src/Runtime/Supervisor/Stuck.antt =====
-- `stop` of src/trading/runtime/supervisor/default.py where the event log fails.
use claude_trade_teams.Base.{
  ◌≡◌, refl, ap, ◌∙◌, ◌++◌, append-nil, Bool, true, false, ◌||◌, if◌then◌else◌, [], ◌∷◌, length,
}
use claude_trade_teams.Domain.{SystemState, SystemStateChanged, Event, Reason}
use claude_trade_teams.Runtime.Supervisor.Actions.{
  Call, Supervisor, World, Action, returned, raised, Exit, same_state, ◌then_do◌, call, transition,
  changed, publish_if_running, write,
}
use claude_trade_teams.Runtime.Supervisor.Methods.{cancel_if, stop_trading, stop_persistence, stop}
use claude_trade_teams.Runtime.Supervisor.Shutdown.{stops, stops-append}

module _ (w : World) where
  abbrev pub draining_event : Bool → Supervisor → SystemStateChanged
  draining_event drain s =
      changed w s SystemState.draining (Reason.free_text (if drain then 3 else 2))

  -- the supervisor that a failed write leaves
  abbrev pub stuck : Bool → Supervisor → Supervisor
  stuck drain s = record {
    state = SystemState.draining;
    bus_running = s.bus_running;
    tick_task = false;
    calls = s.calls ++ write (draining_event drain s) ∷ [];
  }

  call-raises :
      (k : Call) (s : Supervisor)
      → w.raises (length s.calls) k ≡ true
      → call w k s ≡ (raised, record s { calls = s.calls ++ k ∷ [] })
  unfolding call
  call-raises k s h = rw (call, h) refl

  then_do-raises :
      (a b : Action) (s t : Supervisor) → a s ≡ (raised, t) → (a then_do b) s ≡ (raised, t)
  unfolding ◌then_do◌
  then_do-raises a b s t h =
      ap
        (λ (r : Exit × Supervisor). elim r.0 as (λ _. Exit × Supervisor) [
          | returned ↦ b r.1
          | raised ↦ (raised, r.1)
        ])
        h

  transition-raises :
      (st : SystemState) (reason : Reason) (s : Supervisor)
      → w.raises (length s.calls) (write (changed w s st reason)) ≡ true
      → transition w st reason s
        ≡ (raised, record s { state = st; calls = s.calls ++ write (changed w s st reason) ∷ [] })
  unfolding transition
  transition-raises st reason s h =
      let e : SystemStateChanged = changed w s st reason in
      let moved : Supervisor = record s { state = st } in
      then_do-raises (call w (write e)) (publish_if_running w (Event.state_changed e)) moved
        (record moved { calls = s.calls ++ write e ∷ [] }) (call-raises (write e) moved h)

  -- Where the event log raises on the first change of a stop, the stop raises in DRAINING, with no
  -- component stopped, and every further stop returns at once and stops none either.
  pub stop-stuck :
      (drain : Bool) (s : Supervisor)
      → (same_state s.state SystemState.stopped || same_state s.state SystemState.draining) ≡ false
      → w.raises (length s.calls) (write (draining_event drain s)) ≡ true
      → (stop w drain s ≡ (raised, stuck drain s))
        × (stops (stuck drain s).calls ≡ stops s.calls)
        × ((again : Bool) → stop w again (stuck drain s) ≡ (returned, stuck drain s))
  unfolding stop ◌then_do◌
  stop-stuck drain s h k = (
    rw (stop, h)
        (then_do-raises
          (transition w SystemState.draining (Reason.free_text (if drain then 3 else 2)))
          (cancel_if w drain
            then_do stop_trading w
            then_do transition w SystemState.stopped (Reason.free_text 4)
            then_do stop_persistence w)
          (record s { tick_task = false }) (stuck drain s)
          (transition-raises SystemState.draining (Reason.free_text (if drain then 3 else 2))
            (record s { tick_task = false }) k)),
    stops-append s.calls (write (draining_event drain s) ∷ []) ∙ append-nil (stops s.calls),
    λ again. refl,
  )
