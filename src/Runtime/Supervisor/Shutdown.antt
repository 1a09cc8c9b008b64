-- ===== src/Runtime/Supervisor/Shutdown.antt =====
-- `stop` of src/trading/runtime/supervisor/default.py: that it stops every component, and what it
-- leaves where the event log fails.
use claude_trade_teams.Base.{
  ℕ, ◌≡◌, refl, sym, ap, ◌∙◌, ◌++◌, append-nil, append_assoc, Bool, true, false, ◌||◌,
  if◌then◌else◌, List, [], ◌∷◌, length, arith,
}
use claude_trade_teams.Domain.{SystemState, SystemStateChanged, Event, Reason}
use claude_trade_teams.Runtime.Supervisor.Actions.{
  Component, Call, stop_of, publish, cancel_all, Supervisor, World, Action, returned, raised, Exit,
  same_state, ◌then_do◌, attempt, skip, call, transition, changed, publish_if_running, write,
}
use claude_trade_teams.Runtime.Supervisor.Methods.{
  stop_if, cancel_ticking, close_bus, cancel_if, shut_down, stop,
}

-- the component that a call stops
abbrev pub stopped_by : Call → List Component
stopped_by (stop_of k) = k ∷ []
stopped_by _ = []

-- the components that the calls stop, in order
abbrev pub stops : List Call → List Component
stops [] = []
stops (k ∷ calls) = stopped_by k ++ stops calls

pub stops-append : (xs ys : List Call) → stops (xs ++ ys) ≡ stops xs ++ stops ys
stops-append [] ys = refl
stops-append (x ∷ xs) ys =
    ap (λ es. stopped_by x ++ es) (stops-append xs ys)
    ∙ sym (append_assoc (stopped_by x) (stops xs) (stops ys))

-- The method returns, stops the components and moves the state.
record Effect (a : Action) (cs : List Component) (move : SystemState → SystemState) : Type 0 where
  runs :
      (s : Supervisor)
      → ((a s).0 ≡ returned)
        × ((a s).1.state ≡ move s.state)
        × (stops (a s).1.calls ≡ stops s.calls ++ cs)

stay : SystemState → SystemState
stay st = st

infixr 30 ◌and_then◌
◌and_then◌ :
    {a b : Action} {cs ds : List Component} {f g : SystemState → SystemState}
    → Effect a cs f
    → Effect b ds g
    → Effect (a then_do b) (cs ++ ds) (λ st. g (f st))
unfolding ◌then_do◌
◌and_then◌ {a = a} {b = b} {cs = cs} {ds = ds} {f = f} {g = g} first second = record {
  runs = λ s. go s (a s) (first.runs s);
}
  where
    go :
        (s : Supervisor) (r : Exit × Supervisor)
        → (r.0 ≡ returned) × (r.1.state ≡ f s.state) × (stops r.1.calls ≡ stops s.calls ++ cs)
        → ((elim r.0 as (λ _. Exit × Supervisor) [ returned ↦ b r.1 | raised ↦ (raised, r.1) ]).0
            ≡ returned)
          × ((elim r.0 as (λ _. Exit × Supervisor) [
            | returned ↦ b r.1
            | raised ↦ (raised, r.1)
          ]).1.state
              ≡ g (f s.state))
          × (stops
                (elim r.0 as (λ _. Exit × Supervisor) [
                  | returned ↦ b r.1
                  | raised ↦ (raised, r.1)
                ]).1.calls
              ≡ stops s.calls ++ (cs ++ ds))
    go s (returned, t) (e, h, k) =
        let (e', h', k') = second.runs t in
        (e', h' ∙ ap g h, k' ∙ ap (λ es. es ++ ds) k ∙ append_assoc (stops s.calls) cs ds)
    go s (raised, t) (e, h, k) = ground (arith, e)

module _ (w : World) where
  call_runs :
      (k : Call) (s : Supervisor) → stops (call w k s).1.calls ≡ stops s.calls ++ stopped_by k
  unfolding call
  call_runs k s =
      stops-append s.calls (k ∷ []) ∙ ap (λ es. stops s.calls ++ es) (append-nil (stopped_by k))

  attempt-Effect : (k : Call) → Effect (attempt (call w k)) (stopped_by k) stay
  unfolding attempt stay call
  attempt-Effect k = record { runs = λ s. (refl, refl, call_runs k s) }

  skip-Effect : Effect skip [] stay
  unfolding stay
  skip-Effect = record { runs = λ s. (refl, refl, sym (append-nil (stops s.calls))) }

  -- a call that never raises
  sure-Effect :
      (k : Call) → ((n : ℕ) → w.raises n k ≡ false) → Effect (call w k) (stopped_by k) stay
  unfolding stay call
  sure-Effect k h = record { runs = λ s. (rw (h (length s.calls)) refl, refl, call_runs k s) }

-- Writing and publishing an event never raises.
abbrev pub IsLogging : World → Type 0
IsLogging w =
    ((n : ℕ) (e : SystemStateChanged) → w.raises n (write e) ≡ false)
    × ((n : ℕ) (e : Event) → w.raises n (publish e) ≡ false)

-- one more component, if it has a `stop`
abbrev pub stopped_if : Bool → Component → List Component
stopped_if is_lifecycle k = if is_lifecycle then k ∷ [] else []

-- what a shutdown stops, in its order
abbrev pub shutdown_order : World → List Component
shutdown_order w =
    Component.market_data
    ∷ Component.venue
    ∷ Component.event_bus
    ∷ (stopped_if w.oms_is_lifecycle Component.oms
        ++ stopped_if w.pms_is_lifecycle Component.pms
        ++ (Component.alert_router ∷ Component.alert_log ∷ Component.event_log
            ∷ Component.account_journal ∷ Component.order_journal ∷ []))

module _ (w : World) (l : IsLogging w) where
  publish-Effect : (e : Event) → Effect (publish_if_running w e) [] stay
  unfolding publish_if_running
  publish-Effect e = record { runs = λ s. go s s.bus_running }
    where
      go :
          (s : Supervisor) (b : Bool)
          → (((if b then call w (publish e) else skip) s).0 ≡ returned)
            × (((if b then call w (publish e) else skip) s).1.state ≡ stay s.state)
            × (stops ((if b then call w (publish e) else skip) s).1.calls ≡ stops s.calls ++ [])
      go s true = (sure-Effect w (publish e) (λ n. l.1 n e)).runs s
      go s false = (skip-Effect w).runs s

  transition-Effect :
      (st : SystemState) (reason : Reason) → Effect (transition w st reason) [] (λ _. st)
  unfolding transition stay
  transition-Effect st reason = record {
    runs = λ s.
        let e : SystemStateChanged = changed w s st reason in
        (sure-Effect w (write e) (λ n. l.0 n e)
            and_then publish-Effect (Event.state_changed e)).runs
          (record s { state = st });
  }

  stop_if-Effect : (b : Bool) (k : Component) → Effect (stop_if w b k) (stopped_if b k) stay
  stop_if-Effect true k = attempt-Effect w (stop_of k)
  stop_if-Effect false k = skip-Effect w

  cancel_if-Effect : (b : Bool) → Effect (cancel_if w b) [] stay
  cancel_if-Effect true = attempt-Effect w cancel_all
  cancel_if-Effect false = skip-Effect w

  close_bus-Effect : Effect (close_bus w) (Component.event_bus ∷ []) stay
  close_bus-Effect = record {
    runs = λ s.
        (attempt-Effect w (stop_of Component.event_bus)).runs (record s { bus_running = false });
  }

  cancel_ticking-Effect : Effect (cancel_ticking w) [] stay
  unfolding stay
  cancel_ticking-Effect = record {
    runs = λ s. (skip-Effect w).runs (record s { tick_task = false });
  }

  shut_down-Effect :
      (drain : Bool) → Effect (shut_down w drain) (shutdown_order w) (λ _. SystemState.stopped)
  unfolding stay
  shut_down-Effect drain =
      cancel_ticking-Effect
      and_then transition-Effect SystemState.draining (Reason.free_text (if drain then 3 else 2))
      and_then cancel_if-Effect drain
      and_then (attempt-Effect w (stop_of Component.market_data)
          and_then attempt-Effect w (stop_of Component.venue)
          and_then close_bus-Effect
          and_then stop_if-Effect w.oms_is_lifecycle Component.oms
          and_then stop_if-Effect w.pms_is_lifecycle Component.pms)
      and_then transition-Effect SystemState.stopped (Reason.free_text 4)
      and_then (attempt-Effect w (stop_of Component.alert_router)
          and_then attempt-Effect w (stop_of Component.alert_log)
          and_then attempt-Effect w (stop_of Component.event_log)
          and_then attempt-Effect w (stop_of Component.account_journal)
          and_then attempt-Effect w (stop_of Component.order_journal))

  -- Where the event log can be written and the bus can publish, a stop of a system that is neither
  -- STOPPED nor DRAINING returns, ends in STOPPED, and has stopped every component once, in the
  -- order of the shutdown, whichever of the other calls raise.
  pub stop-completes :
      (drain : Bool) (s : Supervisor)
      → (same_state s.state SystemState.stopped || same_state s.state SystemState.draining) ≡ false
      → ((stop w drain s).0 ≡ returned)
        × ((stop w drain s).1.state ≡ SystemState.stopped)
        × (stops (stop w drain s).1.calls ≡ stops s.calls ++ shutdown_order w)
  unfolding stop
  stop-completes drain s h = rw (stop, h) ((shut_down-Effect drain).runs s)
