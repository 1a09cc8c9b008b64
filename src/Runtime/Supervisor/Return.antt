-- ===== src/Runtime/Supervisor/Return.antt =====
-- A stop that runs while `acknowledge` of src/trading/runtime/supervisor/default.py waits.
use claude_trade_teams.Base.{◌≡◌, refl, ◌∙◌, ◌⊎◌, ◌++◌, Bool, List, [], ◌∷◌, All, inl, inr}
use claude_trade_teams.Domain.{SystemState, Reason}
use claude_trade_teams.Runtime.Supervisor.Actions.{
  Call, get_open_orders, get_positions, reconcile, Supervisor, World, Action, Exit, returned,
  raised, ◌then_do◌, call,
}
use claude_trade_teams.Runtime.Supervisor.Methods.{stop}
use claude_trade_teams.Runtime.Supervisor.Routine.{
  Wait, Routine, followed, waits_after, ◌then_run◌, call_routine, transition_routine, All-append,
  acknowledge_routine,
}
use claude_trade_teams.Runtime.Supervisor.Shutdown.{
  IsLogging, stops, shutdown_order, stop-completes,
}
use claude_trade_teams.Runtime.Supervisor.Quarantine.{transition-state}
use claude_trade_teams.Runtime.Supervisor.Overlap.{IsLate, transition-IsLate}

-- The method takes the system to RUNNING, or raises.
abbrev IsBound : Action → Type 0
IsBound a = (t : Supervisor) → ((a t).0 ≡ raised) ⊎ ((a t).1.state ≡ SystemState.running)

-- The wait is in RECONCILING with the way to RUNNING ahead, or in RUNNING with no change ahead.
abbrev IsOnTheWay : Wait → Type 0
IsOnTheWay p = ((p.0.state ≡ SystemState.reconciling) × IsBound p.1) ⊎ IsLate SystemState.running p

module _ (b : Action) (bound : IsBound b) where
  go_on-IsBound :
      (r : Exit × Supervisor)
      → ((elim r.0 as (λ _. Exit × Supervisor) [ returned ↦ b r.1 | raised ↦ (raised, r.1) ]).0
          ≡ raised)
        ⊎ ((elim r.0 as (λ _. Exit × Supervisor) [
          | returned ↦ b r.1
          | raised ↦ (raised, r.1)
        ]).1.state
            ≡ SystemState.running)
  go_on-IsBound (returned, t) = bound t
  go_on-IsBound (raised, t) = inl refl

  then_do-IsBound : (a : Action) → IsBound (a then_do b)
  unfolding ◌then_do◌
  then_do-IsBound a t = go_on-IsBound (a t)

  followed-IsOnTheWay :
      (waits : List Wait)
      → All (IsLate SystemState.reconciling) waits
      → All IsOnTheWay (followed b waits)
  followed-IsOnTheWay [] h = tt
  followed-IsOnTheWay (p ∷ waits) h =
      (inl (h.0.0, then_do-IsBound p.1), followed-IsOnTheWay waits h.1)

-- A method that starts in RECONCILING and takes the system to RUNNING.
record IsReturn (b : Routine) : Type 0 where
  bound : IsBound b.run
  waiting : (s : Supervisor) → s.state ≡ SystemState.reconciling → All IsOnTheWay (b.waits s)

waits_after-IsOnTheWay :
    (b : Routine)
    → IsReturn b
    → (r : Exit × Supervisor) → r.1.state ≡ SystemState.reconciling
    → All IsOnTheWay (waits_after b r)
waits_after-IsOnTheWay b f (returned, s) h = f.waiting s h
waits_after-IsOnTheWay b f (raised, s) h = tt

IsOnTheWay-all : (waits : List Wait) → All (IsLate SystemState.running) waits → All IsOnTheWay waits
IsOnTheWay-all [] h = tt
IsOnTheWay-all (p ∷ waits) h = (inr h.0, IsOnTheWay-all waits h.1)

module _ (w : World) where
  last-IsReturn : (reason : Reason) → IsReturn (transition_routine w SystemState.running reason)
  last-IsReturn reason = record {
    bound = λ t. inr (transition-state w SystemState.running reason t);
    waiting = λ s h.
        IsOnTheWay-all ((transition_routine w SystemState.running reason).waits s)
          (transition-IsLate w SystemState.running reason s);
  }

  step-IsReturn : (k : Call) {b : Routine} → IsReturn b → IsReturn (call_routine w k then_run b)
  unfolding call
  step-IsReturn k {b = b} f = record {
    bound = then_do-IsBound b.run f.bound (call w k);
    waiting = λ s h.
        All-append IsOnTheWay (followed b.run ((call_routine w k).waits s))
          (waits_after b (call w k s))
          (followed-IsOnTheWay b.run f.bound ((call_routine w k).waits s) ((h, λ t. refl), tt))
          (waits_after-IsOnTheWay b f (call w k s) h);
  }

  waits-IsOnTheWay : (s : Supervisor) → All IsOnTheWay ((acknowledge_routine w).waits s)
  waits-IsOnTheWay s =
      let first = transition_routine w SystemState.reconciling (Reason.free_text 5) in
      let rest : Routine =
        call_routine w get_open_orders
        then_run call_routine w get_positions
        then_run call_routine w reconcile
        then_run transition_routine w SystemState.running (Reason.free_text 6) in
      let f : IsReturn rest = step-IsReturn get_open_orders (
        step-IsReturn get_positions
          (step-IsReturn reconcile (last-IsReturn (Reason.free_text 6)))) in
      All-append IsOnTheWay (followed rest.run (first.waits s)) (waits_after rest (first.run s))
        (followed-IsOnTheWay rest.run f.bound (first.waits s)
          (transition-IsLate w SystemState.reconciling (Reason.free_text 5) s))
        (waits_after-IsOnTheWay rest f (first.run s)
          (transition-state w SystemState.reconciling (Reason.free_text 5) s))

-- A wait at which a stop may run whole, to end in STOPPED with every component stopped, and from which
-- the resumed method then raises or ends in RUNNING if it waited in RECONCILING, and ends in STOPPED if
-- it waited in RUNNING.
abbrev pub IsOvertaken : World → Bool → Wait → Type 0
IsOvertaken w drain p =
    ((stop w drain p.0).1.state ≡ SystemState.stopped)
    × (stops (stop w drain p.0).1.calls ≡ stops p.0.calls ++ shutdown_order w)
    × (((p.0.state ≡ SystemState.reconciling)
          × (((p.1 (stop w drain p.0).1).0 ≡ raised)
              ⊎ ((p.1 (stop w drain p.0).1).1.state ≡ SystemState.running)))
        ⊎ ((p.0.state ≡ SystemState.running)
            × ((p.1 (stop w drain p.0).1).1.state ≡ SystemState.stopped)))

module _ (w : World) (l : IsLogging w) (drain : Bool) where
  overtaken : (p : Wait) → IsOnTheWay p → IsOvertaken w drain p
  overtaken p (inl (h, f)) =
      let (_, state, stopped) = stop-completes w l drain p.0 (rw h refl) in
      (state, stopped, inl (h, f (stop w drain p.0).1))
  overtaken p (inr (h, f)) =
      let (_, state, stopped) = stop-completes w l drain p.0 (rw h refl) in
      (state, stopped, inr (h, f (stop w drain p.0).1 ∙ state))

  IsOvertaken-all : (ps : List Wait) → All IsOnTheWay ps → All (IsOvertaken w drain) ps
  IsOvertaken-all [] h = tt
  IsOvertaken-all (p ∷ ps) h = (overtaken p h.0, IsOvertaken-all ps h.1)

  -- Where the event log can be written and the bus can publish, a stop that runs whole at any point
  -- where an acknowledgement waits ends in STOPPED with every component stopped. If the acknowledgement waited in RECONCILING, it raises when it is resumed, or
  -- it takes the stopped system back to RUNNING; if it waited in RUNNING, the system stays STOPPED.
  pub acknowledge-stop :
      (s : Supervisor) → All (IsOvertaken w drain) ((acknowledge_routine w).waits s)
  acknowledge-stop s = IsOvertaken-all ((acknowledge_routine w).waits s) (waits-IsOnTheWay w s)
