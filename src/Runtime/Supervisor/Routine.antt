-- ===== src/Runtime/Supervisor/Routine.antt =====
-- The methods of src/trading/runtime/supervisor/default.py as coroutines: beside its run to the end, a
-- method has the points at which it waits for a component, where other tasks may run.
use claude_trade_teams.Base.{
  ℕ, ◌≡◌, refl, ap, if◌then◌else◌, Option, List, [], ◌∷◌, ◌++◌, map, All, Bool-cases, inl, inr,
}
use claude_trade_teams.Domain.{SystemState, Event, Reason}
use claude_trade_teams.Runtime.Supervisor.Actions.{
  Call, write, publish, get_open_orders, get_positions, reconcile, cancel_all, send_alert,
  Supervisor, World, Action, Exit, returned, raised, ◌then_do◌, attempt, call, transition, changed,
  publish_if_running,
}
use claude_trade_teams.Runtime.Supervisor.Methods.{
  quarantine_alert, enter_quarantine, leave_quarantine,
}

-- A point at which a method waits: the supervisor there, and what is left of the method, which goes
-- on from the supervisor as it is then.
abbrev pub Wait : Type 0
Wait = Supervisor × Action

pub record Routine : Type 0 where
  pub run : Action
  pub waits : Supervisor → List Wait

-- the waits of a first statement, with the second one left to do
abbrev pub followed : Action → List Wait → List Wait
followed b waits = map (λ p. (p.0, p.1 then_do b)) waits

-- the waits of a second statement, if the first one returns
abbrev pub waits_after : Routine → Exit × Supervisor → List Wait
waits_after b (returned, s) = b.waits s
waits_after b (raised, s) = []

infixr 30 ◌then_run◌
abbrev pub ◌then_run◌ : Routine → Routine → Routine
a then_run b = record {
  run = a.run then_do b.run;
  waits = λ s. followed b.run (a.waits s) ++ waits_after b (a.run s);
}

-- `try: ... except Exception: log`
abbrev pub attempted : Routine → Routine
attempted a = record { run = attempt a.run; waits = λ s. map (λ p. (p.0, attempt p.1)) (a.waits s) }

module _ (w : World) where
  -- whether the call raises is settled when it is made
  abbrev pub call_routine : Call → Routine
  call_routine k = record {
    run = call w k;
    waits = λ s. ((call w k s).1, λ t. ((call w k s).0, t)) ∷ [];
  }

  abbrev pub publish_routine : Event → Routine
  publish_routine e = record {
    run = publish_if_running w e;
    waits = λ s. if s.bus_running then (call_routine (publish e)).waits s else [];
  }

  abbrev pub transition_routine : SystemState → Reason → Routine
  transition_routine st reason = record {
    run = transition w st reason;
    waits = λ s.
        let e = changed w s st reason in
        (call_routine (write e) then_run publish_routine (Event.state_changed e)).waits
          (record s { state = st });
  }

  abbrev pub alert_routine : Reason → Option ℕ → Routine
  alert_routine reason name = record {
    run = λ s. call w (send_alert (quarantine_alert w reason name s)) s;
    waits = λ s. (call_routine (send_alert (quarantine_alert w reason name s))).waits s;
  }

  -- `quarantine` in RUNNING
  abbrev pub quarantine_routine : Reason → Option ℕ → Routine
  quarantine_routine reason name =
      attempted (call_routine cancel_all)
      then_run transition_routine SystemState.quarantine reason
      then_run alert_routine reason name

  -- `acknowledge` in QUARANTINE
  abbrev pub acknowledge_routine : Routine
  acknowledge_routine =
      transition_routine SystemState.reconciling (Reason.free_text 5)
      then_run call_routine get_open_orders
      then_run call_routine get_positions
      then_run call_routine reconcile
      then_run transition_routine SystemState.running (Reason.free_text 6)

  -- Run to their ends without another task in between, the routines are the methods.
  pub routine-runs :
      (reason : Reason) (name : Option ℕ) (s : Supervisor)
      → ((quarantine_routine reason name).run s ≡ enter_quarantine w reason name s)
        × (acknowledge_routine.run s ≡ leave_quarantine w s)
  routine-runs reason name s = (refl, refl)

-- Resumed at once, a method ends at each of its waits as its run does.
pub record IsFaithful (a : Routine) : Type 0 where
  pub resumed : (s : Supervisor) → All (λ p. p.1 p.0 ≡ a.run s) (a.waits s)

pub All-append : (P : Wait → Type 0) (xs ys : List Wait) → All P xs → All P ys → All P (xs ++ ys)
All-append P [] ys a b = b
All-append P (x ∷ xs) ys a b = (a.0, All-append P xs ys a.1 b)

All-followed :
    (b : Action) (r : Exit × Supervisor) (waits : List Wait)
    → All (λ p. p.1 p.0 ≡ r) waits
    → All
        (λ p.
          p.1 p.0
          ≡ (elim r.0 as (λ _. Exit × Supervisor) [ returned ↦ b r.1 | raised ↦ (raised, r.1) ]))
        (followed b waits)
unfolding ◌then_do◌
All-followed b r [] h = tt
All-followed b r (p ∷ waits) h = (
  ap
      (λ (q : Exit × Supervisor). elim q.0 as (λ _. Exit × Supervisor) [
        | returned ↦ b q.1
        | raised ↦ (raised, q.1)
      ])
      h.0,
  All-followed b r waits h.1,
)

All-after :
    (b : Routine) (r : Exit × Supervisor)
    → IsFaithful b
    → All
        (λ p. p.1 p.0 ≡ (elim r.0 as (λ _. Exit × Supervisor) [
          | returned ↦ b.run r.1
          | raised ↦ (raised, r.1)
        ]))
        (waits_after b r)
All-after b (returned, s) f = f.resumed s
All-after b (raised, s) f = tt

then_run-IsFaithful : {a b : Routine} → IsFaithful a → IsFaithful b → IsFaithful (a then_run b)
unfolding ◌then_do◌
then_run-IsFaithful {a = a} {b = b} f g = record {
  resumed = λ s.
      All-append _ (followed b.run (a.waits s)) (waits_after b (a.run s))
        (All-followed b.run (a.run s) (a.waits s) (f.resumed s)) (All-after b (a.run s) g);
}

attempted-IsFaithful : {a : Routine} → IsFaithful a → IsFaithful (attempted a)
unfolding attempt
attempted-IsFaithful {a = a} f = record { resumed = λ s. go (a.run s) (a.waits s) (f.resumed s) }
  where
    go :
        (r : Exit × Supervisor) (waits : List Wait)
        → All (λ (p : Wait). p.1 p.0 ≡ r) waits
        → All (λ (p : Wait). p.1 p.0 ≡ (returned, r.1)) (map (λ p. (p.0, attempt p.1)) waits)
    go r [] h = tt
    go r (p ∷ waits) h = (ap (λ (q : Exit × Supervisor). (returned, q.1)) h.0, go r waits h.1)

module _ (w : World) where
  call-IsFaithful : (k : Call) → IsFaithful (call_routine w k)
  call-IsFaithful k = record { resumed = λ s. (refl, tt) }

  publish-IsFaithful : (e : Event) → IsFaithful (publish_routine w e)
  unfolding publish_if_running
  publish-IsFaithful e = record {
    resumed = λ s. elim (Bool-cases s.bus_running) [
      | inl r ↦ simp (publish_if_running, r) (refl, tt)
      | inr r ↦ simp (publish_if_running, r) tt
    ];
  }

  transition-IsFaithful :
      (st : SystemState) (reason : Reason) → IsFaithful (transition_routine w st reason)
  unfolding transition
  transition-IsFaithful st reason = record {
    resumed = λ s.
        let e = changed w s st reason in
        (then_run-IsFaithful (call-IsFaithful (write e))
            (publish-IsFaithful (Event.state_changed e))).resumed
          (record s { state = st });
  }

  alert-IsFaithful : (reason : Reason) (name : Option ℕ) → IsFaithful (alert_routine w reason name)
  alert-IsFaithful reason name = record { resumed = λ s. (refl, tt) }

  -- The waits of `quarantine` and of `acknowledge` are their own: resumed at once, with no other task
  -- in between, each of them ends as the method does.
  pub resumed-run :
      (reason : Reason) (name : Option ℕ)
      → IsFaithful (quarantine_routine w reason name) × IsFaithful (acknowledge_routine w)
  resumed-run reason name = (
    then_run-IsFaithful (attempted-IsFaithful (call-IsFaithful cancel_all)) (
        then_run-IsFaithful (transition-IsFaithful SystemState.quarantine reason)
          (alert-IsFaithful reason name)),
    then_run-IsFaithful (transition-IsFaithful SystemState.reconciling (Reason.free_text 5)) (
        then_run-IsFaithful (call-IsFaithful get_open_orders) (
          then_run-IsFaithful (call-IsFaithful get_positions) (
            then_run-IsFaithful (call-IsFaithful reconcile)
              (transition-IsFaithful SystemState.running (Reason.free_text 6))))),
  )
