-- ===== src/Runtime/Main/Spared.antt =====
-- The methods of src/trading/runtime/supervisor/default.py that a session of
-- src/trading/runtime/main.py makes before its shutdown stop no component.
use claude_trade_teams.Base.{
  ℕ, zero, suc, ◌≡◌, refl, ap, ◌∙◌, inl, inr, Bool-cases, ◌++◌, append-nil, Bool, true, false, List,
  [], ◌∷◌, length, Option, some, if◌then◌else◌,
}
use claude_trade_teams.Domain.{SystemState, BreakerTripped, TriggerAction, Reason, Event}
use claude_trade_teams.Runtime.Supervisor.Actions.{
  Component, Call, start_of, subscribe, publish, write, get_open_orders, get_positions, get_balance,
  reconcile, cancel_all, risk_tick, send_alert, Supervisor, World, Action, Exit, returned, raised,
  same_state, ◌then_do◌, attempt, skip, call, transition, changed, publish_if_running,
}
use claude_trade_teams.Runtime.Supervisor.Methods.{
  start_if, boot_up, start, quarantine_alert, quarantine, on_breaker_tripped, deliver, tick_risk,
  heartbeat_of, tick,
}
use claude_trade_teams.Runtime.Supervisor.Shutdown.{stopped_by, stops, stops-append}
use claude_trade_teams.Runtime.Main.{idle}

-- The method stops no component, however it ends.
pub record Spares (a : Action) : Type 0 where
  pub spares : (s : Supervisor) → stops (a s).1.calls ≡ stops s.calls

module _ {b : Action} (g : Spares b) where
  go_on_spares :
      (r : Exit × Supervisor)
      → stops
          (elim r.0 as (λ _. Exit × Supervisor) [
            | returned ↦ b r.1
            | raised ↦ (raised, r.1)
          ]).1.calls
        ≡ stops r.1.calls
  go_on_spares (returned, s) = g.spares s
  go_on_spares (raised, s) = refl

infixr 30 ◌then_spares◌
◌then_spares◌ : {a b : Action} → Spares a → Spares b → Spares (a then_do b)
unfolding ◌then_do◌
◌then_spares◌ {a = a} f g = record { spares = λ s. go_on_spares g (a s) ∙ f.spares s }

if-Spares : {a b : Action} (test : Bool) → Spares a → Spares b → Spares (if test then a else b)
if-Spares true f g = f
if-Spares false f g = g

skip-Spares : Spares skip
skip-Spares = record { spares = λ s. refl }

attempt-Spares : {a : Action} → Spares a → Spares (attempt a)
unfolding attempt
attempt-Spares f = record { spares = λ s. f.spares s }

module _ (w : World) where
  call-Spares : (k : Call) → stopped_by k ≡ [] → Spares (call w k)
  unfolding call
  call-Spares k h = record {
    spares = λ s.
        stops-append s.calls (k ∷ [])
        ∙ ap (λ es. stops s.calls ++ (es ++ [])) h
        ∙ append-nil (stops s.calls);
  }

  transition-Spares : (st : SystemState) (reason : Reason) → Spares (transition w st reason)
  unfolding transition publish_if_running
  transition-Spares st reason = record {
    spares = λ s.
        let e = changed w s st reason in
        (call-Spares (write e) refl then_spares record {
          spares = λ t.
              (if-Spares t.bus_running (call-Spares (publish (Event.state_changed e)) refl)
                  skip-Spares).spares
                t;
        }).spares
          (record s { state = st });
  }

  start_if-Spares : (b : Bool) (k : Component) → Spares (start_if w b k)
  start_if-Spares b k = if-Spares b (call-Spares (start_of k) refl) skip-Spares

  boot_up-Spares : Spares (boot_up w)
  boot_up-Spares =
      (call-Spares (start_of Component.order_journal) refl
        then_spares call-Spares (start_of Component.account_journal) refl
        then_spares call-Spares (start_of Component.event_log) refl
        then_spares call-Spares (start_of Component.alert_log) refl
        then_spares call-Spares (start_of Component.alert_router) refl
        then_spares call-Spares (start_of Component.event_bus) refl
        then_spares record {
          spares = λ s. (call-Spares subscribe refl).spares (record s { bus_running = true });
        })
      then_spares transition-Spares SystemState.reconciling (Reason.free_text 0)
      then_spares (start_if-Spares w.oms_is_lifecycle Component.oms
          then_spares start_if-Spares w.pms_is_lifecycle Component.pms
          then_spares call-Spares (start_of Component.venue) refl
          then_spares call-Spares (start_of Component.market_data) refl
          then_spares call-Spares get_open_orders refl
          then_spares call-Spares get_positions refl
          then_spares call-Spares get_balance refl
          then_spares call-Spares reconcile refl)
      then_spares transition-Spares SystemState.running (Reason.free_text 1)
      then_spares record { spares = λ s. refl }

  pub start-Spares : Spares (start w)
  unfolding start
  start-Spares = record {
    spares = λ s. elim (Bool-cases (same_state s.state SystemState.booting)) [
      | inl e ↦ rw (start, e) (boot_up-Spares.spares s)
      | inr e ↦ rw (start, e) refl
    ];
  }

  alert-Spares :
      (reason : Reason) (name : Option ℕ)
      → Spares (λ s. call w (send_alert (quarantine_alert w reason name s)) s)
  alert-Spares reason name = record {
    spares = λ s. (call-Spares (send_alert (quarantine_alert w reason name s)) refl).spares s;
  }

  quarantine-Spares : (reason : Reason) (name : Option ℕ) → Spares (quarantine w reason name)
  unfolding quarantine
  quarantine-Spares reason name = record {
    spares = λ s. elim (Bool-cases (same_state s.state SystemState.running)) [
      | inl e ↦
          rw (quarantine, e)
            ((attempt-Spares (call-Spares cancel_all refl)
                then_spares transition-Spares SystemState.quarantine reason
                then_spares alert-Spares reason name).spares
              s)
      | inr e ↦ rw (quarantine, e) refl
    ];
  }

  on_breaker_tripped-Spares : (event : BreakerTripped) → Spares (on_breaker_tripped w event)
  unfolding on_breaker_tripped
  on_breaker_tripped-Spares event = go event.action
    where
      go :
          (action : TriggerAction)
          → Spares (on_breaker_tripped w (record event { action = action }))
      go TriggerAction.reject_new = skip-Spares
      go TriggerAction.cancel_all = attempt-Spares (call-Spares cancel_all refl)
      go TriggerAction.quarantine = quarantine-Spares event.reason (some event.breaker_name)
      go TriggerAction.flatten =
          attempt-Spares (call-Spares cancel_all refl)
          then_spares quarantine-Spares event.reason (some event.breaker_name)

  deliver-spares :
      (events : List BreakerTripped) (s : Supervisor)
      → stops (deliver w events s).calls ≡ stops s.calls
  unfolding deliver attempt
  deliver-spares [] s = refl
  deliver-spares (e ∷ es) s =
      deliver-spares es (on_breaker_tripped w e s).1 ∙ (on_breaker_tripped-Spares e).spares s

  tick-spares : (s : Supervisor) → stops (tick w s).calls ≡ stops s.calls
  unfolding tick tick_risk
  tick-spares s =
      let beat = publish (heartbeat_of w s) in
      let s1 : Supervisor = (call w beat s).1 in
      let s2 : Supervisor = (call w reconcile s1).1 in
      deliver-spares (w.trips (length s2.calls)) (call w risk_tick s2).1
      ∙ (call-Spares risk_tick refl).spares s2
      ∙ (call-Spares reconcile refl).spares s1
      ∙ (call-Spares beat refl).spares s

  pub idle-Spares : (rounds : ℕ) → Spares (idle w rounds)
  unfolding idle
  idle-Spares zero = record { spares = λ s. refl }
  idle-Spares (suc rounds) = record {
    spares = λ s. (idle-Spares rounds).spares (tick w s) ∙ tick-spares s;
  }
