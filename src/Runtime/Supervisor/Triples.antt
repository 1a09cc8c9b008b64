-- ===== src/Runtime/Supervisor/Triples.antt =====
-- Each method of src/trading/runtime/supervisor/default.py follows the arrows between states,
-- whatever the components do.
use claude_trade_teams.Base.{
  ℕ, ◌≡◌, refl, Bool, true, false, ◌||◌, if◌then◌else◌, Option, arith, Bool-cases, inl, inr,
}
use claude_trade_teams.Domain.{SystemState, Reason}
use claude_trade_teams.Runtime.Supervisor.Actions.{
  Component, start_of, stop_of, subscribe, get_open_orders, get_positions, get_balance, reconcile,
  cancel_all, send_alert, Supervisor, World, Action, returned, raised, Exit, same_state,
}
use claude_trade_teams.Runtime.Supervisor.Methods.{
  start_if, open_bus, start_infrastructure, start_trading, boot_up, start, safe_stop, stop_if,
  cancel_ticking, close_bus, cancel_if, stop_trading, stop_persistence, shut_down, stop,
  quarantine_alert, enter_quarantine, quarantine, leave_quarantine, acknowledge,
}
use claude_trade_teams.Runtime.Supervisor.Edges.{
  IsEdge, reconciled, trip, ack, drain_booting, drain_reconciling, drain_running, drain_quarantine,
  drained, IsAt, IsLogged, Ends, Triple, ◌next◌, if-Triple, skip-Triple, call-Triple,
  attempt-Triple, transition-Triple,
}

pub same_state_sound : (a b : SystemState) → same_state a b ≡ true → a ≡ b
same_state_sound a b h = ground arith

weaken-Ends : (st : SystemState) (r : Exit × Supervisor) → Ends (IsAt st) IsLogged r → IsLogged r.1
weaken-Ends st (returned, t) e = e.1
weaken-Ends st (raised, t) e = e

-- however the method ends, what was written is a path
after_end :
    {P : Supervisor → Type 0} {a : Action} (st : SystemState)
    → Triple P a (IsAt st)
    → (s : Supervisor) → P s
    → IsLogged (a s).1
after_end {a = a} st f s p = weaken-Ends st (a s) (f.ends s p)

module _ (w : World) where
  open_bus-Triple : (st : SystemState) → Triple (IsAt st) (open_bus w) (IsAt st)
  open_bus-Triple st = call-Triple w (start_of Component.event_bus) st refl next record {
    ends = λ s p. (call-Triple w subscribe st refl).ends (record s { bus_running = true }) p;
  }

  start_if-Triple :
      (b : Bool) (k : Component) (st : SystemState) → Triple (IsAt st) (start_if w b k) (IsAt st)
  start_if-Triple b k st = if-Triple b (call-Triple w (start_of k) st refl) (skip-Triple (IsAt st))

  start_infrastructure-Triple :
      Triple (IsAt SystemState.booting) (start_infrastructure w) (IsAt SystemState.booting)
  start_infrastructure-Triple =
      call-Triple w (start_of Component.order_journal) SystemState.booting refl
      next call-Triple w (start_of Component.account_journal) SystemState.booting refl
      next call-Triple w (start_of Component.event_log) SystemState.booting refl
      next call-Triple w (start_of Component.alert_log) SystemState.booting refl
      next call-Triple w (start_of Component.alert_router) SystemState.booting refl
      next open_bus-Triple SystemState.booting

  start_trading-Triple :
      Triple (IsAt SystemState.reconciling) (start_trading w) (IsAt SystemState.reconciling)
  start_trading-Triple =
      start_if-Triple w.oms_is_lifecycle Component.oms SystemState.reconciling
      next start_if-Triple w.pms_is_lifecycle Component.pms SystemState.reconciling
      next call-Triple w (start_of Component.venue) SystemState.reconciling refl
      next call-Triple w (start_of Component.market_data) SystemState.reconciling refl
      next call-Triple w get_open_orders SystemState.reconciling refl
      next call-Triple w get_positions SystemState.reconciling refl
      next call-Triple w get_balance SystemState.reconciling refl
      next call-Triple w reconcile SystemState.reconciling refl

  pub boot-Triple : Triple (IsAt SystemState.booting) (boot_up w) (IsAt SystemState.running)
  boot-Triple =
      start_infrastructure-Triple
      next transition-Triple w SystemState.booting SystemState.reconciling (Reason.free_text 0)
          IsEdge.boot
      next start_trading-Triple
      next transition-Triple w SystemState.reconciling SystemState.running (Reason.free_text 1)
          reconciled
      next record { ends = λ s p. p }

  pub start-IsLogged : (s : Supervisor) → IsLogged s → IsLogged (start w s).1
  unfolding start
  start-IsLogged s h = elim (Bool-cases (same_state s.state SystemState.booting)) [
    | inl e ↦
        rw (start, e)
          (after_end SystemState.running boot-Triple s
            (same_state_sound s.state SystemState.booting e, h))
    | inr e ↦ rw (start, e) h
  ]

  safe_stop-Triple : (k : Component) (st : SystemState) → Triple (IsAt st) (safe_stop w k) (IsAt st)
  safe_stop-Triple k st = attempt-Triple w (stop_of k) st refl

  stop_if-Triple :
      (b : Bool) (k : Component) (st : SystemState) → Triple (IsAt st) (stop_if w b k) (IsAt st)
  stop_if-Triple b k st = if-Triple b (safe_stop-Triple k st) (skip-Triple (IsAt st))

  close_bus-Triple : (st : SystemState) → Triple (IsAt st) (close_bus w) (IsAt st)
  close_bus-Triple st = record {
    ends =
        λ s p. (safe_stop-Triple Component.event_bus st).ends (record s { bus_running = false }) p;
  }

  stop_trading-Triple : (st : SystemState) → Triple (IsAt st) (stop_trading w) (IsAt st)
  stop_trading-Triple st =
      safe_stop-Triple Component.market_data st
      next safe_stop-Triple Component.venue st
      next close_bus-Triple st
      next stop_if-Triple w.oms_is_lifecycle Component.oms st
      next stop_if-Triple w.pms_is_lifecycle Component.pms st

  stop_persistence-Triple : (st : SystemState) → Triple (IsAt st) (stop_persistence w) (IsAt st)
  stop_persistence-Triple st =
      safe_stop-Triple Component.alert_router st
      next safe_stop-Triple Component.alert_log st
      next safe_stop-Triple Component.event_log st
      next safe_stop-Triple Component.account_journal st
      next safe_stop-Triple Component.order_journal st

  cancel_if-Triple : (b : Bool) (st : SystemState) → Triple (IsAt st) (cancel_if w b) (IsAt st)
  cancel_if-Triple b st = if-Triple b (attempt-Triple w cancel_all st refl) (skip-Triple (IsAt st))

  cancel_ticking-Triple : (st : SystemState) → Triple (IsAt st) (cancel_ticking w) (IsAt st)
  cancel_ticking-Triple st = record { ends = λ s p. p }

  shut_down-Triple :
      (drain : Bool) (st : SystemState)
      → IsEdge st SystemState.draining
      → Triple (IsAt st) (shut_down w drain) (IsAt SystemState.stopped)
  shut_down-Triple drain st e =
      cancel_ticking-Triple st
      next transition-Triple w st SystemState.draining (Reason.free_text (if drain then 3 else 2)) e
      next cancel_if-Triple drain SystemState.draining
      next stop_trading-Triple SystemState.draining
      next transition-Triple w SystemState.draining SystemState.stopped (Reason.free_text 4) drained
      next stop_persistence-Triple SystemState.stopped

  edge_to_draining :
      (st : SystemState)
      → (same_state st SystemState.stopped || same_state st SystemState.draining) ≡ false
      → IsEdge st SystemState.draining
  edge_to_draining SystemState.booting h = drain_booting
  edge_to_draining SystemState.reconciling h = drain_reconciling
  edge_to_draining SystemState.running h = drain_running
  edge_to_draining SystemState.quarantine h = drain_quarantine
  edge_to_draining SystemState.draining h = ground (arith, h)
  edge_to_draining SystemState.stopped h = ground (arith, h)

  pub stop-IsLogged : (drain : Bool) (s : Supervisor) → IsLogged s → IsLogged (stop w drain s).1
  unfolding stop
  stop-IsLogged drain s h =
      elim (Bool-cases
        (same_state s.state SystemState.stopped || same_state s.state SystemState.draining)) [
          | inl e ↦ rw (stop, e) h
          | inr e ↦
              rw (stop, e)
                (after_end SystemState.stopped
                  (shut_down-Triple drain s.state (edge_to_draining s.state e)) s (refl, h))
        ]

  enter_quarantine-Triple :
      (reason : Reason) (name : Option ℕ)
      → Triple
          (IsAt SystemState.running)
          (enter_quarantine w reason name)
          (IsAt SystemState.quarantine)
  enter_quarantine-Triple reason name =
      attempt-Triple w cancel_all SystemState.running refl
      next transition-Triple w SystemState.running SystemState.quarantine reason trip
      next record {
        ends = λ s p.
            (call-Triple w (send_alert (quarantine_alert w reason name s)) SystemState.quarantine
                refl).ends
              s p;
      }

  pub quarantine-IsLogged :
      (reason : Reason) (name : Option ℕ) (s : Supervisor)
      → IsLogged s
      → IsLogged (quarantine w reason name s).1
  unfolding quarantine
  quarantine-IsLogged reason name s h = elim (Bool-cases (same_state s.state SystemState.running)) [
    | inl e ↦
        rw (quarantine, e)
          (after_end SystemState.quarantine (enter_quarantine-Triple reason name) s
            (same_state_sound s.state SystemState.running e, h))
    | inr e ↦ rw (quarantine, e) h
  ]

  leave_quarantine-Triple :
      Triple (IsAt SystemState.quarantine) (leave_quarantine w) (IsAt SystemState.running)
  leave_quarantine-Triple =
      transition-Triple w SystemState.quarantine SystemState.reconciling (Reason.free_text 5) ack
      next call-Triple w get_open_orders SystemState.reconciling refl
      next call-Triple w get_positions SystemState.reconciling refl
      next call-Triple w reconcile SystemState.reconciling refl
      next transition-Triple w SystemState.reconciling SystemState.running (Reason.free_text 6)
          reconciled

  pub acknowledge-IsLogged : (s : Supervisor) → IsLogged s → IsLogged (acknowledge w s).1
  unfolding acknowledge
  acknowledge-IsLogged s h = elim (Bool-cases (same_state s.state SystemState.quarantine)) [
    | inl e ↦
        rw (acknowledge, e)
          (after_end SystemState.running leave_quarantine-Triple s
            (same_state_sound s.state SystemState.quarantine e, h))
    | inr e ↦ rw (acknowledge, e) h
  ]
