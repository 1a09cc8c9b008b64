-- ===== src/Runtime/Supervisor/Acknowledge.antt =====
-- How `acknowledge` of src/trading/runtime/supervisor/default.py ends.
use claude_trade_teams.Base.{
  ◌≡◌, refl, ap, ◌∙◌, ℕ, suc, Bool, true, false, if◌then◌else◌, ◌||◌, [], ◌∷◌, ◌++◌, length,
  length-snoc, Bool-cases, inl, inr,
}
use claude_trade_teams.Domain.{SystemState, Reason}
use claude_trade_teams.Runtime.Supervisor.Actions.{
  Call, get_open_orders, get_positions, reconcile, Supervisor, World, Action, returned, raised,
  Exit, same_state, ◌then_do◌, call, transition,
}
use claude_trade_teams.Runtime.Supervisor.Methods.{acknowledge}
use claude_trade_teams.Runtime.Supervisor.Quarantine.{transition-state}

abbrev pub is_raised : Exit → Bool
is_raised returned = false
is_raised raised = true

-- the state after a call
abbrev pub with_call : Call → Supervisor → Supervisor
with_call k s = record s { calls = s.calls ++ k ∷ [] }

-- the state after the three calls of the reconciliation
abbrev pub reconciled : Supervisor → Supervisor
reconciled s = with_call reconcile (with_call get_positions (with_call get_open_orders s))

module _ (w : World) where
  -- One of the three calls of the reconciliation raises, of which the first is the nth call.
  abbrev pub fails_from : ℕ → Bool
  fails_from n =
      w.raises n get_open_orders
      || w.raises (suc n) get_positions
      || w.raises (suc (suc n)) reconcile

  module _ (b : Action) (k : Call) (s : Supervisor) where
    call-returns : w.raises (length s.calls) k ≡ false → (call w k then_do b) s ≡ b (with_call k s)
    unfolding ◌then_do◌ call
    call-returns e = rw (◌then_do◌, call, e) refl

    call-raises :
        w.raises (length s.calls) k ≡ true → (call w k then_do b) s ≡ (raised, with_call k s)
    unfolding ◌then_do◌ call
    call-raises e = rw (◌then_do◌, call, e) refl

  abbrev last_step : Action
  last_step = transition w SystemState.running (Reason.free_text 6)

  -- How the steps after the first change of state end.
  abbrev Ends : Supervisor → Exit × Supervisor → Type 0
  Ends s r =
      let fails = fails_from (length s.calls) in
      (r.1.state ≡ (if fails then SystemState.reconciling else SystemState.running))
      × (r.0 ≡ (if fails then raised else (last_step (reconciled s)).0))

  abbrev steps_3 : Action
  steps_3 = call w reconcile then_do last_step

  abbrev steps_2 : Action
  steps_2 = call w get_positions then_do steps_3

  reconcile-Ends :
      (s : Supervisor)
      → s.state ≡ SystemState.reconciling
      → Ends s ((call w get_open_orders then_do steps_2) s)
  reconcile-Ends s h =
      let s1 = with_call get_open_orders s in
      let s2 = with_call get_positions s1 in
      let n1 = length-snoc s.calls get_open_orders in
      let n2 = length-snoc s1.calls get_positions ∙ ap suc n1 in
      let at1 = ap (λ n. w.raises n get_positions) n1 in
      let at2 = ap (λ n. w.raises n reconcile) n2 in
      elim (Bool-cases (w.raises (length s.calls) get_open_orders)) [
        | inl e ↦ rw (call-raises steps_2 get_open_orders s e, e) (h, refl)
        | inr e ↦ elim (Bool-cases (w.raises (suc (length s.calls)) get_positions)) [
          | inl f ↦
              rw
                (
                  call-returns steps_2 get_open_orders s e,
                  call-raises steps_3 get_positions s1 (at1 ∙ f),
                  e,
                  f,
                )
                (h, refl)
          | inr f ↦ elim (Bool-cases (w.raises (suc (suc (length s.calls))) reconcile)) [
            | inl g ↦
                rw
                  (
                    call-returns steps_2 get_open_orders s e,
                    call-returns steps_3 get_positions s1 (at1 ∙ f),
                    call-raises last_step reconcile s2 (at2 ∙ g),
                    e,
                    f,
                    g,
                  )
                  (h, refl)
            | inr g ↦
                rw
                  (
                    call-returns steps_2 get_open_orders s e,
                    call-returns steps_3 get_positions s1 (at1 ∙ f),
                    call-returns last_step reconcile s2 (at2 ∙ g),
                    e,
                    f,
                    g,
                  )
                  (transition-state w SystemState.running (Reason.free_text 6) (reconciled s), refl)
          ]
        ]
      ]

  -- An acknowledgement in QUARANTINE leaves QUARANTINE. Where the change to RECONCILING raises, or
  -- one of the three calls of the reconciliation raises, the acknowledgement raises and the system is
  -- left in RECONCILING. Otherwise the system is left in RUNNING, and the acknowledgement returns or
  -- raises as the change to RUNNING does.
  pub acknowledge-leaves :
      (s : Supervisor)
      → s.state ≡ SystemState.quarantine
      → let t = transition w SystemState.reconciling (Reason.free_text 5) s in
        let fails = is_raised t.0 || fails_from (length t.1.calls) in
        ((acknowledge w s).1.state
          ≡ (if fails then SystemState.reconciling else SystemState.running))
        × ((acknowledge w s).0 ≡ (
            if fails
            then raised
            else (transition w SystemState.running (Reason.free_text 6) (reconciled t.1)).0))
  unfolding acknowledge ◌then_do◌
  acknowledge-leaves s h =
      let b : same_state s.state SystemState.quarantine ≡ true = rw h refl in
      let t = transition w SystemState.reconciling (Reason.free_text 5) s in
      let e = transition-state w SystemState.reconciling (Reason.free_text 5) s in
      rw (acknowledge, b) (after t e)
    where
      after :
          (r : Exit × Supervisor)
          → r.1.state ≡ SystemState.reconciling
          → let fails = is_raised r.0 || fails_from (length r.1.calls) in
            let end = elim r.0 as (λ _. Exit × Supervisor) [
              | returned ↦ (call w get_open_orders then_do steps_2) r.1
              | raised ↦ (raised, r.1)
            ] in
            (end.1.state ≡ (if fails then SystemState.reconciling else SystemState.running))
            × (end.0 ≡ (if fails then raised else (last_step (reconciled r.1)).0))
      after (returned, s') k = reconcile-Ends s' k
      after (raised, s') k = (k, refl)
