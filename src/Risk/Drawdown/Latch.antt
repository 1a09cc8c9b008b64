-- ===== src/Risk/Drawdown/Latch.antt =====
-- The latch of src/trading/risk/breakers/drawdown.py: what sets it and what alone clears it.
use claude_trade_teams.Base.{
  some-injective, ap, sym, ◌≡◌, refl, true, false, Option, none, some, List, [], ◌∷◌, All, arith,
  Bool-cases, Option-cases, inl, inr,
}
use claude_trade_teams.Base.Decimal.{Decimal, Context}
use claude_trade_teams.Domain.{RiskContext, Trigger, Reason}
use claude_trade_teams.Risk.Drawdown.{
  DrawdownBreaker, is_acknowledge, on_state_change, judge, evaluate, Input, evaluation, change,
  react, run, peak_of, recorded,
}

-- The input is not the change from QUARANTINE to RECONCILING.
abbrev pub IsNotAcknowledge : Input → Type 0
IsNotAcknowledge (evaluation _) = Unit
IsNotAcknowledge (change event) = is_acknowledge event.old_state event.new_state ≡ false

-- the trigger of a latched breaker
abbrev pub latched_trigger : DrawdownBreaker → Trigger
latched_trigger b = record {
  breaker_name = b.name;
  action = b.action;
  reason = Reason.latched b.latched_reason;
}

module _ (c : Context) where
  evaluate-latched :
      (b : DrawdownBreaker) (context : RiskContext)
      → b.latched ≡ true
      → evaluate c b context ≡ some (some (latched_trigger b), b)
  unfolding evaluate
  evaluate-latched b context h = rw h refl

  react-latched :
      (b : DrawdownBreaker) (i : Input) → b.latched ≡ true → IsNotAcknowledge i → react c b i ≡ b
  unfolding react on_state_change
  react-latched b (evaluation context) h n = rw (react, evaluate-latched b context h) refl
  react-latched b (change event) h n = rw (on_state_change, n) refl

  run-latched :
      (b : DrawdownBreaker) (inputs : List Input)
      → b.latched ≡ true
      → All IsNotAcknowledge inputs
      → run c b inputs ≡ b
  unfolding run
  run-latched b [] h n = refl
  run-latched b (i ∷ inputs) h n = rw (react-latched b i h n.0) (run-latched b inputs h n.1)

  judge-latches :
      (b after : DrawdownBreaker) (peak equity : Decimal) (t : Trigger)
      → judge c b peak equity ≡ (some t, after)
      → after.latched ≡ true
  unfolding judge
  judge-latches b after peak equity t h = ground arith

  evaluate-latches :
      (b after : DrawdownBreaker) (context : RiskContext) (t : Trigger)
      → evaluate c b context ≡ some (some t, after)
      → after.latched ≡ true
  unfolding evaluate peak_of recorded
  evaluate-latches b after context t h = elim (Bool-cases b.latched) [
    | inl e ↦ sym (
        ap
          (λ (o : Option (Option Trigger × DrawdownBreaker)). elim o [
            | none ↦ true
            | some r ↦ r.1.latched
          ])
          (rw (evaluate, e) at h))
    | inr e ↦ elim (Option-cases (peak_of (recorded b context))) [
      | inl k ↦ let g : none ≡ some (some t, after) = rw (evaluate, e, k) at h in ground (arith, g)
      | inr (peak, k) ↦
          judge-latches (record b { equity_history = recorded b context }) after peak
            context.balance.total t (some-injective _ _ (rw (evaluate, e, k) at h))
    ]
  ]

  -- An evaluation that trips sets the latch: whatever follows, other than the change from
  -- QUARANTINE to RECONCILING, every later evaluation trips too, with the reason of the first trip,
  -- and leaves the breaker as it is.
  pub evaluate-stays_latched :
      (b after : DrawdownBreaker) (context later : RiskContext) (t : Trigger) (inputs : List Input)
      → evaluate c b context ≡ some (some t, after)
      → All IsNotAcknowledge inputs
      → evaluate c (run c after inputs) later ≡ some (some (latched_trigger after), after)
  evaluate-stays_latched b after context later t inputs h n =
      let l : after.latched ≡ true = evaluate-latches b after context t h in
      rw (run-latched after inputs l n) (evaluate-latched after later l)
