-- ===== src/Risk/Limits.antt =====
-- The stateless breakers: src/trading/risk/breakers/leverage.py, position_notional.py,
-- liquidation_distance.py and funding_spike.py. A constructor that raises is `none`.
use claude_trade_teams.Base.{
  ◌⊎◌, ℕ, ◌≡◌, ◌↔◌, Bool, true, false, not, if◌then◌else◌, Option, none, some, List, All, contains,
  arith, Option-cases, Bool-cases, inl, inr, refl,
}
use claude_trade_teams.Base.Decimal.{le_or_lt, Decimal, Context, pos, ◌-ℤ◌, ◌≤ℤ◌, ltb_ℤ, leb_ℤ, abs}
use claude_trade_teams.Domain.{
  Symbol, Position, FundingRate, RiskContext, Trigger, TriggerAction, Reason,
}
use claude_trade_teams.Risk.Loop.{first_trigger, silent_iff}

pub record LimitBreaker : Type 0 where
  pub limit : Decimal
  pub action : TriggerAction
  pub name : ℕ

-- the constructors of `LeverageBreaker`, `PositionNotionalBreaker`, `LiquidationDistanceBreaker`
unfoldable pub new : Decimal → TriggerAction → ℕ → Option LimitBreaker
new limit action name =
    if leb_ℤ limit (pos 0)
    then none
    else some (record { limit = limit; action = action; name = name })

abbrev trip : LimitBreaker → Reason → Option Trigger
trip b reason = some (record { breaker_name = b.name; action = b.action; reason = reason })

-- one round of the loop of `LeverageBreaker.evaluate`
unfoldable pub check_leverage : LimitBreaker → Position → Option Trigger
check_leverage b p =
    if ltb_ℤ b.limit p.leverage
    then trip b (Reason.leverage_of p.symbol p.leverage b.limit)
    else none

-- `LeverageBreaker.evaluate`
unfoldable pub evaluate_leverage : LimitBreaker → RiskContext → Option Trigger
evaluate_leverage b context = first_trigger (check_leverage b) context.positions

module _ (c : Context) where
  -- one round of the loop of `PositionNotionalBreaker.evaluate`
  unfoldable pub check_notional : LimitBreaker → Position → Option Trigger
  check_notional b p =
      let notional = c.times (abs p.quantity) p.mark_price in
      if ltb_ℤ b.limit notional then trip b (Reason.notional_of p.symbol notional b.limit) else none

  -- `PositionNotionalBreaker.evaluate`
  unfoldable pub evaluate_notional : LimitBreaker → RiskContext → Option Trigger
  evaluate_notional b context = first_trigger (check_notional b) context.positions

  -- how far the mark is from the liquidation price, as a part of the mark
  abbrev pub distance : Position → Decimal → Decimal
  distance p liquidation = c.over (abs (p.mark_price -ℤ liquidation)) p.mark_price

  -- one round of the loop of `LiquidationDistanceBreaker.evaluate`
  unfoldable pub check_distance : LimitBreaker → Position → Option Trigger
  check_distance b p = elim p.liquidation_price [
    | none ↦ none
    | some liquidation ↦
        if leb_ℤ p.mark_price (pos 0)
        then none
        else if ltb_ℤ (distance p liquidation) b.limit
        then trip b
            (Reason.distance_of p.symbol (distance p liquidation) b.limit p.mark_price liquidation)
        else none
  ]

  -- `LiquidationDistanceBreaker.evaluate`
  unfoldable pub evaluate_distance : LimitBreaker → RiskContext → Option Trigger
  evaluate_distance b context = first_trigger (check_distance b) context.positions

-- `self._symbols is not None and symbol not in self._symbols`
abbrev pub skips : Option (List Symbol) → Symbol → Bool
skips none symbol = false
skips (some symbols) symbol = not (contains symbol symbols)

-- one round of the loop of `FundingSpikeBreaker.evaluate`
unfoldable pub check_funding :
    LimitBreaker → Option (List Symbol) → Symbol × FundingRate → Option Trigger
check_funding b symbols (symbol, fr) =
    if skips symbols symbol
    then none
    else if ltb_ℤ b.limit (abs fr.rate)
    then trip b (Reason.funding_of symbol fr.rate b.limit)
    else none

-- `FundingSpikeBreaker.evaluate`
unfoldable pub evaluate_funding : LimitBreaker → Option (List Symbol) → RiskContext → Option Trigger
evaluate_funding b symbols context = first_trigger (check_funding b symbols) context.funding_rates

leverage_iff :
    (b : LimitBreaker) (p : Position) → (check_leverage b p ≡ none) ↔ (p.leverage ≤ℤ b.limit)
unfolding check_leverage
leverage_iff b p = (λ h. ground arith, λ h. ground arith)

-- The leverage breaker stays silent exactly when no position's leverage is above the limit.
pub evaluate_leverage-eq-none_iff :
    (b : LimitBreaker) (context : RiskContext)
    → (evaluate_leverage b context ≡ none) ↔ All (λ p. p.leverage ≤ℤ b.limit) context.positions
unfolding evaluate_leverage
evaluate_leverage-eq-none_iff b context =
    silent_iff (check_leverage b) context.positions (leverage_iff b)

module _ (c : Context) where
  notional_iff :
      (b : LimitBreaker) (p : Position)
      → (check_notional c b p ≡ none) ↔ (c.times (abs p.quantity) p.mark_price ≤ℤ b.limit)
  unfolding check_notional
  notional_iff b p = (λ h. ground arith, λ h. ground arith)

  -- The notional breaker stays silent exactly when no position's absolute quantity times its mark
  -- price is above the limit.
  pub evaluate_notional-eq-none_iff :
      (b : LimitBreaker) (context : RiskContext)
      → (evaluate_notional c b context ≡ none)
        ↔ All (λ p. c.times (abs p.quantity) p.mark_price ≤ℤ b.limit) context.positions
  unfolding evaluate_notional
  evaluate_notional-eq-none_iff b context =
      silent_iff (check_notional c b) context.positions (notional_iff b)

  -- With a liquidation price and a positive mark, the mark is at least `limit` away from it.
  abbrev FarFrom : Decimal → Position → Option Decimal → Type 0
  FarFrom limit p none = Unit
  FarFrom limit p (some liquidation) = (p.mark_price ≤ℤ pos 0) ⊎ (limit ≤ℤ distance c p liquidation)

  abbrev pub IsFarEnough : Decimal → Position → Type 0
  IsFarEnough limit p = FarFrom limit p p.liquidation_price

  distance_iff :
      (b : LimitBreaker) (p : Position) → (check_distance c b p ≡ none) ↔ IsFarEnough b.limit p
  unfolding check_distance
  distance_iff b p = elim (Option-cases p.liquidation_price) [
    | inl e ↦ rw (check_distance, IsFarEnough, e) ((λ h. tt, λ h. refl))
    | inr (l, e) ↦
        rw (check_distance, IsFarEnough, e)
          (
            λ h. elim (le_or_lt p.mark_price (pos 0)) [
              | inl k ↦ inl k
              | inr k ↦ inr (ground (arith, h, k))
            ],
            λ h. elim h [ inl k ↦ ground (arith, k) | inr k ↦ ground (arith, k) ],
          )
  ]

  -- The liquidation breaker stays silent exactly when every position that has a liquidation price
  -- and a positive mark price is at least the limit away from liquidation.
  pub evaluate_distance-eq-none_iff :
      (b : LimitBreaker) (context : RiskContext)
      → (evaluate_distance c b context ≡ none) ↔ All (IsFarEnough b.limit) context.positions
  unfolding evaluate_distance
  evaluate_distance-eq-none_iff b context =
      silent_iff (check_distance c b) context.positions (distance_iff b)

-- The breaker does not watch the symbol, or its rate is within the limit.
abbrev pub IsCalm : Decimal → Option (List Symbol) → Symbol × FundingRate → Type 0
IsCalm limit symbols (symbol, fr) = (skips symbols symbol ≡ true) ⊎ (abs fr.rate ≤ℤ limit)

funding_iff :
    (b : LimitBreaker) (symbols : Option (List Symbol)) (e : Symbol × FundingRate)
    → (check_funding b symbols e ≡ none) ↔ IsCalm b.limit symbols e
unfolding check_funding
funding_iff b symbols (symbol, fr) = elim (Bool-cases (skips symbols symbol)) [
  | inl e ↦ (λ h. inl e, λ h. rw (check_funding, e) refl)
  | inr e ↦ (
    λ h. let g = rw (check_funding, e) at h in inr (ground (arith, g)),
    λ h. elim h [
      | inl k ↦ ground (arith, e, k)
      | inr k ↦ rw (check_funding, e) (ground (arith, k))
    ],
  )
]

-- The funding breaker stays silent exactly when no watched symbol's rate exceeds the limit in
-- absolute value.
pub evaluate_funding-eq-none_iff :
    (b : LimitBreaker) (symbols : Option (List Symbol)) (context : RiskContext)
    → (evaluate_funding b symbols context ≡ none)
      ↔ All (IsCalm b.limit symbols) context.funding_rates
unfolding evaluate_funding
evaluate_funding-eq-none_iff b symbols context =
    silent_iff (check_funding b symbols) context.funding_rates (funding_iff b symbols)
