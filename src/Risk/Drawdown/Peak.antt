-- ===== src/Risk/Drawdown/Peak.antt =====
-- The peak of src/trading/risk/breakers/drawdown.py: `max` over the window, and when it trips.
use claude_trade_teams.Base.{
  ◌∙◌, ap, ◌↔◌, subst, some-injective, ◌-◌, ◌≤◌, ◌≡◌, ◌≢◌, ◌⊎◌, refl, Bool, true, false, Option,
  none, some, List, [], ◌∷◌, ◌++◌, All, leb, arith, Bool-cases, inl, inr,
}
use claude_trade_teams.Base.Decimal.{parts_of_eq, eq_of_parts, Decimal, Context, pos, ◌≤ℤ◌, ◌<ℤ◌}
use claude_trade_teams.Domain.{Time, RiskContext, Trigger}
use claude_trade_teams.Risk.Drawdown.{
  DrawdownBreaker, judge, evaluate, peak_of, peak_from, prune, larger, recorded, drawdown_from,
}

-- The equity stands in the history.
abbrev pub IsEquityOf : Decimal → List (Time × Decimal) → Type 0
IsEquityOf x [] = ⊥
IsEquityOf x ((_, e) ∷ rest) = (x ≡ e) ⊎ IsEquityOf x rest

larger-ge : (a b : Decimal) → (a ≤ℤ larger a b) × (b ≤ℤ larger a b)
unfolding larger
larger-ge a b = ground arith

larger-cases : (a b : Decimal) → (larger a b ≡ a) ⊎ (larger a b ≡ b)
unfolding larger
larger-cases a b = ground arith

peak_from-ge :
    (first : Decimal) (rest : List (Time × Decimal))
    → (first ≤ℤ peak_from first rest) × All (λ e. e.1 ≤ℤ peak_from first rest) rest
unfolding peak_from
peak_from-ge first [] = (ground arith, tt)
peak_from-ge first ((t, e) ∷ rest) =
    let ih = peak_from-ge (larger first e) rest in
    let step = larger-ge first e in
    (omega (arith, ih.0, step.0), (omega (arith, ih.0, step.1), ih.1))

peak_from-attained :
    (first : Decimal) (rest : List (Time × Decimal))
    → (peak_from first rest ≡ first) ⊎ IsEquityOf (peak_from first rest) rest
unfolding peak_from
peak_from-attained first [] = inl refl
peak_from-attained first ((t, e) ∷ rest) = elim (peak_from-attained (larger first e) rest) [
  | inl h ↦ elim (larger-cases first e) [ inl k ↦ inl (h ∙ k) | inr k ↦ inr (inl (h ∙ k)) ]
  | inr h ↦ inr (inr h)
]

-- The largest equity of a history.
abbrev pub IsPeak : Decimal → List (Time × Decimal) → Type 0
IsPeak x history = All (λ e. e.1 ≤ℤ x) history × IsEquityOf x history

le_of_IsEquityOf :
    (x y : Decimal) (history : List (Time × Decimal))
    → IsEquityOf x history
    → All (λ e. e.1 ≤ℤ y) history
    → x ≤ℤ y
le_of_IsEquityOf x y [] h a = elim h [ ]
le_of_IsEquityOf x y ((t, e) ∷ rest) (inl h) a = omega (arith, parts_of_eq x e h, a.0)
le_of_IsEquityOf x y ((t, e) ∷ rest) (inr h) a = le_of_IsEquityOf x y rest h a.1

IsPeak-unique :
    (x y : Decimal) (history : List (Time × Decimal)) → IsPeak x history → IsPeak y history → x ≡ y
IsPeak-unique x y history h k =
    let a = le_of_IsEquityOf x y history h.1 k.0 in
    let b = le_of_IsEquityOf y x history k.1 h.0 in eq_of_parts x y (omega (arith, a, b))

peak_of-IsPeak :
    (peak : Decimal) (history : List (Time × Decimal))
    → peak_of history ≡ some peak
    → IsPeak peak history
unfolding peak_of
peak_of-IsPeak peak [] h = ground arith
peak_of-IsPeak peak ((t, e) ∷ rest) h =
    let ge = peak_from-ge e rest in
    subst (λ p. IsPeak p ((t, e) ∷ rest)) (some-injective _ _ h)
      ((ge.0, ge.1), peak_from-attained e rest)

IsEquityOf-prune :
    (cutoff now : Time) (x : Decimal) (history : List (Time × Decimal))
    → cutoff ≤ now
    → IsEquityOf x (prune cutoff (history ++ ((now, x) ∷ [])))
unfolding prune
IsEquityOf-prune cutoff now x [] h = let l : leb cutoff now ≡ true = ground arith in rw l (inl refl)
IsEquityOf-prune cutoff now x ((t, e) ∷ history) h =
    let ih = IsEquityOf-prune cutoff now x history h in
    elim (Bool-cases (leb cutoff t)) [ inl l ↦ rw l (inr ih) | inr l ↦ rw l ih ]

peak_of-total :
    (x : Decimal) (history : List (Time × Decimal))
    → IsEquityOf x history
    → (peak : Decimal) × (peak_of history ≡ some peak)
unfolding peak_of
peak_of-total x [] h = elim h [ ]
peak_of-total x ((t, e) ∷ rest) h = (peak_from e rest, refl)

pub recorded-IsPeak :
    (b : DrawdownBreaker) (context : RiskContext)
    → (peak : Decimal) × (peak_of (recorded b context) ≡ some peak)
      × IsPeak peak (recorded b context)
unfolding recorded
recorded-IsPeak b context =
    let found = peak_of-total context.balance.total (recorded b context) (
      IsEquityOf-prune (context.now - b.window) context.now context.balance.total b.equity_history
        (omega arith)) in
    (found.0, found.1, peak_of-IsPeak found.0 (recorded b context) found.1)

-- whether an evaluation that does not raise returns a trigger
abbrev pub trips : Option (Option Trigger × DrawdownBreaker) → Bool
trips none = false
trips (some (none, _)) = false
trips (some (some _, _)) = true

module _ (c : Context) where
  judge-trips_iff :
      (b : DrawdownBreaker) (peak equity : Decimal)
      → (trips (some (judge c b peak equity)) ≡ true)
        ↔ ((pos 0 <ℤ peak) × (b.threshold <ℤ drawdown_from c peak equity))
  unfolding judge
  judge-trips_iff b peak equity = (λ h. ground arith, λ h. ground (arith, h.0, h.1))

  -- An evaluation never raises: the window always holds the equity just recorded.
  pub evaluate-total : (b : DrawdownBreaker) (context : RiskContext) → evaluate c b context ≢ none
  unfolding evaluate peak_of recorded
  evaluate-total b context h = elim (Bool-cases b.latched) [
    | inl l ↦ let g = rw (evaluate, l) at h in ground (arith, g)
    | inr l ↦
        let found = recorded-IsPeak b context in
        let g = rw (evaluate, l, found.1) at h in ground (arith, g)
  ]

  -- A breaker that is not latched trips exactly when the largest equity in its window, the current
  -- one included, is positive and the loss from it, as a part of it, is above the threshold.
  pub evaluate-trips_iff :
      (b : DrawdownBreaker) (context : RiskContext) (peak : Decimal)
      → b.latched ≡ false
      → IsPeak peak (recorded b context)
      → (trips (evaluate c b context) ≡ true)
        ↔ ((pos 0 <ℤ peak) × (b.threshold <ℤ drawdown_from c peak context.balance.total))
  unfolding evaluate peak_of recorded
  evaluate-trips_iff b context peak l h =
      let found = recorded-IsPeak b context in
      let same : found.0 ≡ peak = IsPeak-unique found.0 peak (recorded b context) found.2 h in
      let e : peak_of (recorded b context) ≡ some peak = found.1 ∙ ap some same in
      rw (evaluate, l, e)
        (judge-trips_iff (record b { equity_history = recorded b context }) peak
          context.balance.total)
