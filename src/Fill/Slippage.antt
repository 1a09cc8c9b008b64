-- ===== src/Fill/Slippage.antt =====
-- What `_walk` of src/trading/fill/orderbook.py charges for what it fills.
use claude_trade_teams.Base.{List, [], ◌∷◌, arith, All, Bool-cases, inl, inr}
use claude_trade_teams.Base.Decimal.{
  Decimal, Context, IsExact, IsMonotone, pos, ◌+ℤ◌, ◌-ℤ◌, ◌≤ℤ◌, leb_ℤ, min_ℤ, int_laws, add_times,
  zero_times, min_ℤ-cases, min_ℤ-le_left,
}
use claude_trade_teams.Domain.{Level}
use claude_trade_teams.Fill.Orderbook.{walk_from, walk}
use claude_trade_teams.Fill.Walk.{HasQuantity}

module _ (c : Context) (exact : IsExact c) (mono : IsMonotone c) (low high : Decimal) where
  -- The price of a level lies in the range.
  abbrev pub InRange : Level → Type 0
  InRange level = (low ≤ℤ level.price) × (level.price ≤ℤ high)

  -- A notional lies between the quantity at the lowest and at the highest price.
  abbrev pub Bounded : Decimal × Decimal → Type 0
  Bounded (filled, notional) = (c.times filled low ≤ℤ notional) × (notional ≤ℤ c.times filled high)

  take_nonneg : (r f q : Decimal) → pos 0 ≤ℤ q → f ≤ℤ r → pos 0 ≤ℤ min_ℤ (r -ℤ f) q
  take_nonneg r f q h k = elim (min_ℤ-cases (r -ℤ f) q) [
    | inl (e, _) ↦ rw e (omega int_laws)
    | inr (e, _) ↦ rw e h
  ]

  add_Bounded :
      (filled notional take price : Decimal)
      → (low ≤ℤ price) × (price ≤ℤ high)
      → pos 0 ≤ℤ take
      → Bounded (filled, notional)
      → Bounded (filled +ℤ take, notional +ℤ c.times take price)
  add_Bounded f n t p h k b =
      rw (add_times exact f t low, add_times exact f t high)
        (omega (int_laws, mono.times_mono t low p k h.0, mono.times_mono t p high k h.1))

  walk_from-Bounded :
      (levels : List Level) (remaining filled notional : Decimal)
      → All HasQuantity levels
      → All InRange levels
      → filled ≤ℤ remaining
      → Bounded (filled, notional)
      → Bounded (walk_from c levels remaining filled notional)
  unfolding walk_from
  walk_from-Bounded [] r f n h p le b = b
  walk_from-Bounded (l ∷ ls) r f n h p le b =
      let t = min_ℤ (r -ℤ f) l.quantity in
      let b' : Bounded (f +ℤ t, n +ℤ c.times t l.price) =
        add_Bounded f n t l.price p.0 (take_nonneg r f l.quantity h.0 le) b in
      elim (Bool-cases (leb_ℤ r (f +ℤ t))) [
        | inl done ↦ rw done b'
        | inr more ↦ rw more (
            walk_from-Bounded ls r (f +ℤ t) _ h.1 p.1
              (omega (int_laws, min_ℤ-le_left (r -ℤ f) l.quantity)) b')
      ]

  -- If no level has a negative quantity and all prices lie between `low` and `high`, then what a
  -- walk charges lies between the filled quantity times `low` and the filled quantity times
  -- `high`, where the context rounds no product and products grow with the price.
  pub walk-Bounded :
      (levels : List Level) (remaining : Decimal)
      → All HasQuantity levels
      → All InRange levels
      → pos 0 ≤ℤ remaining
      → (c.times (walk c levels remaining).0 low ≤ℤ (walk c levels remaining).1)
        × ((walk c levels remaining).1 ≤ℤ c.times (walk c levels remaining).0 high)
  unfolding walk
  walk-Bounded levels remaining h p r =
      walk_from-Bounded levels remaining (pos 0) (pos 0) h p r
        (rw (zero_times exact low, zero_times exact high) (omega arith))
