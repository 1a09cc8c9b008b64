-- ===== src/Fill/Walk.antt =====
-- `_walk` of src/trading/fill/orderbook.py takes what is asked for, or the whole visible depth.
use claude_trade_teams.Base.{◌≡◌, ◌⊎◌, ◌∙◌, ap, sym, List, [], ◌∷◌, arith, All, inl, inr}
use claude_trade_teams.Base.Decimal.{
  Decimal, Context, pos, ◌+ℤ◌, ◌-ℤ◌, ◌≤ℤ◌, ◌<ℤ◌, le→leb_ℤ, lt→leb_ℤ, le_or_lt, min_ℤ-cases,
  min_ℤ-unique, min_ℤ, int_laws,
}
use claude_trade_teams.Domain.{Level}
use claude_trade_teams.Fill.Orderbook.{walk_from, walk}

-- The quantity that all levels offer together.
abbrev pub depth : List Level → Decimal
depth [] = pos 0
depth (level ∷ levels) = level.quantity +ℤ depth levels

abbrev pub HasQuantity : Level → Type 0
HasQuantity level = pos 0 ≤ℤ level.quantity

pub depth_nonneg : (levels : List Level) → All HasQuantity levels → pos 0 ≤ℤ depth levels
depth_nonneg [] h = omega arith
depth_nonneg (l ∷ ls) h = omega (int_laws, depth_nonneg ls h.1)

zero_add : (a : Decimal) → pos 0 +ℤ a ≡ a
zero_add a = omega int_laws

regroup :
    (f : Decimal) (l : Level) (ls : List Level) → f +ℤ l.quantity +ℤ depth ls ≡ f +ℤ depth (l ∷ ls)
regroup f l ls = omega int_laws

-- A level is cut to what is still wanted, and the walk ends, or it is taken whole.
take_cases :
    (r f q : Decimal)
    → pos 0 ≤ℤ q
    → f ≤ℤ r
    → ((f +ℤ min_ℤ (r -ℤ f) q ≡ r) × (r ≤ℤ f +ℤ q))
      ⊎ ((f +ℤ min_ℤ (r -ℤ f) q ≡ f +ℤ q) × (f +ℤ q <ℤ r))
take_cases r f q h le = elim (min_ℤ-cases (r -ℤ f) q) [
  | inl (e, k) ↦ inl (rw e (omega int_laws), omega int_laws)
  | inr (e, k) ↦ elim (le_or_lt r (f +ℤ q)) [
    | inl fits ↦ inl (rw e (omega int_laws), fits)
    | inr short ↦ inr (rw e, short)
  ]
]

module _ (c : Context) where
  walk_from-filled :
      (levels : List Level) (remaining filled notional : Decimal)
      → All HasQuantity levels
      → filled ≤ℤ remaining
      → (walk_from c levels remaining filled notional).0 ≡ min_ℤ remaining (filled +ℤ depth levels)
  unfolding walk_from min_ℤ
  walk_from-filled [] r f n h le =
      sym (min_ℤ-unique r (f +ℤ pos 0) f le (omega int_laws) (inr (omega int_laws)))
  walk_from-filled (l ∷ ls) r f n h le = elim (take_cases r f l.quantity h.0 le) [
    | inl (e, enough) ↦
        rw (e, le→leb_ℤ r r (omega arith))
          (sym (
            min_ℤ-unique r (f +ℤ depth (l ∷ ls)) r (omega arith)
              (omega (int_laws, depth_nonneg ls h.1)) (inl (omega arith))))
    | inr (e, short) ↦
        rw (e, lt→leb_ℤ r (f +ℤ l.quantity) short)
          (walk_from-filled ls r (f +ℤ l.quantity) _ h.1 (omega arith)
            ∙ ap (min_ℤ r) (regroup f l ls))
  ]

  -- With no negative quantity in the book, and asked for a quantity that is not negative, a walk
  -- fills exactly the smaller of what is asked for and the depth of the book.
  pub walk-filled :
      (levels : List Level) (remaining : Decimal)
      → All HasQuantity levels
      → pos 0 ≤ℤ remaining
      → (walk c levels remaining).0 ≡ min_ℤ remaining (depth levels)
  unfolding walk
  walk-filled levels remaining h r =
      walk_from-filled levels remaining (pos 0) (pos 0) h r
      ∙ ap (min_ℤ remaining) (zero_add (depth levels))
