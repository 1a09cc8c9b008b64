-- ===== src/Paper/Valuation.antt =====
-- What a fill does to the marked value of a position in src/trading/venues/paper.py.
use claude_trade_teams.Base.{◌≡◌, sym, ap, ◌∙◌, true, false, arith, Bool-cases, inl, inr}
use claude_trade_teams.Base.Decimal.{
  Decimal, Context, IsExact, ℤ, pos, ◌+ℤ◌, ◌-ℤ◌, ◌≤ℤ◌, ltb_ℤ, eqb_ℤ, abs, min_ℤ, int_laws,
  zero_times, eqb_ℤ_sound, parts_of_eq,
}
use claude_trade_teams.Domain.{Fill}
use claude_trade_teams.Paper.Netting.{
  PositionState, signed_qty, same_direction, opened, added, reduced, apply_fill,
}

abbrev pub after : Context → PositionState → Fill → PositionState
after c s f = (apply_fill c s f).new_state

-- The realised profit together with the net quantity at its distance from the mark.
abbrev pub marked_value : Context → PositionState → Decimal → Decimal
marked_value c s mark = s.realized_pnl +ℤ c.times (mark -ℤ s.entry_price) s.net_qty

abbrev pub grown : PositionState → Fill → Decimal
grown s f = s.net_qty +ℤ signed_qty f

-- The average price of `added` times the new quantity is what both parts cost.
abbrev pub HasExactAverage : Context → PositionState → Fill → Type 0
HasExactAverage c s f =
    c.times (added c s f (signed_qty f) (grown s f)).new_state.entry_price (abs (grown s f))
    ≡ c.times (abs s.net_qty) s.entry_price +ℤ c.times (abs (signed_qty f)) f.price

abs_pos : (a : ℤ) → pos 0 ≤ℤ a → abs a ≡ a
abs_pos a h = ground arith

abs_neg : (a : ℤ) → a ≤ℤ pos 0 → abs a ≡ pos 0 -ℤ a
unfolding ◌-ℤ◌
abs_neg a h = ground arith

min_left : (a b : ℤ) → ltb_ℤ a b ≡ true → min_ℤ a b ≡ a
unfolding min_ℤ
min_left a b h = ground arith

min_right : (a b : ℤ) → ltb_ℤ a b ≡ false → min_ℤ a b ≡ b
unfolding min_ℤ
min_right a b h = ground arith

module _ (c : Context) (e : IsExact c) where
  times_add : (x y z : Decimal) → c.times x (y +ℤ z) ≡ c.times x y +ℤ c.times x z
  times_add x y z =
      let back : y +ℤ z -ℤ z ≡ y = omega int_laws in
      let split : c.times x y ≡ c.times x (y +ℤ z) -ℤ c.times x z =
        ap (c.times x) (sym back) ∙ e.times_sub x (y +ℤ z) z in
      rw split (omega int_laws)

  times_zero : (x : Decimal) → c.times x (pos 0) ≡ pos 0
  times_zero x =
      let none_left : pos 0 ≡ pos 0 -ℤ pos 0 = omega int_laws in
      ap (c.times x) none_left ∙ e.times_sub x (pos 0) (pos 0) ∙ omega int_laws

  -- The value at `m` of a position of `n` entered at `en`, after `x` more at the price `p`.
  module _ (r en m p n x fee : Decimal) where
    abbrev moved : Decimal
    moved = r +ℤ c.times (m -ℤ en) n +ℤ c.times (m -ℤ p) x -ℤ fee

    from_flat : n ≡ pos 0 → r -ℤ fee +ℤ c.times (m -ℤ p) (n +ℤ x) ≡ moved
    from_flat h = rw h (simp (e.sub_times, times_add, times_zero) (omega int_laws))

    long_stays : r +ℤ c.times (p -ℤ en) (pos 0 -ℤ x) -ℤ fee +ℤ c.times (m -ℤ en) (n +ℤ x) ≡ moved
    long_stays = simp (e.sub_times, times_add, e.times_sub, times_zero) (omega int_laws)

    long_flips : r +ℤ c.times (p -ℤ en) n -ℤ fee +ℤ c.times (m -ℤ p) (n +ℤ x) ≡ moved
    long_flips = simp (e.sub_times, times_add) (omega int_laws)

    short_stays : r +ℤ c.times (en -ℤ p) x -ℤ fee +ℤ c.times (m -ℤ en) (n +ℤ x) ≡ moved
    short_stays = simp (e.sub_times, times_add) (omega int_laws)

    short_flips : r +ℤ c.times (en -ℤ p) (pos 0 -ℤ n) -ℤ fee +ℤ c.times (m -ℤ p) (n +ℤ x) ≡ moved
    short_flips = simp (e.sub_times, times_add, e.times_sub, times_zero) (omega int_laws)

    -- `avg` is the average of the two prices, weighted by the quantities
    averaged :
        (avg : Decimal)
        → c.times avg (n +ℤ x) ≡ c.times en n +ℤ c.times p x
        → r -ℤ fee +ℤ c.times (m -ℤ avg) (n +ℤ x) ≡ moved
    averaged avg h = simp (e.sub_times) (rw h (simp times_add (omega int_laws)))

  module _ (avg n x en p : Decimal) where
    abbrev SameCost : (Decimal → Decimal) → Type 0
    SameCost size = c.times avg (size (n +ℤ x)) ≡ c.times (size n) en +ℤ c.times (size x) p

    average_long :
        pos 0 ≤ℤ n → pos 0 ≤ℤ x → SameCost abs → c.times avg (n +ℤ x) ≡ c.times en n +ℤ c.times p x
    average_long h k a =
        rw (← e.times_comm n en, ← e.times_comm x p)
          (rw (abs_pos n h, abs_pos x k, abs_pos (n +ℤ x) (omega int_laws)) at a)

    average_short :
        n ≤ℤ pos 0 → x ≤ℤ pos 0 → SameCost abs → c.times avg (n +ℤ x) ≡ c.times en n +ℤ c.times p x
    average_short h k a =
        let turned : c.times avg (pos 0 -ℤ (n +ℤ x))
            ≡ c.times (pos 0 -ℤ n) en +ℤ c.times (pos 0 -ℤ x) p =
          rw (abs_neg n h, abs_neg x k, abs_neg (n +ℤ x) (omega int_laws)) at a in
        let spread : pos 0 -ℤ (c.times avg n +ℤ c.times avg x)
            ≡ pos 0 -ℤ c.times n en +ℤ (pos 0 -ℤ c.times x p) =
          simp (e.times_sub, e.sub_times, times_add, times_zero, zero_times e) at turned in
        rw (← e.times_comm n en, ← e.times_comm x p, times_add)
          (omega (int_laws, parts_of_eq _ _ spread))

  module _ (s : PositionState) (f : Fill) (mark : Decimal) where
    abbrev Moved : PositionState → Type 0
    Moved s' =
        marked_value c s' mark
        ≡ marked_value c s mark +ℤ c.times (mark -ℤ f.price) (signed_qty f) -ℤ f.fee

    abbrev new_qty : Decimal
    new_qty = grown s f

    opened-Moved : eqb_ℤ s.net_qty (pos 0) ≡ true → Moved (opened s f new_qty).new_state
    unfolding opened
    opened-Moved h =
        from_flat s.realized_pnl s.entry_price mark f.price s.net_qty (signed_qty f) f.fee
          (eqb_ℤ_sound s.net_qty (pos 0) h)

    reduced_long :
        ltb_ℤ (pos 0) s.net_qty ≡ true
        → signed_qty f ≤ℤ pos 0
        → Moved (reduced c s f (signed_qty f) new_qty).new_state
    unfolding reduced
    reduced_long h k =
        let n = s.net_qty in
        let x = signed_qty f in
        let an : abs n ≡ n = abs_pos n (ground arith) in
        let ax : abs x ≡ pos 0 -ℤ x = abs_neg x k in
        elim (Bool-cases (ltb_ℤ (abs n) (abs x))) [
          | inl flip ↦
              rw (flip, h, min_left (abs n) (abs x) flip, an)
                (long_flips s.realized_pnl s.entry_price mark f.price n x f.fee)
          | inr stay ↦
              rw (stay, h, min_right (abs n) (abs x) stay, ax)
                (long_stays s.realized_pnl s.entry_price mark f.price n x f.fee)
        ]

    reduced_short :
        ltb_ℤ (pos 0) s.net_qty ≡ false
        → pos 0 ≤ℤ signed_qty f
        → Moved (reduced c s f (signed_qty f) new_qty).new_state
    unfolding reduced
    reduced_short h k =
        let n = s.net_qty in
        let x = signed_qty f in
        let an : abs n ≡ pos 0 -ℤ n = abs_neg n (ground arith) in
        let ax : abs x ≡ x = abs_pos x k in
        elim (Bool-cases (ltb_ℤ (abs n) (abs x))) [
          | inl flip ↦
              rw (flip, h, min_left (abs n) (abs x) flip, an)
                (short_flips s.realized_pnl s.entry_price mark f.price n x f.fee)
          | inr stay ↦
              rw (stay, h, min_right (abs n) (abs x) stay, ax)
                (short_stays s.realized_pnl s.entry_price mark f.price n x f.fee)
        ]

    added-Moved :
        same_direction s.net_qty (signed_qty f) ≡ true
        → HasExactAverage c s f
        → Moved (added c s f (signed_qty f) new_qty).new_state
    unfolding added
    added-Moved h a =
        let n = s.net_qty in
        let x = signed_qty f in
        let avg = (added c s f x new_qty).new_state.entry_price in
        let g : c.times avg (n +ℤ x) ≡ c.times s.entry_price n +ℤ c.times f.price x =
          elim (Bool-cases (ltb_ℤ (pos 0) n)) [
            | inl l ↦ average_long avg n x s.entry_price f.price (ground arith) (ground arith) a
            | inr l ↦ average_short avg n x s.entry_price f.price (ground arith) (ground arith) a
          ] in
        averaged s.realized_pnl s.entry_price mark f.price n x f.fee avg g

  -- A fill moves the value of the position, marked at any price, by the signed quantity times the
  -- distance of the fill's price from the mark, less the fee; on opening, adding, reducing,
  -- closing and flipping alike. The context rounds no product, and where the fill adds to the
  -- position the average price is exact.
  pub apply_fill-marked_value :
      (s : PositionState) (f : Fill) (mark : Decimal)
      → (same_direction s.net_qty (signed_qty f) ≡ true → HasExactAverage c s f)
      → marked_value c (after c s f) mark
        ≡ marked_value c s mark +ℤ c.times (mark -ℤ f.price) (signed_qty f) -ℤ f.fee
  unfolding apply_fill
  apply_fill-marked_value s f mark avg =
      let n = s.net_qty in
      let x = signed_qty f in
      elim (Bool-cases (eqb_ℤ n (pos 0))) [
        | inl flat ↦ rw (after, flat) (opened-Moved s f mark flat)
        | inr held ↦ elim (Bool-cases (same_direction n x)) [
          | inl same ↦ rw (after, held, same) (added-Moved s f mark same (avg same))
          | inr other ↦
              rw (after, held, other)
                (elim (Bool-cases (ltb_ℤ (pos 0) n)) [
                  | inl long ↦ reduced_long s f mark long (ground arith)
                  | inr short ↦ reduced_short s f mark short (ground arith)
                ])
        ]
      ]
