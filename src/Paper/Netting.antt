-- ===== src/Paper/Netting.antt =====
-- src/trading/venues/paper.py: the net position of one symbol, and how a fill changes it.
use claude_trade_teams.Base.{Bool, ◌&&◌, ◌||◌, if◌then◌else◌}
use claude_trade_teams.Base.Decimal.{
  Decimal, Context, pos, ◌+ℤ◌, ◌-ℤ◌, ltb_ℤ, eqb_ℤ, abs, neg, min_ℤ,
}
use claude_trade_teams.Domain.{OrderSide, Fill}

-- `_PositionState`: a positive `net_qty` is long, a negative one short.
pub record PositionState : Type 0 where
  pub net_qty : Decimal
  pub entry_price : Decimal
  pub realized_pnl : Decimal

-- `_PositionState()`
abbrev pub no_position : PositionState
no_position = record { net_qty = pos 0; entry_price = pos 0; realized_pnl = pos 0 }

-- `_ApplyResult`
pub record ApplyResult : Type 0 where
  pub new_state : PositionState
  pub realized_pnl_delta : Decimal

-- `fill.quantity if fill.side == OrderSide.BUY else -fill.quantity`
abbrev by_side : OrderSide → Decimal → Decimal
by_side OrderSide.buy quantity = quantity
by_side OrderSide.sell quantity = neg quantity

unfoldable pub signed_qty : Fill → Decimal
signed_qty fill = by_side fill.side fill.quantity

abbrev pub same_direction : Decimal → Decimal → Bool
same_direction net signed =
    (ltb_ℤ (pos 0) net && ltb_ℤ (pos 0) signed) || (ltb_ℤ net (pos 0) && ltb_ℤ signed (pos 0))

-- 1. Opening from flat.
unfoldable pub opened : PositionState → Fill → Decimal → ApplyResult
opened state fill new_qty = record {
  new_state = record {
    net_qty = new_qty;
    entry_price = fill.price;
    realized_pnl = state.realized_pnl -ℤ fill.fee;
  };
  realized_pnl_delta = neg fill.fee;
}

module _ (c : Context) where
  -- 2. Adding in the same direction: the entry price is the weighted average.
  unfoldable pub added : PositionState → Fill → Decimal → Decimal → ApplyResult
  added state fill signed new_qty =
      let old_notional = c.times (abs state.net_qty) state.entry_price in
      let added_notional = c.times (abs signed) fill.price in
      let new_avg = c.over (old_notional +ℤ added_notional) (abs new_qty) in
      record {
        new_state = record {
          net_qty = new_qty;
          entry_price = new_avg;
          realized_pnl = state.realized_pnl -ℤ fill.fee;
        };
        realized_pnl_delta = neg fill.fee;
      }

  -- the profit on the quantity that is closed
  unfoldable pub closing_pnl : PositionState → Fill → Decimal → Decimal
  closing_pnl state fill closed =
      if ltb_ℤ (pos 0) state.net_qty
      then c.times (fill.price -ℤ state.entry_price) closed
      else c.times (state.entry_price -ℤ fill.price) closed

  -- 3. The opposite direction: reduce, close or flip.
  unfoldable pub reduced : PositionState → Fill → Decimal → Decimal → ApplyResult
  unfolding closing_pnl
  reduced state fill signed new_qty =
      let closed = min_ℤ (abs state.net_qty) (abs signed) in
      let pnl = closing_pnl state fill closed in
      let flipped = ltb_ℤ (abs state.net_qty) (abs signed) in
      record {
        new_state = record {
          net_qty = new_qty;
          entry_price = if flipped then fill.price else state.entry_price;
          realized_pnl = state.realized_pnl +ℤ pnl -ℤ fill.fee;
        };
        realized_pnl_delta = pnl -ℤ fill.fee;
      }

  -- `_apply_fill`
  unfoldable pub apply_fill : PositionState → Fill → ApplyResult
  apply_fill state fill =
      let signed = signed_qty fill in
      let new_qty = state.net_qty +ℤ signed in
      if eqb_ℤ state.net_qty (pos 0)
      then opened state fill new_qty
      else if same_direction state.net_qty signed
      then added state fill signed new_qty
      else reduced state fill signed new_qty
