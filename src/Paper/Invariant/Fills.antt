-- ===== src/Paper/Invariant/Fills.antt =====
-- A fill, as `_apply_fill_to_order` of src/trading/venues/paper.py books it, keeps the invariant.
use claude_trade_teams.Base.{
  suc, ◌≤◌, ◌≡◌, ap, sym, ◌∙◌, ◌==◌, true, false, if◌then◌else◌, none, some, arith, Bool-cases, inl,
  inr,
}
use claude_trade_teams.Base.Decimal.{Context, pos, ◌+ℤ◌, int_laws}
use claude_trade_teams.Base.Dict.{lookup, lookup-insert, lookup-erase}
use claude_trade_teams.Domain.{OrderId, Order, Fill, OrderbookSnapshot, Symbol}
use claude_trade_teams.Fill.Engine.{IsFillOf}
use claude_trade_teams.Paper.Netting.{apply_fill, signed_qty}
use claude_trade_teams.Paper.Venue.{PaperVenue, updated_order, apply_fill_to_order, position_of}
use claude_trade_teams.Paper.Invariant.{
  IsRecorded, IsValid, filled_by, traded, filled_by-append, traded-append, if_open, if_open-some,
  IsRecorded-same, plus_zero, to_true, position_of-insert, net-apply_fill,
}

module _ (c : Context) {order : Order} {fill : Fill} {book : OrderbookSnapshot} {v : PaperVenue}
    (h : IsValid v) (held : lookup order.order_id v.open_orders ≡ some order)
    (s : IsFillOf order book fill) where
  on_record : lookup order.order_id v.all_orders ≡ some order
  on_record = (if_open-some (lookup order.order_id v.all_orders) (rw h.consistent at held)).0

  next : PaperVenue
  unfolding apply_fill_to_order
  next = apply_fill_to_order c order fill v

  apply-consistent :
      (oid : OrderId) → lookup oid next.open_orders ≡ if_open (lookup oid next.all_orders)
  unfolding next updated_order
  apply-consistent oid = ground (
    arith,
    lookup-erase oid order.order_id v.open_orders,
    lookup-insert oid order.order_id (updated_order c order fill) v.open_orders,
    lookup-insert oid order.order_id (updated_order c order fill) v.all_orders,
    h.consistent oid,
  )

  reported :
      (oid : OrderId)
      → filled_by oid next.outbox
        ≡ filled_by oid v.outbox +ℤ (if fill.order_id == oid then fill.quantity else pos 0)
  unfolding next
  reported oid = elim (Bool-cases (fill.order_id == oid)) [
    | inl same ↦ rw (filled_by-append, filled_by-append, same) (omega int_laws)
    | inr other ↦ rw (filled_by-append, filled_by-append, other) (omega int_laws)
  ]

  traded_now :
      (symbol : Symbol)
      → traded symbol next.outbox
        ≡ traded symbol v.outbox +ℤ (if fill.symbol == symbol then signed_qty fill else pos 0)
  unfolding next
  traded_now symbol = elim (Bool-cases (fill.symbol == symbol)) [
    | inl same ↦ rw (traded-append, traded-append, same) (omega int_laws)
    | inr other ↦ rw (traded-append, traded-append, other) (omega int_laws)
  ]

  unreported :
      (oid : OrderId)
      → (oid == order.order_id) ≡ false
      → filled_by oid next.outbox ≡ filled_by oid v.outbox
  unreported oid other =
      let e : (fill.order_id == oid) ≡ false = ground (arith, s.same_id) in
      rw (reported oid, e) (omega int_laws)

  recorded_fill :
      (oid : OrderId)
      → oid ≡ order.order_id
      → IsRecorded oid (some (updated_order c order fill)) next.outbox
  unfolding updated_order
  recorded_fill oid e =
      let r : IsRecorded order.order_id (some order) v.outbox =
        rw on_record at (h.recorded order.order_id) in
      let same : (fill.order_id == order.order_id) ≡ true = ground (arith, s.same_id) in
      (sym e, rw (e, reported order.order_id, same, ← r.1), s.fits)

  apply-recorded : (oid : OrderId) → IsRecorded oid (lookup oid next.all_orders) next.outbox
  unfolding next updated_order
  apply-recorded oid =
      rw (lookup-insert oid order.order_id (updated_order c order fill) v.all_orders)
        (elim (Bool-cases (oid == order.order_id)) [
          | inl same ↦ rw same (recorded_fill oid (ground arith))
          | inr other ↦ rw other (
              IsRecorded-same oid (lookup oid v.all_orders) v.outbox next.outbox
                (unreported oid other) (h.recorded oid))
        ])

  apply-fresh : (oid : OrderId) → suc next.next_oid ≤ oid → lookup oid next.all_orders ≡ none
  unfolding next
  apply-fresh oid k = ground (
    arith,
    lookup-insert oid order.order_id (updated_order c order fill) v.all_orders,
    h.fresh oid k,
    on_record,
  )

  apply-netted :
      (symbol : Symbol) → (position_of symbol next.positions).net_qty ≡ traded symbol next.outbox
  unfolding next
  apply-netted symbol =
      let st = (apply_fill c (position_of fill.symbol v.positions) fill).new_state in
      rw (traded_now symbol, position_of-insert symbol fill.symbol st v.positions)
        (elim (Bool-cases (symbol == fill.symbol)) [
          | inl same ↦
              let back : fill.symbol ≡ symbol = ground arith in
              rw (same, to_true fill.symbol symbol back)
                (net-apply_fill c (position_of fill.symbol v.positions) fill
                  ∙ ap (λ q. q +ℤ signed_qty fill)
                      (ap (λ k. (position_of k v.positions).net_qty) back ∙ h.netted symbol))
          | inr other ↦
              let other' : (fill.symbol == symbol) ≡ false = ground arith in
              rw (other, other') (h.netted symbol ∙ plus_zero (traded symbol v.outbox))
        ])

  pub apply_fill_to_order-IsValid : IsValid (apply_fill_to_order c order fill v)
  unfolding next
  apply_fill_to_order-IsValid = record {
    consistent = apply-consistent;
    recorded = apply-recorded;
    fresh = apply-fresh;
    netted = apply-netted;
  }
