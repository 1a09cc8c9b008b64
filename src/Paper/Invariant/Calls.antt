-- ===== src/Paper/Invariant/Calls.antt =====
-- `on_orderbook` and `cancel_order` of `PaperVenue` (src/trading/venues/paper.py) and the
-- invariant.
use claude_trade_teams.Base.{
  ◌≤◌, ◌≡◌, subst, sym, ◌∙◌, ◌==◌, if◌then◌else◌, some, List, [], ◌∷◌, arith, Bool-cases,
  Option-cases, inl, inr,
}
use claude_trade_teams.Base.Decimal.{Context, ◌≤ℤ◌}
use claude_trade_teams.Base.Dict.{Dict, lookup, insert, erase, lookup-insert, lookup-erase}
use claude_trade_teams.Clock.{Clock, now}
use claude_trade_teams.Domain.{OrderId, OrderStatus, Order, OrderbookSnapshot, VenueEvent}
use claude_trade_teams.Fill.Engine.{IsSound}
use claude_trade_teams.Paper.Venue.{
  PaperConfig, PaperVenue, emit, attempt_fill, try_fill_order, fill_each, on_orderbook,
  cancel_order,
}
use claude_trade_teams.Paper.Invariant.{
  IsRecorded, IsValid, filled_by, traded, filled_by-append, traded-append, if_open, if_open-some,
  IsRecorded-same, plus_zero,
}
use claude_trade_teams.Paper.Invariant.Fills.{apply_fill_to_order-IsValid}

-- An open order is keyed by its own id.
pub open_id :
    {v : PaperVenue} {order : Order} (oid : OrderId)
    → IsValid v
    → lookup oid v.open_orders ≡ some order
    → order.order_id ≡ oid
open_id {v} {order} oid h e =
    let all : lookup oid v.all_orders ≡ some order =
      (if_open-some (lookup oid v.all_orders) (rw h.consistent at e)).0 in
    let r : IsRecorded oid (some order) v.outbox = rw all at (h.recorded oid) in r.0

open_recorded :
    {v : PaperVenue} {order : Order} (oid : OrderId)
    → IsValid v
    → lookup oid v.open_orders ≡ some order
    → IsRecorded oid (some order) v.outbox
open_recorded {v} {order} oid h e =
    rw (if_open-some (lookup oid v.all_orders) (rw h.consistent at e)).0 at (h.recorded oid)

open_bounded :
    {v : PaperVenue} {order : Order} (oid : OrderId)
    → IsValid v
    → lookup oid v.open_orders ≡ some order
    → oid ≤ v.next_oid
open_bounded {v} oid h e =
    ground (arith, h.fresh oid, (if_open-some (lookup oid v.all_orders) (rw h.consistent at e)).0)

held_by_id :
    {v : PaperVenue} {order : Order} (oid : OrderId)
    → IsValid v
    → lookup oid v.open_orders ≡ some order
    → lookup order.order_id v.open_orders ≡ some order
held_by_id {v} {order} oid h e =
    subst (λ k. lookup k v.open_orders ≡ some order) (sym (open_id oid h e)) e

-- The clock is not part of what the invariant speaks of.
tick-IsValid : (clock' : Clock) (v : PaperVenue) → IsValid v → IsValid (record v { clock = clock' })
tick-IsValid clock' v h = record {
  consistent = h.consistent;
  recorded = h.recorded;
  fresh = h.fresh;
  netted = h.netted;
}

module _ (c : Context) (cfg : PaperConfig) (engine : IsSound cfg.fill_engine) where
  attempt_fill-IsValid :
      (order : Order) (book : OrderbookSnapshot) (v : PaperVenue)
      → IsValid v
      → lookup order.order_id v.open_orders ≡ some order
      → IsValid (attempt_fill c cfg order book v)
  unfolding attempt_fill
  attempt_fill-IsValid order book v h held =
      let (now', clock') = now v.clock in
      let h' : IsValid (record v { clock = clock' }) = tick-IsValid clock' v h in
      elim (Option-cases (cfg.fill_engine.try_fill order book now')) [
        | inl e ↦ rw (attempt_fill, e) h'
        | inr (fill, e) ↦
            rw (attempt_fill, e)
              (apply_fill_to_order-IsValid c h' held (engine.fills order book now' fill e))
      ]

  pub try_fill_order-IsValid :
      (oid : OrderId) (book : OrderbookSnapshot) (v : PaperVenue)
      → IsValid v
      → IsValid (try_fill_order c cfg oid book v)
  unfolding try_fill_order
  try_fill_order-IsValid oid book v h = elim (Option-cases (lookup oid v.open_orders)) [
    | inl e ↦ rw (try_fill_order, e) h
    | inr (order, e) ↦
        rw (try_fill_order, e) (attempt_fill-IsValid order book v h (held_by_id oid h e))
  ]

  fill_each-IsValid :
      (book : OrderbookSnapshot) (ids : List OrderId) (v : PaperVenue)
      → IsValid v
      → IsValid (fill_each c cfg book ids v)
  unfolding fill_each
  fill_each-IsValid book [] v h = h
  fill_each-IsValid book (oid ∷ ids) v h =
      fill_each-IsValid book ids (try_fill_order c cfg oid book v)
        (try_fill_order-IsValid oid book v h)

  -- A new book keeps the invariant, whatever orders it fills.
  pub on_orderbook-IsValid :
      (book : OrderbookSnapshot) (v : PaperVenue) → IsValid v → IsValid (on_orderbook c cfg book v)
  unfolding on_orderbook
  on_orderbook-IsValid book v h = fill_each-IsValid book _ _ (record {
    consistent = h.consistent;
    recorded = h.recorded;
    fresh = h.fresh;
    netted = h.netted;
  })

-- An order is put on record, with the next id and the table of open orders that go with it.
module _ {v : PaperVenue} (h : IsValid v) (x : Order) (oid next : OrderId) (opens : Dict Order)
    (clock' : Clock) (known : x.order_id ≡ oid)
    (filled : x.filled_quantity ≡ filled_by oid v.outbox) (fits : x.filled_quantity ≤ℤ x.quantity)
    (grows : v.next_oid ≤ next) (covers : oid ≤ next)
    (same : (k : OrderId)
      → lookup k opens ≡ (if k == oid then if_open (some x) else lookup k v.open_orders)) where
  abbrev put : PaperVenue
  put = emit (VenueEvent.order_update x) (record v {
    next_oid = next;
    clock = clock';
    all_orders = insert oid x v.all_orders;
    open_orders = opens;
  })

  silent : (k : OrderId) → filled_by k put.outbox ≡ filled_by k v.outbox
  silent k =
      filled_by-append k v.outbox (VenueEvent.order_update x ∷ [])
      ∙ sym (plus_zero (filled_by k v.outbox))

  put-recorded : (k : OrderId) → IsRecorded k (lookup k put.all_orders) put.outbox
  put-recorded k = rw (lookup-insert k oid x v.all_orders) (elim (Bool-cases (k == oid)) [
    | inl here ↦
        let e : oid ≡ k = ground arith in
        rw here
          (subst (λ j. IsRecorded j (some x) put.outbox) e (known, filled ∙ sym (silent oid), fits))
    | inr there ↦
        rw there
          (IsRecorded-same k (lookup k v.all_orders) v.outbox put.outbox (silent k) (h.recorded k))
  ])

  pub put-IsValid : IsValid put
  put-IsValid = record {
    consistent = λ k. ground (arith, same k, lookup-insert k oid x v.all_orders, h.consistent k);
    recorded = put-recorded;
    fresh = λ k later. ground (arith, lookup-insert k oid x v.all_orders, h.fresh k);
    netted = λ symbol.
        h.netted symbol
        ∙ (plus_zero (traded symbol v.outbox)
            ∙ sym (traded-append symbol v.outbox (VenueEvent.order_update x ∷ [])));
  }

-- A cancellation keeps the invariant, whether it finds the order or not.
pub cancel_order-IsValid :
    (oid : OrderId) (v : PaperVenue) → IsValid v → IsValid (cancel_order oid v).1
unfolding cancel_order
cancel_order-IsValid oid v h = elim (Option-cases (lookup oid v.open_orders)) [
  | inl e ↦ rw (cancel_order, e) h
  | inr (order, e) ↦
      let r = open_recorded oid h e in
      rw (cancel_order, e)
        (put-IsValid h
          (record order { status = OrderStatus.cancelled; updated_at = (now v.clock).0 }) oid
          v.next_oid (erase oid v.open_orders) (now v.clock).1 r.0 r.1 r.2 (omega arith)
          (open_bounded oid h e) (λ k. lookup-erase k oid v.open_orders))
]
