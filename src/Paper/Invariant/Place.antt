-- ===== src/Paper/Invariant/Place.antt =====
-- `place_order` of `PaperVenue` (src/trading/venues/paper.py) and the invariant.
use claude_trade_teams.Base.{
  suc, ◌≡◌, refl, sym, ◌==◌, if◌then◌else◌, none, arith, Bool-cases, Option-cases, inl, inr,
}
use claude_trade_teams.Base.Decimal.{Context, pos, ◌≤ℤ◌}
use claude_trade_teams.Base.Dict.{lookup, insert, lookup-insert}
use claude_trade_teams.Clock.{Clock, now}
use claude_trade_teams.Domain.{OrderId, OrderStatus, OrderRequest, Order, VenueEvent, Symbol, Time}
use claude_trade_teams.Fill.Engine.{IsSound}
use claude_trade_teams.Paper.Venue.{
  PaperConfig, PaperVenue, emit, rejects, placed_order, fill_at_once, place_order,
}
use claude_trade_teams.Paper.Invariant.{IsRecorded, IsValid, filled_by}
use claude_trade_teams.Paper.Invariant.Calls.{try_fill_order-IsValid, put-IsValid}

-- A new order is put on record under the next id.
module _ {v : PaperVenue} (h : IsValid v) (request : OrderRequest) (clock' : Clock) (now' : Time)
    (q : pos 0 ≤ℤ request.quantity) where
  abbrev placed : OrderStatus → Order
  placed status = placed_order request (suc v.next_oid) status now'

  unfilled : pos 0 ≡ filled_by (suc v.next_oid) v.outbox
  unfilled =
      let r : IsRecorded (suc v.next_oid) none v.outbox =
        rw (h.fresh (suc v.next_oid) (omega arith)) at (h.recorded (suc v.next_oid)) in
      sym r

  unheld :
      (k : OrderId)
      → lookup k v.open_orders ≡ (if k == suc v.next_oid then none else lookup k v.open_orders)
  unheld k = ground (arith, h.consistent k, h.fresh k)

  rejected-IsValid : IsValid (
      emit (VenueEvent.order_update (placed OrderStatus.rejected)) (record v {
        next_oid = suc v.next_oid;
        clock = clock';
        all_orders = insert (suc v.next_oid) (placed OrderStatus.rejected) v.all_orders;
        open_orders = v.open_orders;
      }))
  unfolding placed_order
  rejected-IsValid =
      put-IsValid h (placed OrderStatus.rejected) (suc v.next_oid) (suc v.next_oid) v.open_orders
        clock' refl unfilled q (omega arith) (omega arith) unheld

  acked-IsValid : IsValid (
      emit (VenueEvent.order_update (placed OrderStatus.acked)) (record v {
        next_oid = suc v.next_oid;
        clock = clock';
        all_orders = insert (suc v.next_oid) (placed OrderStatus.acked) v.all_orders;
        open_orders = insert (suc v.next_oid) (placed OrderStatus.acked) v.open_orders;
      }))
  unfolding placed_order
  acked-IsValid =
      put-IsValid h (placed OrderStatus.acked) (suc v.next_oid) (suc v.next_oid)
        (insert (suc v.next_oid) (placed OrderStatus.acked) v.open_orders) clock' refl unfilled q
        (omega arith) (omega arith)
        (λ k. lookup-insert k (suc v.next_oid) (placed OrderStatus.acked) v.open_orders)

module _ (c : Context) (cfg : PaperConfig) (engine : IsSound cfg.fill_engine) where
  fill_at_once-IsValid :
      (oid : OrderId) (symbol : Symbol) (v : PaperVenue)
      → IsValid v
      → IsValid (fill_at_once c cfg oid symbol v)
  fill_at_once-IsValid oid symbol v h = elim (Option-cases (lookup symbol v.latest_book)) [
    | inl e ↦ rw (fill_at_once, e) h
    | inr (book, e) ↦ rw (fill_at_once, e) (try_fill_order-IsValid c cfg engine oid book v h)
  ]

  -- An order for a quantity that is not negative keeps the invariant: accepted, rejected as
  -- POST_ONLY, or filled at once.
  pub place_order-IsValid :
      (request : OrderRequest) (v : PaperVenue)
      → pos 0 ≤ℤ request.quantity
      → IsValid v
      → IsValid (place_order c cfg request v).1
  unfolding place_order
  place_order-IsValid request v q h =
      let (now', clock') = now v.clock in
      elim (Bool-cases (rejects request v)) [
        | inl r ↦ rw (place_order, r) (rejected-IsValid h request clock' now' q)
        | inr a ↦
            rw (place_order, a)
              (fill_at_once-IsValid (suc v.next_oid) request.symbol _
                (acked-IsValid h request clock' now' q))
      ]
