-- ===== src/Oms/Mirror.antt =====
-- The cache of src/trading/oms/default.py beside the orders of src/trading/venues/paper.py.
use claude_trade_teams.Base.{
  suc, ◌≡◌, refl, ◌==◌, false, if◌then◌else◌, some, List, [], ◌∷◌, ◌++◌, arith, Bool-cases,
  Option-cases, inl, inr,
}
use claude_trade_teams.Base.Decimal.{Context}
use claude_trade_teams.Base.Dict.{Dict, lookup, lookup-insert}
use claude_trade_teams.Clock.{Clock, now}
use claude_trade_teams.Domain.{
  OrderId, Symbol, Order, Fill, OrderStatus, OrderRequest, OrderbookSnapshot, VenueEvent,
}
use claude_trade_teams.Fill.Engine.{IsSound, IsFillOf}
use claude_trade_teams.Journal.OrderLog.{JournalCalls}
use claude_trade_teams.Paper.Venue.{
  PaperConfig, PaperVenue, new, rejects, placed_order, updated_order, apply_fill_to_order,
  attempt_fill, try_fill_order, fill_at_once, place_order, fill_each, on_orderbook, cancel_order,
}
use claude_trade_teams.Paper.Invariant.{IsValid}
use claude_trade_teams.Paper.Invariant.Calls.{open_id}
use claude_trade_teams.Paper.Invariant.Reach.{
  Step, place, cancel, book, Reach, start, next, Reach-IsValid,
}
use claude_trade_teams.Oms.Cache.{
  Oms, new as new_oms, on_order_update, filled_order, on_fill, deliver,
}

module _ (c : Context) {J : Type 0} ⦃calls : JournalCalls J⦄ where
  deliver-append :
      (xs ys : List VenueEvent) (s : Oms J) → deliver c (xs ++ ys) s ≡ deliver c ys (deliver c xs s)
  unfolding deliver
  deliver-append [] ys s = refl
  deliver-append (VenueEvent.order_update x ∷ es) ys s = deliver-append es ys (on_order_update x s)
  deliver-append (VenueEvent.fill f ∷ es) ys s = deliver-append es ys (on_fill c f s)

  lookup-on_fill :
      (f : Fill) (s : Oms J) (oid : OrderId)
      → (oid == f.order_id) ≡ false
      → lookup oid (on_fill c f s).orders ≡ lookup oid s.orders
  unfolding on_fill
  lookup-on_fill f s oid h = elim (Option-cases (lookup f.order_id s.orders)) [
    | inl e ↦ rw (on_fill, e)
    | inr (x, e) ↦
        rw (on_fill, e) (rw (lookup-insert oid f.order_id (filled_order c x f) s.orders, h))
  ]

  -- An update that follows a fill of the same order overrides what the fill left in the cache: the
  -- fill is not counted twice, and the other orders stay as they were.
  pub lookup-update_after_fill :
      (f : Fill) (x : Order) (s : Oms J) (oid : OrderId)
      → f.order_id ≡ x.order_id
      → lookup oid (on_order_update x (on_fill c f s)).orders
        ≡ (if oid == x.order_id then some x else lookup oid s.orders)
  unfolding on_order_update
  lookup-update_after_fill f x s oid e =
      ground
        (arith, e, lookup-insert oid x.order_id x (on_fill c f s).orders, lookup-on_fill f s oid)

  module _ (base : Oms J) where
    -- A manager that began as `base` and has had every callback holds the venue's orders.
    abbrev pub Mirrors : PaperVenue → Type 0
    Mirrors v =
        (oid : OrderId) → lookup oid (deliver c v.outbox base).orders ≡ lookup oid v.all_orders

    one_more :
        (v : PaperVenue) (e : VenueEvent)
        → deliver c (v.outbox ++ e ∷ []) base ≡ deliver c (e ∷ []) (deliver c v.outbox base)
    one_more v e = deliver-append v.outbox (e ∷ []) base

    emit-Mirrors :
        (x : Order) (v : PaperVenue) (table : Dict Order)
        → ((oid : OrderId)
            → lookup oid table ≡ (if oid == x.order_id then some x else lookup oid v.all_orders))
        → Mirrors v
        → (oid : OrderId)
        → lookup oid (deliver c (v.outbox ++ VenueEvent.order_update x ∷ []) base).orders
          ≡ lookup oid table
    unfolding deliver on_order_update
    emit-Mirrors x v table t h oid =
        rw (one_more v (VenueEvent.order_update x), t oid)
          (ground (arith, lookup-insert oid x.order_id x (deliver c v.outbox base).orders, h oid))

    apply-Mirrors :
        {order : Order} {fill : Fill} {snapshot : OrderbookSnapshot} (v : PaperVenue)
        → IsFillOf order snapshot fill
        → Mirrors v
        → Mirrors (apply_fill_to_order c order fill v)
    unfolding apply_fill_to_order deliver updated_order
    apply-Mirrors {order} {fill} v s h oid =
        let u = updated_order c order fill in
        let before = deliver c v.outbox base in
        rw
          (
            deliver-append (v.outbox ++ VenueEvent.fill fill ∷ []) (VenueEvent.order_update u ∷ [])
                base,
            one_more v (VenueEvent.fill fill),
          )
          (ground (
            arith,
            lookup-update_after_fill fill u before oid s.same_id,
            lookup-insert oid order.order_id u v.all_orders,
            h oid,
          ))

    module _ (cfg : PaperConfig) (engine : IsSound cfg.fill_engine) where
      attempt_fill-Mirrors :
          (order : Order) (snapshot : OrderbookSnapshot) (v : PaperVenue)
          → Mirrors v
          → Mirrors (attempt_fill c cfg order snapshot v)
      unfolding attempt_fill
      attempt_fill-Mirrors order snapshot v h =
          let (now', clock') = now v.clock in
          elim (Option-cases (cfg.fill_engine.try_fill order snapshot now')) [
            | inl e ↦ rw (attempt_fill, e) h
            | inr (fill, e) ↦
                rw (attempt_fill, e)
                  (apply-Mirrors (record v { clock = clock' })
                    (engine.fills order snapshot now' fill e) h)
          ]

      try_fill_order-Mirrors :
          (oid : OrderId) (snapshot : OrderbookSnapshot) (v : PaperVenue)
          → Mirrors v
          → Mirrors (try_fill_order c cfg oid snapshot v)
      unfolding try_fill_order
      try_fill_order-Mirrors oid snapshot v h = elim (Option-cases (lookup oid v.open_orders)) [
        | inl e ↦ rw (try_fill_order, e) h
        | inr (order, e) ↦ rw (try_fill_order, e) (attempt_fill-Mirrors order snapshot v h)
      ]

      fill_each-Mirrors :
          (snapshot : OrderbookSnapshot) (ids : List OrderId) (v : PaperVenue)
          → Mirrors v
          → Mirrors (fill_each c cfg snapshot ids v)
      unfolding fill_each
      fill_each-Mirrors snapshot [] v h = h
      fill_each-Mirrors snapshot (oid ∷ ids) v h =
          fill_each-Mirrors snapshot ids (try_fill_order c cfg oid snapshot v)
            (try_fill_order-Mirrors oid snapshot v h)

      on_orderbook-Mirrors :
          (snapshot : OrderbookSnapshot) (v : PaperVenue)
          → Mirrors v
          → Mirrors (on_orderbook c cfg snapshot v)
      unfolding on_orderbook
      on_orderbook-Mirrors snapshot v h = fill_each-Mirrors snapshot _ _ h

      fill_at_once-Mirrors :
          (oid : OrderId) (symbol : Symbol) (v : PaperVenue)
          → Mirrors v
          → Mirrors (fill_at_once c cfg oid symbol v)
      fill_at_once-Mirrors oid symbol v h = elim (Option-cases (lookup symbol v.latest_book)) [
        | inl e ↦ rw (fill_at_once, e) h
        | inr (b, e) ↦ rw (fill_at_once, e) (try_fill_order-Mirrors oid b v h)
      ]

      place_order-Mirrors :
          (request : OrderRequest) (v : PaperVenue)
          → Mirrors v
          → Mirrors (place_order c cfg request v).1
      unfolding place_order placed_order
      place_order-Mirrors request v h = elim (Bool-cases (rejects request v)) [
        | inl r ↦
            rw (place_order, r)
              (emit-Mirrors
                (placed_order request (suc v.next_oid) OrderStatus.rejected (now v.clock).0) v _
                (λ oid. lookup-insert oid (suc v.next_oid) _ v.all_orders) h)
        | inr a ↦
            rw (place_order, a)
              (fill_at_once-Mirrors (suc v.next_oid) request.symbol _ (
                emit-Mirrors
                  (placed_order request (suc v.next_oid) OrderStatus.acked (now v.clock).0) v _
                  (λ oid. lookup-insert oid (suc v.next_oid) _ v.all_orders) h))
      ]

      cancel_order-Mirrors :
          (oid : OrderId) (v : PaperVenue) → IsValid v → Mirrors v → Mirrors (cancel_order oid v).1
      unfolding cancel_order
      cancel_order-Mirrors oid v valid h = elim (Option-cases (lookup oid v.open_orders)) [
        | inl e ↦ rw (cancel_order, e) h
        | inr (order, e) ↦
            rw (cancel_order, e)
              (emit-Mirrors
                (record order { status = OrderStatus.cancelled; updated_at = (now v.clock).0 }) v _
                (λ k. rw (open_id oid valid e) (lookup-insert k oid _ v.all_orders)) h)
      ]

      Step-Mirrors : {v w : PaperVenue} → Step c cfg v w → IsValid v → Mirrors v → Mirrors w
      Step-Mirrors {v} (place request q) valid h = place_order-Mirrors request v h
      Step-Mirrors {v} (cancel oid) valid h = cancel_order-Mirrors oid v valid h
      Step-Mirrors {v} (book snapshot) valid h = on_orderbook-Mirrors snapshot v h

  -- An order manager, over any journal whose calls return, that starts empty and receives every
  -- callback of a paper venue with a sound fill engine holds, after any calls of the venue in which no order has a negative quantity,
  -- exactly the orders that the venue has on record, each as it is there.
  pub Reach-Mirrors :
      (cfg : PaperConfig)
      → IsSound cfg.fill_engine
      → (clock : Clock) (journal : J) {v : PaperVenue} → Reach c cfg clock v
      → (oid : OrderId)
      → lookup oid (deliver c v.outbox (new_oms journal)).orders ≡ lookup oid v.all_orders
  unfolding new deliver
  Reach-Mirrors cfg engine clock journal start oid = refl
  Reach-Mirrors cfg engine clock journal (next r st) oid =
      Step-Mirrors (new_oms journal) cfg engine st (Reach-IsValid c cfg engine clock r)
        (Reach-Mirrors cfg engine clock journal r) oid
