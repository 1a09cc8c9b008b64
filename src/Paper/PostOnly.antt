-- ===== src/Paper/PostOnly.antt =====
-- POST_ONLY orders of src/trading/venues/paper.py with the engines of src/trading/fill.
use claude_trade_teams.Base.{
  ℕ, suc, ◌≡◌, refl, ap, ◌∙◌, false, if◌then◌else◌, Option, none, some, [], ◌∷◌, ◌++◌, arith,
  Bool-cases, Option-cases, inl, inr,
}
use claude_trade_teams.Base.Decimal.{Decimal, Context}
use claude_trade_teams.Base.Dict.{lookup, insert, lookup-insert}
use claude_trade_teams.Clock.{now}
use claude_trade_teams.Domain.{
  Time, OrderId, OrderSide, OrderType, OrderStatus, TimeInForce, OrderRequest, Order, Level,
  OrderbookSnapshot, best_bid, best_ask, VenueEvent,
}
use claude_trade_teams.Fill.Engine.{FillEngine, immediate}
use claude_trade_teams.Fill.Immediate
use claude_trade_teams.Paper.Venue.{
  PaperConfig, PaperVenue, ask_at_most, bid_at_least, would_cross_at, would_cross_immediately,
  rejects, placed_order, try_fill_order, attempt_fill, fill_at_once, place_order,
}

buy_none :
    (p : Decimal) (o : Option Level) → ask_at_most p o ≡ false → Immediate.buy_limit p o ≡ none
unfolding Immediate.buy_limit
buy_none p none h = refl
buy_none p (some l) h = ground arith

sell_none :
    (p : Decimal) (o : Option Level) → bid_at_least p o ≡ false → Immediate.sell_limit p o ≡ none
unfolding Immediate.sell_limit
sell_none p none h = refl
sell_none p (some l) h = ground arith

-- A limit order that would not cross has no price in the immediate engine.
fill_price-none :
    (request : OrderRequest) (oid : OrderId) (at : Time) (status : OrderStatus)
    (book : OrderbookSnapshot)
    → request.type ≡ OrderType.limit
    → would_cross_immediately request book ≡ false
    → Immediate.fill_price (placed_order request oid status at) book ≡ none
unfolding would_cross_immediately Immediate.fill_price placed_order
fill_price-none request oid at status book t h = go request.side request.price h
  where
    go :
        (side : OrderSide) (price : Option Decimal)
        → (elim price [ none ↦ false | some p ↦ would_cross_at side p book ]) ≡ false
        → Immediate.fill_price
            (record (placed_order request oid status at) { side = side; price = price })
            book
          ≡ none
    go side none k = rw t refl
    go OrderSide.buy (some p) k = rw t (buy_none p (best_ask book) k)
    go OrderSide.sell (some p) k = rw t (sell_none p (best_bid book) k)

try_fill-none :
    (fee_currency : ℕ) (order : Order) (book : OrderbookSnapshot) (at : Time)
    → Immediate.fill_price order book ≡ none
    → Immediate.try_fill fee_currency order book at ≡ none
unfolding Immediate.try_fill
try_fill-none fee_currency order book at h = ground (arith, h)

uncrossed :
    (request : OrderRequest) (v : PaperVenue) (book : OrderbookSnapshot)
    → request.time_in_force ≡ TimeInForce.post_only
    → rejects request v ≡ false
    → lookup request.symbol v.latest_book ≡ some book
    → would_cross_immediately request book ≡ false
unfolding rejects
uncrossed request v book p r k = rw (rejects, p, k) at r

-- The venue reports one update of an order, and no position changes.
abbrev pub IsOnlyReported : PaperVenue → Order → PaperVenue → Type 0
IsOnlyReported before order v =
    (v.outbox ≡ before.outbox ++ VenueEvent.order_update order ∷ [])
    × (v.positions ≡ before.positions)

module _ (c : Context) (cfg : PaperConfig) (fee_currency : ℕ)
    (e : cfg.fill_engine ≡ immediate fee_currency) where
  attempt-none :
      (before v : PaperVenue) (reported order : Order) (book : OrderbookSnapshot)
      → Immediate.fill_price order book ≡ none
      → IsOnlyReported before reported v
      → IsOnlyReported before reported (attempt_fill c cfg order book v)
  unfolding attempt_fill immediate
  attempt-none before v reported order book h k =
      let t : cfg.fill_engine.try_fill order book (now v.clock).0 ≡ none =
        ap (λ (engine : FillEngine). engine.try_fill order book (now v.clock).0) e
        ∙ try_fill-none fee_currency order book (now v.clock).0 h in
      rw (attempt_fill, t) k

  at_once-none :
      (before v : PaperVenue) (order : Order) (request : OrderRequest)
      → lookup order.order_id v.open_orders ≡ some order
      → ((book : OrderbookSnapshot)
          → lookup request.symbol v.latest_book ≡ some book
          → Immediate.fill_price order book ≡ none)
      → IsOnlyReported before order v
      → IsOnlyReported before order (fill_at_once c cfg order.order_id request.symbol v)
  unfolding try_fill_order
  at_once-none before v order request h f k =
      elim (Option-cases (lookup request.symbol v.latest_book)) [
        | inl n ↦ rw (fill_at_once, n) k
        | inr (book, n) ↦
            rw (fill_at_once, n, try_fill_order, h)
              (attempt-none before v order order book (f book n) k)
      ]

  -- the venue once the order is registered and reported
  abbrev acknowledged : OrderRequest → PaperVenue → Order → PaperVenue
  acknowledged request v order = record v {
    next_oid = suc v.next_oid;
    clock = (now v.clock).1;
    all_orders = insert (suc v.next_oid) order v.all_orders;
    open_orders = insert (suc v.next_oid) order v.open_orders;
    outbox = v.outbox ++ VenueEvent.order_update order ∷ [];
  }

  -- With the immediate engine a POST_ONLY limit order never trades when it is placed: the venue
  -- reports the order, as rejected where it would cross and as acknowledged otherwise, reports no
  -- fill and changes no position.
  pub place_order-post_only :
      (request : OrderRequest) (v : PaperVenue)
      → request.type ≡ OrderType.limit
      → request.time_in_force ≡ TimeInForce.post_only
      → IsOnlyReported v
          (placed_order request
            (suc v.next_oid)
            (if rejects request v then OrderStatus.rejected else OrderStatus.acked)
            (now v.clock).0)
          (place_order c cfg request v).1
  unfolding place_order placed_order
  place_order-post_only request v t p = elim (Bool-cases (rejects request v)) [
    | inl r ↦ rw (place_order, r) (refl, refl)
    | inr r ↦
        let order : Order =
          placed_order request (suc v.next_oid) OrderStatus.acked (now v.clock).0 in
        let listed : lookup (suc v.next_oid) (insert (suc v.next_oid) order v.open_orders)
            ≡ some order =
          ground (arith, lookup-insert (suc v.next_oid) (suc v.next_oid) order v.open_orders) in
        let unpriced =
          λ (book : OrderbookSnapshot) (k : lookup request.symbol v.latest_book ≡ some book).
            fill_price-none request (suc v.next_oid) (now v.clock).0 OrderStatus.acked book t
              (uncrossed request v book p r k) in
        rw (place_order, r)
          (at_once-none v (acknowledged request v order) order request listed unpriced (refl, refl))
  ]
