-- ===== src/Oms/Emergency.antt =====
-- `cancel_all` of src/trading/oms/default.py over the paper venue (src/trading/venues/paper.py).
use claude_trade_teams.Base.{
  ℕ, suc, ◌≡◌, refl, sym, subst, ap, ◌∙◌, ◌==◌, ==_sound, true, if◌then◌else◌, Option, none, some,
  List, [], ◌∷◌, ◌++◌, map, keep, contains, arith, Bool-cases, Option-cases, inl, inr,
}
use claude_trade_teams.Base.Decimal.{Context}
use claude_trade_teams.Base.Dict.{Dict, lookup, values, lookup-erase}
use claude_trade_teams.Clock.{Clock}
use claude_trade_teams.Domain.{OrderId, Order, is_open}
use claude_trade_teams.Fill.Engine.{IsSound}
use claude_trade_teams.Journal.OrderLog.{JournalCalls}
use claude_trade_teams.Paper.Venue.{PaperConfig, PaperVenue, place_order, cancel_order}
use claude_trade_teams.Paper.Invariant.{if_open, IsRecorded, IsValid}
use claude_trade_teams.Paper.Invariant.Reach.{Reach, Reach-IsValid}
use claude_trade_teams.Oms.Cache.{Oms, new as new_oms, deliver, open_orders}
use claude_trade_teams.Oms.Submit.{Venue, placed, cancel, cancel_each, cancel_all}
use claude_trade_teams.Oms.Mirror.{Reach-Mirrors}

abbrev ids : List Order → List OrderId
ids orders = map (λ o. o.order_id) orders

module _ (c : Context) (cfg : PaperConfig) where
  -- the paper venue as the order manager calls it, each call with the callbacks that it awaits
  abbrev pub paper_venue : Venue PaperVenue
  paper_venue = record {
    place_order = λ request v.
        let (oid, v') = place_order c cfg request (record v { outbox = [] }) in
        (placed oid, v'.outbox, record v' { outbox = v.outbox ++ v'.outbox });
    cancel_order = λ order_id v.
        let (done, v') = cancel_order order_id (record v { outbox = [] }) in
        (some done, v'.outbox, record v' { outbox = v.outbox ++ v'.outbox });
  }

  cancelled_lem :
      (order_id oid : OrderId) (v : PaperVenue)
      → lookup oid (paper_venue.cancel_order order_id v).2.open_orders
        ≡ (if oid == order_id then none else lookup oid v.open_orders)
  unfolding cancel_order
  cancelled_lem order_id oid v = elim (Option-cases (lookup order_id v.open_orders)) [
    | inl e ↦
        simp (cancel_order, e)
          (elim (Bool-cases (oid == order_id)) [
            | inl same ↦ rw same (ap (λ k. lookup k v.open_orders) (==_sound oid order_id same) ∙ e)
            | inr other ↦ rw other refl
          ])
    | inr (order, e) ↦ simp (cancel_order, e) (lookup-erase oid order_id v.open_orders)
  ]

  cancel_each_lem :
      {J : Type 0} ⦃calls : JournalCalls J⦄ (orders : List Order) (count : ℕ) (s : Oms J)
      (v : PaperVenue)
      → (n : ℕ) × ((cancel_each c paper_venue orders count (s, v)).0 ≡ some n)
        × ((oid : OrderId)
            → lookup oid (cancel_each c paper_venue orders count (s, v)).2.open_orders
              ≡ (if contains oid (ids orders) then none else lookup oid v.open_orders))
  unfolding cancel_each cancel
  cancel_each_lem [] count s v = (count, refl, λ oid. refl)
  cancel_each_lem (order ∷ orders) count s v =
      let (done, s', v') = cancel c paper_venue order.order_id (s, v) in
      let counted = (cancel_order order.order_id (record v { outbox = [] })).0 in
      let (n, e, f) = cancel_each_lem orders (if counted then suc count else count) s' v' in
      (
        n,
        e,
        λ oid.
            f oid
            ∙ either oid (lookup oid v'.open_orders) (lookup oid v.open_orders)
                (cancelled_lem order.order_id oid v),
      )
    where
      either :
          (oid : OrderId) (x y : Option Order)
          → x ≡ (if oid == order.order_id then none else y)
          → (if contains oid (ids orders) then none else x)
            ≡ (if contains oid (ids (order ∷ orders)) then none else y)
      either oid x y h = elim (Bool-cases (oid == order.order_id)) [
        | inl e ↦ ground (arith, e, h)
        | inr e ↦ ground (arith, e, h)
      ]

listed :
    (d : Dict Order) (oid : OrderId) (order : Order)
    → lookup oid d ≡ some order
    → is_open order.status ≡ true
    → contains order.order_id (ids (keep (λ o. is_open o.status) (values d))) ≡ true
listed [] oid order h k = ground (arith, h)
listed ((j, x) ∷ d) oid order h k = elim (Bool-cases (oid == j)) [
  | inl e ↦
      let g : x ≡ order = ground (arith, h, e) in
      let o : is_open x.status ≡ true = ap (λ y. is_open y.status) g ∙ k in
      let same : order.order_id ≡ x.order_id = ap (λ y. y.order_id) (sym g) in
      simp o (ground (arith, same))
  | inr e ↦
      let ih = listed d oid order (ground (arith, h, e)) k in
      elim (Bool-cases (is_open x.status)) [
        | inl o ↦ simp o (ground (arith, ih))
        | inr o ↦ simp o ih
      ]
]

module _ (c : Context) (cfg : PaperConfig) (engine : IsSound cfg.fill_engine) where
  still_open :
      (v : PaperVenue) (oid : OrderId) (order : Order)
      → IsValid v
      → lookup oid v.open_orders ≡ some order
      → (lookup oid v.all_orders ≡ some order)
        × (is_open order.status ≡ true)
        × (order.order_id ≡ oid)
  still_open v oid order valid h = elim (Option-cases (lookup oid v.all_orders)) [
    | inl e ↦ ground (arith, e, h, valid.consistent oid)
    | inr (x, e) ↦
        let (own, _, _) = subst (λ r. IsRecorded oid r v.outbox) e (valid.recorded oid) in
        let k = sym h ∙ valid.consistent oid ∙ ap if_open e in
        elim (Bool-cases (is_open x.status)) [
          | inl o ↦
              let q : order ≡ x = ground (arith, k, o) in
              (e ∙ ap some (sym q), ap (λ y. is_open y.status) q ∙ o, ap (λ y. y.order_id) q ∙ own)
          | inr o ↦ ground (arith, k, o)
        ]
  ]

  -- An order manager, over any journal whose calls return, that starts empty and receives every
  -- callback of a paper venue with a sound fill engine cancels all: after any calls of the venue in which no order has a negative quantity,
  -- `cancel_all` returns, and no order is open at the venue.
  pub cancel_all-get_open_orders :
      {J : Type 0} ⦃calls : JournalCalls J⦄ (clock : Clock) (journal : J) {v : PaperVenue}
      → Reach c cfg clock v
      → (n : ℕ) × ((cancel_all c
            (paper_venue c cfg)
            none
            (deliver c v.outbox (new_oms journal), v)).0
          ≡ some n)
        × ((oid : OrderId)
            → lookup oid
                (cancel_all c
                  (paper_venue c cfg)
                  none
                  (deliver c v.outbox (new_oms journal), v)).2.open_orders
              ≡ none)
  unfolding cancel_all open_orders
  cancel_all-get_open_orders clock journal {v} r =
      let s = deliver c v.outbox (new_oms journal) in
      let (n, e, f) =
        cancel_each_lem c cfg (keep (λ o. is_open o.status) (values s.orders)) 0 s v in
      (
        n,
        e,
        λ oid. f oid ∙ (elim (Option-cases (lookup oid v.open_orders)) [
          | inl g ↦ ground (arith, g)
          | inr (order, g) ↦
              let (known, alive, own) =
                still_open v oid order (Reach-IsValid c cfg engine clock r) g in
              let cached = Reach-Mirrors c cfg engine clock journal r oid ∙ known in
              let there = listed s.orders oid order cached alive in
              let named =
                ap (λ k. contains k (ids (keep (λ o. is_open o.status) (values s.orders))))
                  (sym own)
                ∙ there in
              rw named refl
        ]),
      )
