-- ===== src/Oms/Restart.antt =====
-- What `start` of src/trading/oms/default.py restores from the in-memory order journal.
use claude_trade_teams.Base.{
  ◌≡◌, refl, sym, ◌∙◌, Option, none, some, List, [], ◌∷◌, ◌++◌, arith, Option-cases, inl, inr,
}
use claude_trade_teams.Base.Decimal.{Context}
use claude_trade_teams.Base.Dict.{Dict, lookup, insert, setdefault, collect, lookup-insert}
use claude_trade_teams.Domain.{
  OrderId, ClientOrderId, Time, Order, Fill, TradeIntent, is_open, VenueEvent,
}
use claude_trade_teams.Journal.OrderLog.{
  OrderJournal, in_memory, latest, write_order, write_fill, read_open_orders,
}
use claude_trade_teams.Journal.Restore.{passing, collect-IsKeyed, lookup-collect-values}
use claude_trade_teams.Oms.Cache.{Oms, start, on_order_update, filled_order, on_fill, deliver}
use claude_trade_teams.Oms.Submit.{
  Venue, placed, request_of, submitted_order, record_submission, submit,
}

-- An order, unless its status is terminal.
abbrev pub live : Option Order → Option Order
live = passing (λ o. o.order_id) (λ o. is_open o.status)

-- The cache holds each order under its own id, and the cache and the last records of the journal
-- have the same open orders.
pub record IsTracked (s : Oms OrderJournal) : Type 0 where
  pub own : (oid : OrderId) (x : Order) → lookup oid s.orders ≡ some x → x.order_id ≡ oid
  pub same :
      (oid : OrderId) → live (lookup oid s.orders) ≡ live (lookup oid (latest s.journal.orders))

collect-append :
    (d : Dict Order) (xs : List Order) (x : Order)
    → collect (λ o. o.order_id) d (xs ++ x ∷ [])
      ≡ insert x.order_id x (collect (λ o. o.order_id) d xs)
collect-append d [] x = refl
collect-append d (y ∷ ys) x = collect-append (insert y.order_id y d) ys x

latest-append :
    (xs : List Order) (x : Order) → latest (xs ++ x ∷ []) ≡ insert x.order_id x (latest xs)
latest-append xs x = collect-append [] xs x

-- After a restart the cache holds, under each id, the last record of the journal, if it is open.
pub lookup-start :
    (s : Oms OrderJournal) (oid : OrderId)
    → lookup oid (start s).orders ≡ live (lookup oid (latest s.journal.orders))
unfolding start read_open_orders
lookup-start s oid =
    lookup-collect-values (λ o. o.order_id) (λ o. is_open o.status) oid (latest s.journal.orders)
      (collect-IsKeyed (λ o. o.order_id) [] s.journal.orders tt)

-- A restart of an order manager whose in-memory journal and cache have the same open orders keeps
-- exactly these, each as it was, and drops the others.
pub start-IsTracked :
    (s : Oms OrderJournal) (oid : OrderId)
    → IsTracked s
    → lookup oid (start s).orders ≡ live (lookup oid s.orders)
start-IsTracked s oid h = lookup-start s oid ∙ sym (h.same oid)

module _ (s : Oms OrderJournal) (h : IsTracked s) (k : OrderId) (x : Order)
    (e : x.order_id ≡ k) where
  abbrev both : Oms OrderJournal
  both = record { orders = insert k x s.orders; journal = write_order x s.journal }

  both-IsTracked : IsTracked both
  both-IsTracked = record {
    own = λ oid y f. ground (arith, e, lookup-insert oid k x s.orders, h.own oid y);
    same = λ oid. rw (latest-append s.journal.orders x) (
        ground (
          arith,
          e,
          lookup-insert oid k x s.orders,
          lookup-insert oid x.order_id x (latest s.journal.orders),
          h.same oid,
        ));
  }

-- a fill record does not touch the orders
fill_only :
    (f : Fill) (s : Oms OrderJournal)
    → IsTracked s
    → IsTracked (record s { journal = write_fill f s.journal })
fill_only f s h = record { own = h.own; same = h.same }

on_order_update-IsTracked :
    (x : Order) (s : Oms OrderJournal) → IsTracked s → IsTracked (on_order_update x s)
unfolding on_order_update
on_order_update-IsTracked x s h = both-IsTracked s h x.order_id x refl

module _ (c : Context) where
  on_fill-IsTracked : (f : Fill) (s : Oms OrderJournal) → IsTracked s → IsTracked (on_fill c f s)
  unfolding on_fill filled_order
  on_fill-IsTracked f s h = elim (Option-cases (lookup f.order_id s.orders)) [
    | inl e ↦ rw (on_fill, e) (fill_only f s h)
    | inr (order, e) ↦
        rw (on_fill, e)
          (both-IsTracked (record s { journal = write_fill f s.journal }) (fill_only f s h)
            f.order_id (filled_order c order f) (h.own f.order_id order e))
  ]

  -- Of an order manager with the in-memory journal, whose open orders are the ones by the last
  -- records written: if its cache and its journal have the same open orders, they have the same
  -- after whatever a venue reports.
  pub deliver-IsTracked :
      (events : List VenueEvent) (s : Oms OrderJournal)
      → IsTracked s
      → IsTracked (deliver c events s)
  unfolding deliver
  deliver-IsTracked [] s h = h
  deliver-IsTracked (VenueEvent.order_update x ∷ es) s h =
      deliver-IsTracked es (on_order_update x s) (on_order_update-IsTracked x s h)
  deliver-IsTracked (VenueEvent.fill f ∷ es) s h =
      deliver-IsTracked es (on_fill c f s) (on_fill-IsTracked f s h)

  -- If a submission is recorded before the venue has reported on the order, the journal stays in
  -- step with the cache.
  pub record_submission-IsTracked :
      (x : Order) (s : Oms OrderJournal)
      → lookup x.order_id s.orders ≡ none
      → IsTracked s
      → IsTracked (record_submission x s)
  unfolding record_submission
  record_submission-IsTracked x s missing h =
      rw (record_submission, setdefault, missing) (both-IsTracked s h x.order_id x refl)

  start-record_submission :
      (x : Order) (s : Oms OrderJournal)
      → lookup x.order_id (start (record_submission x s)).orders ≡ live (some x)
  unfolding record_submission
  start-record_submission x s =
      lookup-start (record_submission x s) x.order_id
      ∙ rw (latest-append s.journal.orders x)
          (ground (arith, lookup-insert x.order_id x.order_id x (latest s.journal.orders)))

  -- After any submission that the venue accepts, a restart from the in-memory journal restores
  -- the order as submitted and unfilled, whatever the venue reported of it during the call.
  pub start-submit :
      {S : Type 0} (venue : Venue S) (cid : ClientOrderId) (at : Time) (intent : TradeIntent)
      (s : Oms OrderJournal) (v : S) (oid : OrderId)
      → (venue.place_order (request_of cid intent) v).0 ≡ placed oid
      → lookup oid (start (submit c venue cid at intent (s, v)).1).orders
        ≡ some (submitted_order oid cid at intent)
  unfolding submit submitted_order
  start-submit venue cid at intent s v oid e =
      rw (submit, e)
        (start-record_submission (submitted_order oid cid at intent)
          (deliver c (venue.place_order (request_of cid intent) v).1 s))
