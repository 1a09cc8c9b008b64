-- ===== src/Sqlite/Orders/Restart.antt =====
-- What a restart of the order manager (src/trading/oms/default.py) restores of a submission from a
-- journal on a file (src/trading/persistence/order_journal/sqlite.py).
use claude_trade_teams.Base.{◌≡◌, refl, ap, ◌∙◌, none, some, List, [], ◌>>=◌}
use claude_trade_teams.Base.Decimal.{Context}
use claude_trade_teams.Base.Dict.{lookup, collect}
use claude_trade_teams.Domain.{OrderId, ClientOrderId, Time, Order, TradeIntent}
use claude_trade_teams.Journal.OrderLog.{OrderJournal, in_memory, empty_journal}
use claude_trade_teams.Journal.Restore.{passing}
use claude_trade_teams.Oms.Cache.{Oms, deliver}
use claude_trade_teams.Oms.Submit.{
  Venue, placed, request_of, submitted_order, record_submission, submit,
}
use claude_trade_teams.Sqlite.Table.Latest.{later, newest-append}
use claude_trade_teams.Sqlite.Orders.{read_open_orders}
use claude_trade_teams.Sqlite.Orders.Replay.{Op, log}
use claude_trade_teams.Sqlite.Orders.Answers.{
  is_wanted, newest_order, journal_after, run-read_open_orders,
}

module _ (c : Context) {S : Type 0} (venue : Venue S) (cid : ClientOrderId) (at : Time)
    (intent : TradeIntent) (s : Oms OrderJournal) (v : S) (oid : OrderId)
    (accepted : (venue.place_order (request_of cid intent) v).0 ≡ placed oid) where
  -- what the order manager holds when the venue has reported, before it records the submission
  abbrev pub reported : Oms OrderJournal
  reported = deliver c (venue.place_order (request_of cid intent) v).1 s

  pub newest-submit :
      newest_order oid (submit c venue cid at intent (s, v)).1.journal.orders
      ≡ some (
          later
            (λ o. o.updated_at)
            (λ o. o.order_id)
            (submitted_order oid cid at intent)
            (newest_order oid reported.journal.orders))
  unfolding submit record_submission submitted_order
  newest-submit =
      rw (submit, accepted)
        (newest-append (λ o. o.updated_at) (λ o. o.order_id) oid reported.journal.orders
          (submitted_order oid cid at intent) refl)

  -- After a submission that the venue accepts, a journal on a file that has the records of the order
  -- manager restores of the order what the venue reported of it last, where this is later than the
  -- submission, and the order as submitted and unfilled otherwise, either only if it is open.
  pub read_open_orders-submit :
      (ops : List Op)
      → (log ops empty_journal).orders ≡ (submit c venue cid at intent (s, v)).1.journal.orders
      → (xs : List Order) × ((journal_after ops >>= read_open_orders none) ≡ some xs)
        × (lookup oid (collect (λ o. o.order_id) [] xs)
            ≡ passing
                (λ o. o.order_id)
                (is_wanted none)
                (some (
                  later
                    (λ o. o.updated_at)
                    (λ o. o.order_id)
                    (submitted_order oid cid at intent)
                    (newest_order oid reported.journal.orders))))
  read_open_orders-submit ops e =
      let (xs, f, g) = run-read_open_orders ops none in
      (
        xs,
        f,
        g oid
            ∙ ap (λ ys. passing (λ o. o.order_id) (is_wanted none) (newest_order oid ys)) e
            ∙ ap (passing (λ o. o.order_id) (is_wanted none)) newest-submit,
      )
